-- ===== src/Transport/Faults.antt =====
-- The forwarders of the transport: the knobs of a replica by its id, the leader, and registration.
use craft_client.Prelude.{
  ℕ, ◌≡◌, refl, inl, inr, arith, Option-cases, if◌then◌else◌, ◌&&◌, Bool, true, false, not, ◌||◌,
  ◌==◌, Option, none, some, List, [], ◌∷◌,
}
use craft_client.Prelude.OrderedMap.{OrderedMap, find, assign, find-assign}
use craft_client.Replica.{MemCraftReplica}
use craft_client.Replica.Faults.{set_up, set_delay, drop_writes, clear_faults}
use craft_client.Transport.{MemTransport}

unfoldable pub register_replica : MemTransport → MemCraftReplica → MemTransport
register_replica net r = record net { by_id = assign r.id r net.by_id }

unfoldable pub set_leader : MemTransport → ℕ → MemTransport
set_leader net i = record net { leader = i }

-- An id without a replica is passed over.
abbrev pub on_replica :
    (MemCraftReplica → MemCraftReplica)
    → ℕ
    → OrderedMap MemCraftReplica
    → OrderedMap MemCraftReplica
on_replica f i m = elim (find i m) [ none ↦ m | some r ↦ assign i (f r) m ]

-- An id without a replica reads as healthy.
unfoldable pub is_up : MemTransport → ℕ → Bool
is_up net i = elim (find i net.by_id) [ none ↦ true | some r ↦ r.faults.up ]

unfoldable pub write_allowed : MemTransport → ℕ → Bool
write_allowed net i = elim (find i net.by_id) [ none ↦ true | some r ↦ r.faults.write_ok ]

unfoldable pub delay_for : MemTransport → ℕ → ℕ
delay_for net i = elim (find i net.by_id) [ none ↦ 0 | some r ↦ r.faults.delay ]

unfoldable pub net_set_up : MemTransport → ℕ → Bool → MemTransport
net_set_up net i up = record net { by_id = on_replica (set_up up) i net.by_id }

unfoldable pub net_set_delay : MemTransport → ℕ → ℕ → MemTransport
net_set_delay net i d = record net { by_id = on_replica (set_delay d) i net.by_id }

abbrev pub contains : List ℕ → ℕ → Bool
contains [] i = false
contains (k ∷ keep) i = (k == i) || contains keep i

abbrev pub subquorum_from :
    List ℕ → List ℕ → OrderedMap MemCraftReplica → OrderedMap MemCraftReplica
subquorum_from keep [] m = m
subquorum_from keep (i ∷ members) m =
    subquorum_from keep members (on_replica (drop_writes (not (contains keep i))) i m)

unfoldable pub force_subquorum : MemTransport → List ℕ → MemTransport
force_subquorum net keep = record net { by_id = subquorum_from keep net.members net.by_id }

abbrev pub clear_from : List ℕ → OrderedMap MemCraftReplica → OrderedMap MemCraftReplica
clear_from [] m = m
clear_from (i ∷ members) m = clear_from members (on_replica clear_faults i m)

unfoldable pub net_clear_faults : MemTransport → MemTransport
net_clear_faults net = record net { by_id = clear_from net.members net.by_id }

abbrev allowed : Option MemCraftReplica → Bool
allowed none = true
allowed (some r) = r.faults.write_ok

abbrev pub registered : Option MemCraftReplica → Bool
registered none = false
registered (some r) = true

one_subquorum :
    (keep : List ℕ) (k i : ℕ) (m : OrderedMap MemCraftReplica)
    → let m' = on_replica (drop_writes (not (contains keep k))) k m in
      (registered (find i m') ≡ registered (find i m))
      × (allowed (find i m')
          ≡ (if (k == i) && registered (find i m) then contains keep i else allowed (find i m)))
unfolding drop_writes
one_subquorum keep k i m = elim (Option-cases (find k m)) [
  | inl gone ↦ rw (gone, on_replica) (ground arith)
  | inr (r, e) ↦
      rw (e, on_replica) (ground (arith, find-assign k (drop_writes (not (contains keep k)) r) m i))
]

allowed-subquorum :
    (keep members : List ℕ) (i : ℕ) (m : OrderedMap MemCraftReplica)
    → allowed (find i (subquorum_from keep members m)) ≡ (
        if contains members i && registered (find i m) then contains keep i else allowed (find i m))
allowed-subquorum keep [] i m = refl
allowed-subquorum keep (k ∷ members) i m = ground (
  arith,
  allowed-subquorum keep members i (on_replica (drop_writes (not (contains keep k))) k m),
  one_subquorum keep k i m,
)

-- After `force_subquorum` a registered member takes writes exactly when it is among those to keep,
-- and every other id answers as before.
pub write_allowed-force_subquorum :
    (net : MemTransport) (keep : List ℕ) (i : ℕ)
    → write_allowed (force_subquorum net keep) i ≡ (
        if contains net.members i && registered (find i net.by_id)
        then contains keep i
        else write_allowed net i)
unfolding write_allowed force_subquorum
write_allowed-force_subquorum net keep i =
    ground (arith, allowed-subquorum keep net.members i net.by_id)
