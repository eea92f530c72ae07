-- ===== src/Transport/Agreement.antt =====
-- What a resolution round leaves behind on the live replicas.
pub mod Decided
use craft_client.Prelude.{
  ℕ, zero, suc, ◌+◌, ◌-◌, ◌≤◌, ◌<◌, ◌≡◌, ◌≢◌, refl, ap, ap₂, subst, Bool, true, false, not, ◌||◌,
  Option, none, some, List, [], ◌∷◌, map, ◌⊎◌, inl, inr, arith, max, min, All, All-map, All-swap,
  All-both,
}
use craft_client.Prelude.OrderedMap.{find, find-assign}
use craft_client.Types.{Lsn}
use craft_client.Replica.{MemCraftReplica, MemJournalSlot, tombstone}
use craft_client.Replica.Apply.{apply_up_to}
use craft_client.Replica.Apply.Frontier.{apply_up_to_frontier, apply_up_to-Applies, Applies-same}
use craft_client.Replica.Ops.{holds_verdict, cold_install_slot, cold_mark_empty, cold_apply_sync}
use craft_client.Transport.{
  first_of, scan_slots, scan_slot, settle, settle_rounds, min_commit, lsn_max, resolve_live,
}

abbrev pub held : Option MemJournalSlot → Bool
held none = false
held (some s) = true

abbrev pub slot_of : Lsn → MemCraftReplica → Option MemJournalSlot
slot_of d r = find d r.journal

abbrev any_verdict : List (Option MemJournalSlot) → Bool
any_verdict [] = false
any_verdict (o ∷ slots) = holds_verdict o || any_verdict slots

abbrev any_held : List (Option MemJournalSlot) → Bool
any_held [] = false
any_held (o ∷ slots) = held o || any_held slots

-- What the round should decide: Empty beats data, and data beats a hole.
abbrev pub void_among : List (Option MemJournalSlot) → Bool
void_among slots = any_verdict slots || not (any_held slots)

abbrev pub void_slot : Lsn → List MemCraftReplica → Bool
void_slot d live = void_among (map (slot_of d) live)

abbrev pub void_of : Bool × Option MemJournalSlot → Bool
void_of (verdicted, copy) = verdicted || not (held copy)

abbrev pub Settled : Lsn → Bool → MemCraftReplica → Type 0
Settled d b r = (held (slot_of d r) ≡ true) × (holds_verdict (slot_of d r) ≡ b)

pub void_of-scan_slots :
    (slots : List (Option MemJournalSlot)) (c : Option MemJournalSlot)
    → void_of (scan_slots slots c) ≡ (any_verdict slots || not (held c || any_held slots))
unfolding scan_slots
void_of-scan_slots [] none = refl
void_of-scan_slots [] (some s) = refl
void_of-scan_slots (none ∷ slots) none = void_of-scan_slots slots none
void_of-scan_slots (none ∷ slots) (some c) = void_of-scan_slots slots (some c)
void_of-scan_slots (some s ∷ slots) none = ground (arith, void_of-scan_slots slots (some s))
void_of-scan_slots (some s ∷ slots) (some c) = ground (arith, void_of-scan_slots slots (some c))

-- Where no verdict was met, there is none.
scan_slots_sound :
    (slots : List (Option MemJournalSlot)) (c : Option MemJournalSlot)
    → (scan_slots slots c).0 ≡ false
    → any_verdict slots ≡ false
unfolding scan_slots
scan_slots_sound [] c e = refl
scan_slots_sound (none ∷ slots) c e = scan_slots_sound slots c e
scan_slots_sound (some s ∷ slots) c e = ground (arith, scan_slots_sound slots (first_of c s))

-- The copy that the round takes is no verdict.
scan_slots-copy :
    (slots : List (Option MemJournalSlot)) (c : Option MemJournalSlot)
    → holds_verdict c ≡ false
    → holds_verdict (scan_slots slots c).1 ≡ false
unfolding scan_slots
scan_slots-copy [] c e = e
scan_slots-copy (none ∷ slots) c e = scan_slots-copy slots c e
scan_slots-copy (some s ∷ slots) none e = ground (arith, scan_slots-copy slots (some s))
scan_slots-copy (some s ∷ slots) (some c) e = ground (arith, scan_slots-copy slots (some c))

settle-Settled :
    (d : Lsn) (p : Bool × Option MemJournalSlot) (r : MemCraftReplica)
    → (p.0 ≡ false → holds_verdict (slot_of d r) ≡ false)
    → holds_verdict p.1 ≡ false
    → Settled d (void_of p) (settle d p r)
unfolding settle cold_mark_empty cold_install_slot
settle-Settled d (true, copy) r h g = ground (arith, find-assign d (tombstone r.term) r.journal d)
settle-Settled d (false, none) r h g = ground (arith, find-assign d (tombstone r.term) r.journal d)
settle-Settled d (false, some s) r h g = ground (arith, find-assign d s r.journal d)

pub slot_of-settle :
    (d : Lsn) (p : Bool × Option MemJournalSlot) (r : MemCraftReplica) (j : Lsn)
    → d ≢ j
    → slot_of j (settle d p r) ≡ slot_of j r
unfolding settle cold_mark_empty cold_install_slot
slot_of-settle d (true, copy) r j ne = ground (arith, find-assign d (tombstone r.term) r.journal j)
slot_of-settle d (false, none) r j ne = ground (arith, find-assign d (tombstone r.term) r.journal j)
slot_of-settle d (false, some s) r j ne = ground (arith, find-assign d s r.journal j)

commit-settle :
    (d : Lsn) (p : Bool × Option MemJournalSlot) (r : MemCraftReplica)
    → (settle d p r).commit_lsn ≡ r.commit_lsn
unfolding settle cold_mark_empty cold_install_slot
commit-settle d (true, copy) r = refl
commit-settle d (false, none) r = refl
commit-settle d (false, some s) r = ground arith

-- One round settles its own dLSN on every live replica,
map-settle-Settled :
    (d : Lsn) (p : Bool × Option MemJournalSlot) (live : List MemCraftReplica)
    → (p.0 ≡ false → any_verdict (map (slot_of d) live) ≡ false)
    → holds_verdict p.1 ≡ false
    → All (Settled d (void_of p)) (map (settle d p) live)
map-settle-Settled d p [] h g = tt
map-settle-Settled d p (r ∷ live) h g = (
  settle-Settled d p r (λ e. ground (arith, h e)) g,
  map-settle-Settled d p live (λ e. ground (arith, h e)) g,
)

-- and leaves the other ones.
pub slots-settle :
    (d : Lsn) (p : Bool × Option MemJournalSlot) (live : List MemCraftReplica) (j : Lsn)
    → d ≢ j
    → map (slot_of j) (map (settle d p) live) ≡ map (slot_of j) live
slots-settle d p [] j ne = refl
slots-settle d p (r ∷ live) j ne =
    ap₂ (λ o os. o ∷ os) (slot_of-settle d p r j ne) (slots-settle d p live j ne)

-- What later rounds keep.
kept_by_rounds :
    (P : MemCraftReplica → Type 0) (n : ℕ) (d : Lsn) (live : List MemCraftReplica)
    → ((e : Lsn) (p : Bool × Option MemJournalSlot) (r : MemCraftReplica)
        → d ≤ e
        → P r
        → P (settle e p r))
    → All P live
    → All P (settle_rounds n d live)
unfolding settle_rounds
kept_by_rounds P zero d live keep a = a
kept_by_rounds P (suc n) d live keep a =
    kept_by_rounds P n (d + 1) (map (settle d (scan_slot d live)) live)
      (λ e p r le. keep e p r (omega arith)) (All-map P P _ live (λ r. keep d _ r (omega arith)) a)

settle_rounds-Settled :
    (n : ℕ) (d : Lsn) (live : List MemCraftReplica) (j : Lsn)
    → d ≤ j
    → j < d + n
    → All (Settled j (void_slot j live)) (settle_rounds n d live)
unfolding settle_rounds
settle_rounds-Settled zero d live j lo hi = absurd (omega arith)
settle_rounds-Settled (suc n) d live j lo hi = elim (now_or_later j lo) [
  | inl now ↦
      subst (λ k. All (Settled k (void_slot k live)) (settle_rounds n (d + 1) next)) now
        (kept_by_rounds (Settled d (void_slot d live)) n (d + 1) next
          (λ e p r le a. rw (slot_of-settle e p r d (λ eq. absurd (omega (arith, eq)))) a)
          (subst (λ b. All (Settled d b) next) (void_of-scan_slots (map (slot_of d) live) none)
            (map-settle-Settled d (scan_slot d live) live (scan_slots_sound _ none)
              (scan_slots-copy _ none refl))))
  | inr later ↦
      subst (λ b. All (Settled j b) (settle_rounds n (d + 1) next))
        (ap void_among
          (slots-settle d (scan_slot d live) live j (λ eq. absurd (omega (arith, eq)))))
        (settle_rounds-Settled n (d + 1) next j (omega arith) (omega arith))
]
  where
    next : List MemCraftReplica
    next = map (settle d (scan_slot d live)) live

    now_or_later : (j : ℕ) → d ≤ j → (d ≡ j) ⊎ (d + 1 ≤ j)
    now_or_later j lo = ground arith

min_commit-le : (live : List MemCraftReplica) (floor : Lsn) → min_commit live floor ≤ floor
min_commit-le [] floor = omega arith
min_commit-le (r ∷ live) floor = omega (arith, min_commit-le live (min floor r.commit_lsn))

min_commit-floor :
    (live : List MemCraftReplica) (floor : Lsn)
    → All (λ r. min_commit live floor ≤ r.commit_lsn) live
min_commit-floor [] floor = tt
min_commit-floor (r ∷ live) floor = (
  omega (arith, min_commit-le live (min floor r.commit_lsn)),
  min_commit-floor live (min floor r.commit_lsn),
)

-- A commit over a settled range passes its end.
reaches :
    (r : MemCraftReplica) (upto floor : Lsn)
    → floor ≤ r.commit_lsn
    → ((d : Lsn) → floor < d → d ≤ upto → held (slot_of d r) ≡ true)
    → upto ≤ (apply_up_to r upto).commit_lsn
reaches r upto floor le full = ended (apply_up_to r upto).commit_lsn (apply_up_to_frontier r upto)
  where
    ended :
        (c : ℕ)
        → (r.commit_lsn ≤ c)
          × (c ≤ max r.commit_lsn upto)
          × ((d : Lsn) → r.commit_lsn < d → d ≤ c → find d r.journal ≢ none)
          × ((upto ≤ c) ⊎ (find (c + 1) r.journal ≡ none))
        → upto ≤ c
    ended c (lo, hi, filled, inl done) = done
    ended c (lo, hi, filled, inr hole) = ground (arith, full (c + 1))

-- The rounds cover the dLSNs from `floor + 1` to `upto`.
module _ (live : List MemCraftReplica) (upto : Lsn) where
  abbrev floor : Lsn
  floor = min_commit live lsn_max

  abbrev settled : List MemCraftReplica
  settled = settle_rounds (upto - floor) (floor + 1) live

  rounds-All : (d : Lsn) → floor < d → d ≤ upto → All (Settled d (void_slot d live)) settled
  rounds-All d lo hi = settle_rounds-Settled _ (floor + 1) live d (omega arith) (omega arith)

  rounds_above_floor : All (λ r. floor ≤ r.commit_lsn) settled
  rounds_above_floor =
      kept_by_rounds _ _ _ live (λ e p r le h. rw (commit-settle e p r) h)
        (min_commit-floor live lsn_max)

pub resolve_live-Settled :
    (live : List MemCraftReplica) (upto d : Lsn)
    → min_commit live lsn_max < d
    → d ≤ upto
    → All (Settled d (void_slot d live)) (resolve_live live upto)
unfolding resolve_live cold_apply_sync
resolve_live-Settled live upto d lo hi =
    All-map _ _ _ (settled live upto)
      (λ r h. rw (Applies-same (apply_up_to-Applies r upto)).journal h)
      (rounds-All live upto d lo hi)

-- After a resolution round the commit frontier of every live replica has reached the target.
pub resolve_live_reaches :
    (live : List MemCraftReplica) (upto : Lsn)
    → All (λ q. upto ≤ q.commit_lsn) (resolve_live live upto)
unfolding resolve_live cold_apply_sync
resolve_live_reaches live upto =
    All-map _ _ _ (settled live upto)
      (λ r (le, full). reaches r upto (floor live upto) le (λ d lo hi. full (d, lo, hi)))
      (All-both _ _ _ (rounds_above_floor live upto) (
        All-swap {B = (d : Lsn) × (floor live upto < d) × (d ≤ upto)}
          (λ b r. held (slot_of b.0 r) ≡ true) (settled live upto)
          (λ b. held_all _ _ (settled live upto) (rounds-All live upto b.0 b.1 b.2))))
  where
    held_all :
        (d : Lsn) (b : Bool) (xs : List MemCraftReplica)
        → All (Settled d b) xs
        → All (λ r. held (slot_of d r) ≡ true) xs
    held_all d b [] a = tt
    held_all d b (x ∷ xs) a = (a.0.0, held_all d b xs a.1)
