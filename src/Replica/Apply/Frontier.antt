-- ===== src/Replica/Apply/Frontier.antt =====
-- How far `apply_up_to` goes: the commit frontier.
use craft_client.Prelude.{
  ℕ, zero, suc, ◌+◌, ◌-◌, ◌≤◌, ◌<◌, ◌≡◌, ◌≢◌, refl, ◌∙◌, ◌⊎◌, inl, inr, none, some, leb, arith,
  Option-cases, Bool-cases, max,
}
use craft_client.Prelude.OrderedMap.{find}
use craft_client.Types.{Lsn}
use craft_client.Replica.{MemCraftReplica, MemJournalSlot}
use craft_client.Replica.Apply.{advance, apply_rounds, apply_up_to}

-- Everything but the index and the commit frontier is as before.
pub record SameButApplied (r q : MemCraftReplica) : Type 0 where
  pub journal : q.journal ≡ r.journal
  pub page_size : q.page_size ≡ r.page_size
  pub id : q.id ≡ r.id
  pub last_append : q.last_append_lsn ≡ r.last_append_lsn
  pub term : q.term ≡ r.term
  pub client_token : q.client_token ≡ r.client_token
  pub faults : q.faults ≡ r.faults
  pub reads : q.reads_served ≡ r.reads_served
  pub keepalives : q.keepalives_served ≡ r.keepalives_served

SameButApplied-refl : (r : MemCraftReplica) → SameButApplied r r
SameButApplied-refl r = ground arith

-- `apply_rounds` unfolds into steps, each of which found the slot at the next dLSN.
pub data Applies (target : Lsn) : MemCraftReplica → MemCraftReplica → Type 0 where
  stalled :
      (r : MemCraftReplica)
      → (target ≤ r.commit_lsn) ⊎ (find (r.commit_lsn + 1) r.journal ≡ none)
      → Applies target r r
  stepped :
      (r q : MemCraftReplica) (s : MemJournalSlot)
      → r.commit_lsn + 1 ≤ target
      → find (r.commit_lsn + 1) r.journal ≡ some s
      → Applies target (advance r (r.commit_lsn + 1) s) q
      → Applies target r q

-- With the rounds that `apply_up_to` gives it, the loop ends at the target or at a hole.
apply_rounds-Applies :
    (fuel : ℕ) (r : MemCraftReplica) (target : Lsn)
    → target ≤ r.commit_lsn + fuel
    → Applies target r (apply_rounds fuel r target)
unfolding apply_rounds
apply_rounds-Applies zero r target h = stalled r (inl (omega arith))
apply_rounds-Applies (suc fuel) r target h =
    elim (Option-cases (find (r.commit_lsn + 1) r.journal)) [
      | inl hole ↦ rw (hole, apply_rounds) (stalled r (inr hole))
      | inr (s, e) ↦ elim (Bool-cases (leb (r.commit_lsn + 1) target)) [
        | inl more ↦
            rw (e, apply_rounds)
              (rw more (
                stepped r _ s (ground arith) e (
                  apply_rounds-Applies fuel (advance r (r.commit_lsn + 1) s) target
                    (unfold advance in omega arith))))
        | inr done ↦ rw (e, apply_rounds) (rw done (stalled r (inl (ground arith))))
      ]
    ]

pub apply_up_to-Applies :
    (r : MemCraftReplica) (target : Lsn) → Applies target r (apply_up_to r target)
unfolding apply_up_to
apply_up_to-Applies r target = apply_rounds-Applies (target - r.commit_lsn) r target (omega arith)

advance-same :
    (r : MemCraftReplica) (d : Lsn) (s : MemJournalSlot) → SameButApplied r (advance r d s)
unfolding advance
advance-same r d s = ground arith

SameButApplied-trans :
    (r q p : MemCraftReplica) → SameButApplied r q → SameButApplied q p → SameButApplied r p
SameButApplied-trans r q p a b = record {
  journal = b.journal ∙ a.journal;
  page_size = b.page_size ∙ a.page_size;
  id = b.id ∙ a.id;
  last_append = b.last_append ∙ a.last_append;
  term = b.term ∙ a.term;
  client_token = b.client_token ∙ a.client_token;
  faults = b.faults ∙ a.faults;
  reads = b.reads ∙ a.reads;
  keepalives = b.keepalives ∙ a.keepalives;
}

pub Applies-same : {target : Lsn} {r q : MemCraftReplica} → Applies target r q → SameButApplied r q
Applies-same (stalled r h) = SameButApplied-refl r
Applies-same (stepped r q s h e a) =
    SameButApplied-trans r _ q (advance-same r _ s) (Applies-same a)

-- The frontier never moves back, and it passes the target only where it started past it.
pub Applies-bounds :
    {target : Lsn} {r q : MemCraftReplica}
    → Applies target r q
    → (r.commit_lsn ≤ q.commit_lsn) × (q.commit_lsn ≤ max r.commit_lsn target)
Applies-bounds (stalled r h) = (omega arith, omega arith)
Applies-bounds (stepped r q s h e a) = omega (arith, Applies-bounds a, advance_commit r _ s)
  where
    advance_commit :
        (r : MemCraftReplica) (d : Lsn) (s : MemJournalSlot) → (advance r d s).commit_lsn ≡ d
    advance_commit r d s = unfold advance in refl

Applies-filled :
    {target : Lsn} {r q : MemCraftReplica} (d : Lsn)
    → Applies target r q
    → r.commit_lsn < d
    → d ≤ q.commit_lsn
    → find d r.journal ≢ none
unfolding advance
Applies-filled d (stalled r h) lo hi = absurd (omega arith)
Applies-filled {target} d (stepped r q s h e a) lo hi = elim (or_later d lo) [
  | inl now ↦ λ gone. cc (now, e, gone)
  | inr later ↦ Applies-filled d a later hi
]
  where
    or_later : (d : ℕ) → r.commit_lsn < d → (d ≡ r.commit_lsn + 1) ⊎ (r.commit_lsn + 1 < d)
    or_later d lo = ground arith

Applies-ended :
    {target : Lsn} {r q : MemCraftReplica}
    → Applies target r q
    → (target ≤ q.commit_lsn) ⊎ (find (q.commit_lsn + 1) r.journal ≡ none)
unfolding advance
Applies-ended (stalled r h) = h
Applies-ended (stepped r q s h e a) = Applies-ended a

-- The commit frontier advances over present slots only, stops at the target or at the first missing
-- slot, never moves back, and never passes a target that was ahead of it.
pub apply_up_to_frontier :
    (r : MemCraftReplica) (target : Lsn)
    → let q = apply_up_to r target in
      (r.commit_lsn ≤ q.commit_lsn)
      × (q.commit_lsn ≤ max r.commit_lsn target)
      × ((d : Lsn) → r.commit_lsn < d → d ≤ q.commit_lsn → find d r.journal ≢ none)
      × ((target ≤ q.commit_lsn) ⊎ (find (q.commit_lsn + 1) r.journal ≡ none))
apply_up_to_frontier r target =
    let a = apply_up_to-Applies r target in
    ((Applies-bounds a).0, (Applies-bounds a).1, (λ d. Applies-filled d a), Applies-ended a)
