-- ===== src/Tracker/Plan/Winner.antt =====
-- The winner pass, block by block: what survives for a block is the lowest unresolved write above
-- the last acked one, so a read at the horizon below it sees every acked write and no other.
pub mod Blocks
use craft_client.Prelude.{
  ℕ, zero, suc, ◌+◌, ◌-◌, ◌*◌, ◌/◌, ◌≤◌, ◌<◌, ◌≡◌, ◌≢◌, refl, sym, ap, subst, ◌∙◌, Bool, true,
  false, not, ◌&&◌, ◌||◌, Option, none, some, List, [], ◌∷◌, ◌++◌, leb, ltb, ◌==◌, if◌then◌else◌,
  arith, inl, inr, ◌⊎◌, Bool-cases, length, get_or, min, max,
}
use craft_client.Prelude.OrderedMap.{OrderedMap, find, Above, find-Above}
use craft_client.Types.{Lsn, no_lsn}
use craft_client.Tracker.{DlsnSlot, SlotOutcome, is_acked, is_resolved}
use craft_client.Tracker.Plan.{is_empty_slot, horizon_of}

-- The slot is on the block that starts at `a`.
unfoldable pub is_on : ℕ → DlsnSlot → Bool
is_on a s = leb s.addr a && ltb a (s.addr + s.len)

-- What the visit of one slot does to the entry of the block at `a`.
unfoldable pub visit_at : ℕ → Lsn → DlsnSlot → Lsn → Lsn
visit_at a idx s u =
    if is_empty_slot s.outcome || not (is_on a s)
    then u
    else (if is_acked s.outcome then no_lsn else (if u == no_lsn then idx else u))

-- The winner pass over the slots `m`, for the block at `a`.
unfoldable pub winner_at : ℕ → Lsn → OrderedMap DlsnSlot → Lsn → Lsn
winner_at a ha [] u = u
winner_at a ha ((idx, s) ∷ rest) u = elim (ltb ha idx) [
  | true ↦ u
  | false ↦ winner_at a ha rest (visit_at a idx s u)
]

-- An acked write, and one whose fate is open, on the block at `a`.
abbrev pub acked_on : ℕ → DlsnSlot → Bool
acked_on a s = is_acked s.outcome && is_on a s

abbrev pub open_on : ℕ → DlsnSlot → Bool
open_on a s = not (is_resolved s.outcome) && is_on a s

-- A durable write on the block, between `lo` and `hi`.
abbrev pub Durable : ℕ → OrderedMap DlsnSlot → Lsn → Lsn → Type 0
Durable a m lo hi =
    (j : Lsn) × (s : DlsnSlot) × (find j m ≡ some s) × (lo < j) × (j ≤ hi) × (acked_on a s ≡ true)

Durable-cons :
    (a : ℕ) (i : Lsn) (s : DlsnSlot) (m : OrderedMap DlsnSlot) (lo hi : Lsn)
    → Above i m
    → Durable a m lo hi
    → Durable a ((i, s) ∷ m) lo hi
Durable-cons a i s m lo hi ab (j, s', e, lt, le, on) =
    (j, s', ground (arith, e, find-Above i j m), lt, le, on)

visit_at-acked :
    (a : ℕ) (i : Lsn) (s : DlsnSlot) (u : Lsn) → acked_on a s ≡ true → visit_at a i s u ≡ 0
unfolding visit_at
visit_at-acked a i s u e = ground arith

open_outcome :
    (o : SlotOutcome) → is_resolved o ≡ false → (is_empty_slot o ≡ false) × (is_acked o ≡ false)
unfolding is_resolved
open_outcome SlotOutcome.in_flight e = (refl, refl)
open_outcome SlotOutcome.failed e = (refl, refl)
open_outcome SlotOutcome.acked e = cc
open_outcome SlotOutcome.empty e = cc

visit_at-open :
    (a : ℕ) (i : Lsn) (s : DlsnSlot) (u : Lsn)
    → open_on a s ≡ true
    → visit_at a i s u ≡ (if u == 0 then i else u)
unfolding visit_at
visit_at-open a i s u e = ground (arith, open_outcome s.outcome)

visit_at-other :
    (a : ℕ) (i : Lsn) (s : DlsnSlot) (u : Lsn)
    → acked_on a s ≡ false
    → (visit_at a i s u ≡ u) ⊎ ((u ≡ 0) × (visit_at a i s u ≡ i))
unfolding visit_at
visit_at-other a i s u e = ground arith

visit_at_bound : (a : ℕ) (i : Lsn) (s : DlsnSlot) (u : Lsn) → u ≤ i → visit_at a i s u ≤ i
unfolding visit_at
visit_at_bound a i s u le = ground arith

-- The entry that a pass starts from stays, goes, or is replaced by a later dLSN.
pub winner_at-from :
    (a ha lo : ℕ) (m : OrderedMap DlsnSlot) (u : Lsn)
    → Above lo m
    → (winner_at a ha m u ≡ u) ⊎ ((winner_at a ha m u ≡ 0) ⊎ (lo < winner_at a ha m u))
unfolding winner_at
winner_at-from a ha lo [] u ab = inl refl
winner_at-from a ha lo ((i, s) ∷ m) u ab = ground (
  arith,
  winner_at-from a ha i m (visit_at a i s u),
  visit_at-other a i s u,
  visit_at-acked a i s u,
)

-- An entry goes only by a durable write.
winner_at-loses :
    (a ha lo : ℕ) (m : OrderedMap DlsnSlot) (u : Lsn)
    → Above lo m
    → 0 < u
    → winner_at a ha m u ≢ u
    → Durable a m lo ha
unfolding winner_at
winner_at-loses a ha lo [] u ab pos ne = absurd (ne refl)
winner_at-loses a ha lo ((i, s) ∷ m) u ab pos ne = elim (Bool-cases (ltb ha i)) [
  | inl past ↦ absurd (ne (rw (past, winner_at) refl))
  | inr in_range ↦ elim (Bool-cases (acked_on a s)) [
    | inl durable ↦ (i, s, ground arith, ab.0, ground arith, durable)
    | inr other ↦
        let same : visit_at a i s u ≡ u = ground (arith, visit_at-other a i s u) in
        let r =
          winner_at-loses a ha i m u ab.1 pos
            (λ e. ne (rw (in_range, winner_at) (ap (winner_at a ha m) same ∙ e))) in
        Durable-cons a i s m lo ha ab.1 (r.0, r.1, r.2, omega arith, r.4, r.5)
  ]
]

-- Every durable write on the block is below what survives.
pub winner_at-sees :
    (a ha lo : ℕ) (m : OrderedMap DlsnSlot) (u : Lsn) (j : Lsn) (s : DlsnSlot)
    → Above lo m
    → find j m ≡ some s
    → j ≤ ha
    → acked_on a s ≡ true
    → j ≤ horizon_of ha (winner_at a ha m u)
unfolding winner_at
winner_at-sees a ha lo [] u j s ab e le on = cc
winner_at-sees a ha lo ((i, x) ∷ m) u j s ab e le on = elim (Bool-cases (ltb ha i)) [
  | inl past ↦ absurd (ground (arith, find-Above i j m))
  | inr in_range ↦
      rw (in_range, winner_at)
        (elim (Bool-cases (i == j)) [
          | inl here ↦
              let same : x ≡ s = ground arith in
              ground (arith, visit_at-acked a i x u, winner_at-from a ha i m (visit_at a i x u))
          | inr on_rest ↦ winner_at-sees a ha i m (visit_at a i x u) j s ab.1 (ground arith) le on
        ])
]

-- A write below what survives, whose fate is open, is shadowed by a durable one.
winner_at-shadows :
    (a ha lo : ℕ) (m : OrderedMap DlsnSlot) (u : Lsn) (j : Lsn) (s : DlsnSlot)
    → Above lo m
    → u ≤ lo
    → find j m ≡ some s
    → j ≤ horizon_of ha (winner_at a ha m u)
    → j ≤ ha
    → open_on a s ≡ true
    → Durable a m j ha
unfolding winner_at
winner_at-shadows a ha lo [] u j s ab ul e below le on = cc
winner_at-shadows a ha lo ((i, x) ∷ m) u j s ab ul e below le on = elim (Bool-cases (ltb ha i)) [
  | inl past ↦ absurd (ground (arith, find-Above i j m))
  | inr in_range ↦
      let low : j ≤ horizon_of ha (winner_at a ha m (visit_at a i x u)) =
        rw (in_range, winner_at) at below in
      elim (Bool-cases (i == j)) [
        | inl here ↦
            let same : x ≡ s = ground arith in
            let v : visit_at a i x u ≡ (if u == 0 then i else u) =
              visit_at-open a i x u (rw same on) in
            let r =
              winner_at-loses a ha i m (visit_at a i x u) ab.1 (ground (arith, ab.0))
                (λ e'. ground (arith, ab.0)) in
            Durable-cons a i x m j ha ab.1 (r.0, r.1, r.2, ground (arith, r.3), r.4, r.5)
        | inr on_rest ↦
            let r =
              winner_at-shadows a ha i m (visit_at a i x u) j s ab.1
                (visit_at_bound a i x u (omega (arith, ab.0))) (ground arith) low le on in
            Durable-cons a i x m j ha ab.1 r
      ]
]

-- The block's horizon after a pass: at most the highest acked dLSN, no durable write is hidden, and
-- a write at or below it whose fate is open is shadowed by a durable one that the read sees.
pub winner_at-safe :
    (a ha lo : ℕ) (m : OrderedMap DlsnSlot) (j : Lsn) (s : DlsnSlot)
    → Above lo m
    → find j m ≡ some s
    → j ≤ ha
    → (let h = horizon_of ha (winner_at a ha m no_lsn) in
        (acked_on a s ≡ true → j ≤ h) × (open_on a s ≡ true → j ≤ h → Durable a m j h))
winner_at-safe a ha lo m j s ab e le = (
  winner_at-sees a ha lo m 0 j s ab e le,
  λ on low.
      let r = winner_at-shadows a ha lo m 0 j s ab (omega arith) e low le on in
      (r.0, r.1, r.2, r.3, winner_at-sees a ha lo m 0 r.0 r.1 ab r.2 r.4 r.5, r.5),
)
