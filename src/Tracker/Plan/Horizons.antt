-- ===== src/Tracker/Plan/Horizons.antt =====
-- The horizons of a split read, from the window: what each block of the range may see.
use craft_client.Prelude.{
  ℕ, zero, suc, ◌+◌, ◌-◌, ◌*◌, ◌/◌, ◌≤◌, ◌<◌, ◌≡◌, refl, sym, ap, ◌∙◌, Bool, true, not, ◌||◌,
  Option, some, List, [], ◌∷◌, leb, ltb, ◌==◌, if◌then◌else◌, arith, inl, inr, Bool-cases,
  Option-cases, length, length-map, length-replicate, get_or, replicate, map,
}
use native.Mathlib.Nat.{mul-div_cancel}
use craft_client.Prelude.OrderedMap.{OrderedMap, find, Above, find-Above}
use craft_client.Types.{Lsn, no_lsn}
use craft_client.Stream.{StreamTracker}
use craft_client.Tracker.{DlsnSlot}
use craft_client.Tracker.Plan.{
  ReadSegment, is_empty_slot, horizon_of, visit, overlaps, winner_pass, cut_all, split,
  split_blocks, fenced, k_max_blocks, k_max_segments,
}
use craft_client.Tracker.Plan.Segments.{Tiles, cut_all-Tiles}
use craft_client.Tracker.Plan.Winner.{winner_at, winner_at-from, winner_at-safe, acked_on, open_on}
use craft_client.Tracker.Plan.Winner.Blocks.{Blocks, get_or-visit, length-mark_blocks}

length-visit :
    (addr len k : ℕ) (idx : Lsn) (s : DlsnSlot) (us : List Lsn)
    → length (visit addr len k idx s us) ≡ length us
unfolding visit
length-visit addr len k idx s us =
    elim (Bool-cases (is_empty_slot s.outcome || not (overlaps addr len s.addr s.len))) [
      | inl off ↦ rw off refl
      | inr on ↦ rw on (length-mark_blocks _ idx _ _ 0 us)
    ]

length-winner_pass :
    (addr len k : ℕ) (ha : Lsn) (m : OrderedMap DlsnSlot) (us : List Lsn)
    → length (winner_pass addr len k ha m us) ≡ length us
unfolding winner_pass
length-winner_pass addr len k ha [] us = refl
length-winner_pass addr len k ha ((i, s) ∷ m) us = elim (Bool-cases (ltb ha i)) [
  | inl past ↦ rw (past, winner_pass) refl
  | inr more ↦
      rw (more, winner_pass)
        (length-winner_pass addr len k ha m (visit addr len k i s us)
          ∙ length-visit addr len k i s us)
]

-- Every slot of `m` is made of whole blocks of `k` bytes.
abbrev pub WholeBlocks : ℕ → (Lsn → Option DlsnSlot) → Type 0
WholeBlocks k at =
    (j : Lsn) (s : DlsnSlot) → at j ≡ some s → (i : ℕ) × (n : ℕ) × Blocks k i n s.addr s.len

abbrev entries : OrderedMap DlsnSlot → Lsn → Option DlsnSlot
entries m j = find j m

WholeBlocks-rest :
    (k : ℕ) (i : Lsn) (x : DlsnSlot) (m : OrderedMap DlsnSlot)
    → Above i m
    → WholeBlocks k (entries ((i, x) ∷ m))
    → WholeBlocks k (entries m)
WholeBlocks-rest k i x m ab h j s e = h j s (ground (arith, find-Above i j m))

get_or-winner_pass :
    (k : ℕ) (pos : 0 < k) (p q addr len : ℕ) (read : Blocks k p q addr len) (ha lo : Lsn)
    (m : OrderedMap DlsnSlot) (us : List Lsn) (b : ℕ)
    → Above lo m
    → WholeBlocks k (entries m)
    → length us ≡ q
    → b < q
    → get_or (winner_pass addr len k ha m us) b no_lsn
      ≡ winner_at ((p + b) * k) ha m (get_or us b no_lsn)
unfolding winner_pass winner_at
get_or-winner_pass k pos p q addr len read ha lo [] us b ab whole el lt = refl
get_or-winner_pass k pos p q addr len read ha lo ((i, s) ∷ m) us b ab whole el lt =
    elim (Bool-cases (ltb ha i)) [
      | inl past ↦ rw (past, winner_pass, winner_at) refl
      | inr more ↦
          let own = whole i s (ground arith) in
          rw (more, winner_pass, winner_at)
            (get_or-winner_pass k pos p q addr len read ha i m (visit addr len k i s us) b ab.1
                (WholeBlocks-rest k i s m ab.1 whole) (length-visit addr len k i s us ∙ el) lt
              ∙ ap (winner_at ((p + b) * k) ha m)
                  (get_or-visit k pos p q addr len read own.0 own.1 s own.2 i us b el lt))
    ]

get_or-map :
    (f : Lsn → Lsn) (us : List Lsn) (b : ℕ)
    → b < length us
    → get_or (map f us) b no_lsn ≡ f (get_or us b no_lsn)
get_or-map f [] b lt = absurd (omega arith)
get_or-map f (u ∷ us) zero lt = refl
get_or-map f (u ∷ us) (suc b) lt = get_or-map f us b (omega arith)

get_or-replicate : (n b : ℕ) → get_or (replicate n no_lsn) b no_lsn ≡ no_lsn
get_or-replicate zero b = refl
get_or-replicate (suc n) zero = refl
get_or-replicate (suc n) (suc b) = get_or-replicate n b

module _ (st : StreamTracker DlsnSlot) where
  -- The horizons that `split` cuts into segments.
  abbrev pub horizons : st.Tracker → ℕ → ℕ → ℕ → ℕ → Lsn → Lsn → List Lsn
  horizons w k addr len q ha umin =
      map (horizon_of ha) (winner_pass addr len k ha (st.active_from w umin) (replicate q no_lsn))

  -- A plan that `split` gives has at most 8 segments; they tile the `q` blocks of the range, in
  -- order, each with the horizon of all its blocks.
  pub split-Tiles :
      (w : st.Tracker) (k addr len q : ℕ) (ha umin : Lsn) (any_failed : Bool) (s : ReadSegment)
      (segs : List ReadSegment)
      → 0 < k
      → len ≡ q * k
      → (split st w k addr len ha umin any_failed).segs ≡ s ∷ segs
      → Tiles addr k 0 (s ∷ segs) (horizons w k addr len q ha umin)
        × (length (s ∷ segs) ≤ k_max_segments)
        × (length (horizons w k addr len q ha umin) ≡ q)
  unfolding split fenced
  split-Tiles w k addr len q ha umin any_failed s segs pos el e =
      let hs = horizons w k addr len q ha umin in
      let nblk : (if k == 0 then 0 else len / k) ≡ q = ground (arith, mul-div_cancel q pos) in
      let e' : (split_blocks st w k addr len ha umin any_failed q).segs ≡ s ∷ segs =
        ap (λ n. (split_blocks st w k addr len ha umin any_failed n).segs) (sym nblk) ∙ e in
      let ql =
        length-winner_pass addr len k ha (st.active_from w umin) (replicate q no_lsn)
        ∙ length-replicate q no_lsn in
      elim (Bool-cases (q == 0 || ltb k_max_blocks q)) [
        | inl much ↦ cc (much, e')
        | inr fits ↦ elim (Option-cases (cut_all addr k hs)) [
          | inl many ↦ cc (fits, many, e')
          | inr (out, is) ↦
              let same : out ≡ s ∷ segs = cc (fits, is, e') in
              let r = cut_all-Tiles addr k hs (s ∷ segs) (is ∙ ap some same) in
              (r.0, r.1, length-map _ (horizon_of ha) ∙ ql)
        ]
      ]

  -- The horizon of a block, by the slots of the window.
  horizon-at :
      (w : st.Tracker) (k addr len p q : ℕ) (ha umin : Lsn) (b : ℕ)
      → 0 < k
      → Blocks k p q addr len
      → 0 < umin
      → WholeBlocks k (st.slot w)
      → b < q
      → get_or (horizons w k addr len q ha umin) b no_lsn
        ≡ horizon_of ha (winner_at ((p + b) * k) ha (st.active_from w umin) no_lsn)
  horizon-at w k addr len p q ha umin b pos read u whole lt =
      let ustar = winner_pass addr len k ha (st.active_from w umin) (replicate q no_lsn) in
      let ql =
        length-winner_pass addr len k ha (st.active_from w umin) (replicate q no_lsn)
        ∙ length-replicate q no_lsn in
      get_or-map (horizon_of ha) ustar b (omega arith)
      ∙ ap (horizon_of ha) (
          get_or-winner_pass k pos p q addr len read ha (umin - 1) (st.active_from w umin)
            (replicate q no_lsn) b (st.active_Above w umin (umin - 1) (omega arith))
            (λ j s e. whole j s (ground (arith, st.active_find w umin j)))
            (length-replicate q no_lsn) lt
          ∙ ap (winner_at ((p + b) * k) ha (st.active_from w umin)) (get_or-replicate q b))

  -- Where the range and all writes are made of whole blocks, the horizon of a block hides no acked
  -- write of the block that is at or below the highest acked dLSN.
  pub horizon-sees :
      (w : st.Tracker) (k addr len p q : ℕ) (ha umin : Lsn) (b : ℕ) (j : Lsn) (s : DlsnSlot)
      → 0 < k
      → Blocks k p q addr len
      → 0 < umin
      → WholeBlocks k (st.slot w)
      → b < q
      → j ≤ ha
      → st.slot w j ≡ some s
      → acked_on ((p + b) * k) s ≡ true
      → j ≤ get_or (horizons w k addr len q ha umin) b no_lsn
  horizon-sees w k addr len p q ha umin b j s pos read u whole lt le e on =
      let m = st.active_from w umin in
      let above = st.active_Above w umin (umin - 1) (omega arith) in
      let from = winner_at-from ((p + b) * k) ha (umin - 1) m no_lsn above in
      rw (horizon-at w k addr len p q ha umin b pos read u whole lt)
        (elim (Bool-cases (leb umin j)) [
          | inl later ↦
              let here : find j m ≡ some s = st.active_find w umin j ∙ ground arith in
              (winner_at-safe ((p + b) * k) ha (umin - 1) m j s above here le).0 on
          | inr early ↦ ground (arith, from)
        ])

  -- A write of the block that is at or below its horizon, and whose fate is open, is shadowed by
  -- an acked write of the block that is above it and at or below the horizon.
  pub horizon-shadows :
      (w : st.Tracker) (k addr len p q : ℕ) (ha umin : Lsn) (b : ℕ) (j : Lsn) (s : DlsnSlot)
      → 0 < k
      → Blocks k p q addr len
      → 0 < umin
      → WholeBlocks k (st.slot w)
      → b < q
      → umin ≤ j
      → j ≤ ha
      → st.slot w j ≡ some s
      → open_on ((p + b) * k) s ≡ true
      → j ≤ get_or (horizons w k addr len q ha umin) b no_lsn
      → (i : Lsn) × (v : DlsnSlot) × (st.slot w i ≡ some v)
        × (j < i)
        × (i ≤ get_or (horizons w k addr len q ha umin) b no_lsn)
        × (acked_on ((p + b) * k) v ≡ true)
  horizon-shadows w k addr len p q ha umin b j s pos read u whole lt lo le e on low =
      let at = horizon-at w k addr len p q ha umin b pos read u whole lt in
      let here : find j (st.active_from w umin) ≡ some s = st.active_find w umin j ∙ ground arith in
      let r =
        (winner_at-safe ((p + b) * k) ha (umin - 1) (st.active_from w umin) j s
            (st.active_Above w umin (umin - 1) (omega arith)) here le).1
          on (omega (arith, at)) in
      (r.0, r.1, ground (arith, r.2, st.active_find w umin r.0), r.3, omega (arith, at, r.4), r.5)
