-- ===== src/Tracker/Plan/Reads.antt =====
-- The plan of a read, end to end: `compute` over a valid tracker.
use craft_client.Prelude.{
  ℕ, ◌+◌, ◌-◌, ◌*◌, ◌≤◌, ◌<◌, ◌≡◌, refl, sym, ap, ◌∙◌, ◌⊎◌, true, false, ◌||◌, some, List, [], ◌∷◌,
  leb, ltb, ◌==◌, max, arith, inl, inr, Bool-cases, length, get_or,
}
use craft_client.Types.{Lsn, no_lsn}
use craft_client.Stream.{StreamTracker}
use craft_client.Tracker.{DlsnSlot, is_resolved}
use craft_client.Tracker.Frontier.{State, Loose, in_session}
use craft_client.Tracker.Plan.{
  ReadSegment, PlanOutcome, overlaps, compute, compute_in, scan, split, fenced, one_segment,
  k_max_segments,
}
use craft_client.Tracker.Plan.Gaps.{scan_gaps-finds}
use craft_client.Tracker.Plan.Segments.{Tiles}
use craft_client.Tracker.Plan.Winner.{open_on, acked_on, is_on}
use craft_client.Tracker.Plan.Winner.Blocks.{Blocks, overlaps_blocks, is_on_blocks}
use craft_client.Tracker.Plan.Horizons.{WholeBlocks, horizons, split-Tiles, horizon-shadows}

-- A write on a block of the range overlaps the range.
is_on-overlaps :
    (k : ℕ) (pos : 0 < k) (p q addr len i n b : ℕ) (v : DlsnSlot)
    → Blocks k p q addr len
    → Blocks k i n v.addr v.len
    → b < q
    → is_on ((p + b) * k) v ≡ true
    → overlaps addr len v.addr v.len ≡ true
is_on-overlaps k pos p q addr len i n b v read write lt c =
    let at = is_on_blocks k pos i n (p + b) v write in
    overlaps_blocks k pos p q i n addr len v.addr v.len read write ∙ ground arith

module _ (st : StreamTracker DlsnSlot) where
  compute_eq :
      (w : st.Tracker) (addr len : ℕ) (t : State st)
      → t.tracker ≡ some w
      → compute st addr len t ≡ compute_in st addr len w t
  unfolding compute
  compute_eq w addr len t e =
      in_session st t.tracker w (one_segment addr len (max t.frontier t.highest_acked), t)
        (λ v. compute_in st addr len v t) e

  -- Where an open write overlaps the range below the highest acked dLSN, a plan is the split's.
  compute-split :
      (w : st.Tracker) (t : State st) (addr len : ℕ) (j : Lsn) (v : DlsnSlot)
      → Loose st w t
      → t.frontier < j
      → j ≤ t.highest_acked
      → st.slot w j ≡ some v
      → is_resolved v.outcome ≡ false
      → overlaps addr len v.addr v.len ≡ true
      → (let s = scan st w addr len t in
          (0 < s.umin)
          × (s.umin ≤ j)
          × (((compute st addr len t).0.segs ≡ [])
              ⊎ ((compute st addr len t).0
                  ≡ split st w t.lba_size addr len t.highest_acked s.umin s.any_failed)))
  unfolding fenced
  compute-split w t addr len j v l lt le e o hit =
      let s = scan st w addr len t in
      let f =
        scan_gaps-finds st (t.highest_acked - t.frontier) w t addr len t.highest_acked
          (t.frontier + 1) (record { umin = no_lsn; any_failed = false; any_gap = false }) j v l
          (omega arith) (omega arith) (omega arith) (λ jh. absurd (omega arith)) lt le e o hit in
      let late : leb t.highest_acked t.frontier ≡ false = ground arith in
      let some_open : (s.umin == no_lsn) ≡ false = ground (arith, f.0) in
      (
        f.0,
        f.1,
        rw (compute_eq w addr len t l.session, late, some_open)
            (elim (Bool-cases (s.any_gap || ltb t.scan_cap (t.highest_acked - s.umin))) [
              | inl wide ↦ rw wide (inl refl)
              | inr ok ↦ rw ok (inr refl)
            ]),
      )

  -- A read that is planned never trusts a write whose fate is open. Take a valid tracker, a range
  -- and writes of whole blocks, and a visible write of block `b` above the frontier and at or below
  -- the highest acked dLSN, that is neither acked nor empty. A plan for the range tiles its blocks
  -- in at most 8 segments, and the horizon of block `b` is below that write, or an acked write of
  -- the block is above that write and at or below the horizon.
  pub compute-safe :
      (w : st.Tracker) (t : State st) (addr len p q b : ℕ) (j : Lsn) (v : DlsnSlot)
      (seg : ReadSegment) (segs : List ReadSegment)
      → Loose st w t
      → 0 < t.lba_size
      → Blocks t.lba_size p q addr len
      → WholeBlocks t.lba_size (st.slot w)
      → b < q
      → t.frontier < j
      → j ≤ t.highest_acked
      → st.slot w j ≡ some v
      → open_on ((p + b) * t.lba_size) v ≡ true
      → (compute st addr len t).0.segs ≡ seg ∷ segs
      → (hs : List Lsn) × Tiles addr t.lba_size 0 (seg ∷ segs) hs
        × (length (seg ∷ segs) ≤ k_max_segments)
        × (length hs ≡ q)
        × ((get_or hs b no_lsn < j)
            ⊎ ((i : Lsn) × (u : DlsnSlot) × (st.slot w i ≡ some u)
                × (j < i)
                × (i ≤ get_or hs b no_lsn)
                × (acked_on ((p + b) * t.lba_size) u ≡ true)))
  compute-safe w t addr len p q b j v seg segs l pos read whole bq lt le e on planned =
      let own = whole j v e in
      let o : is_resolved v.outcome ≡ false = ground arith in
      let hit =
        is_on-overlaps t.lba_size pos p q addr len own.0 own.1 b v read own.2 bq (ground arith) in
      let c = compute-split w t addr len j v l lt le e o hit in
      let s = scan st w addr len t in
      let hs = horizons st w t.lba_size addr len q t.highest_acked s.umin in
      elim c.2 [
        | inl no_plan ↦ cc
        | inr is ↦
            let r =
              split-Tiles st w t.lba_size addr len q t.highest_acked s.umin s.any_failed seg segs
                pos read.spans (ap (λ (x : PlanOutcome). x.segs) (sym is) ∙ planned) in
            (
              hs,
              r.0,
              r.1,
              r.2,
              elim (Bool-cases (ltb (get_or hs b no_lsn) j)) [
                | inl under ↦ inl (ground arith)
                | inr over ↦ inr (
                    horizon-shadows st w t.lba_size addr len p q t.highest_acked s.umin b j v pos
                      read c.0 whole bq c.1 le e on (ground arith))
              ],
            )
      ]
