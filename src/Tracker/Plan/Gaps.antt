-- ===== src/Tracker/Plan/Gaps.antt =====
-- The gap scan of `compute`: it finds the lowest open write that overlaps the range.
use craft_client.Prelude.{
  ℕ, zero, suc, ◌+◌, ◌≤◌, ◌<◌, ◌≡◌, sym, ap, ◌∙◌, true, false, ◌||◌, Option, none, some, ltb, ◌==◌,
  arith, inl, inr, Bool-cases,
}
use craft_client.Types.{Lsn}
use craft_client.Stream.{StreamTracker}
use craft_client.Tracker.{DlsnSlot, is_resolved, first_at}
use craft_client.Tracker.Frontier.{State, Loose}
use craft_client.Tracker.Retire.{first_at-active}
use craft_client.Tracker.Plan.{Scan, note_gap, overlaps, scan_gaps}

-- The lowest dLSN found so far is kept, and one that is noted is not above its own.
note_gap-umin :
    (addr len u : ℕ) (o : Option DlsnSlot) (s : Scan)
    → 0 < s.umin
    → (note_gap addr len u o s).umin ≡ s.umin
unfolding note_gap
note_gap-umin addr len u none s pos = ground arith
note_gap-umin addr len u (some sv) s pos = ground arith

note_gap-bound :
    (addr len u : ℕ) (o : Option DlsnSlot) (s : Scan)
    → s.umin ≤ u
    → (note_gap addr len u o s).umin ≤ u
unfolding note_gap
note_gap-bound addr len u none s le = ground arith
note_gap-bound addr len u (some sv) s le = ground arith

note_gap-hit :
    (addr len u : ℕ) (sv : DlsnSlot) (s : Scan)
    → 0 < u
    → overlaps addr len sv.addr sv.len ≡ true
    → 0 < (note_gap addr len u (some sv) s).umin
unfolding note_gap
note_gap-hit addr len u sv s pos hit = ground arith

module _ (st : StreamTracker DlsnSlot) where
  -- The scan misses no visible write of the range that is open: it reports one at or below it.
  pub scan_gaps-finds :
      (n : ℕ) (w : st.Tracker) (t : State st) (addr len : ℕ) (ha h : Lsn) (s : Scan) (j : Lsn)
      (v : DlsnSlot)
      → Loose st w t
      → t.frontier < h
      → ha < h + n
      → s.umin < h
      → (j < h → (0 < s.umin) × (s.umin ≤ j))
      → t.frontier < j
      → j ≤ ha
      → st.slot w j ≡ some v
      → is_resolved v.outcome ≡ false
      → overlaps addr len v.addr v.len ≡ true
      → (0 < (scan_gaps st n w addr len ha h s).umin)
        × ((scan_gaps st n w addr len ha h s).umin ≤ j)
  unfolding scan_gaps
  scan_gaps-finds zero w t addr len ha h s j v l fh enough below found lt le e o hit =
      found (omega arith)
  scan_gaps-finds (suc n) w t addr len ha h s j v l fh enough below found lt le e o hit =
      let u = st.completed_upto w h + 1 in
      let hint = st.completed_hint w h in
      let not_run : j < u → j < h = λ ju. elim (Bool-cases (ltb j h)) [
        | inl before ↦ ground arith
        | inr past ↦
            let d =
              sym (l.exact j lt)
              ∙ st.completed_run w h j (omega arith) (ground arith) (omega arith) in
            cc (d, e, o)
      ] in
      let at = first_at-active st w u (omega arith) in
      let s' = note_gap addr len u (first_at u (st.active_from w u)) s in
      elim (Bool-cases (ltb ha h || ltb ha u || ltb u h)) [
        | inl stop ↦ rw (stop, scan_gaps) (found (not_run (ground arith)))
        | inr go ↦
            rw (go, scan_gaps)
              (scan_gaps-finds n w t addr len ha (u + 1) s' j v l (omega arith) (ground arith)
                (omega (arith, note_gap-bound addr len u (first_at u (st.active_from w u)) s))
                (λ ju. elim (Bool-cases (j == u)) [
                  | inl here ↦
                      let same : j ≡ u = ground arith in
                      let is : first_at u (st.active_from w u) ≡ some v =
                        at ∙ ap (st.slot w) (sym same) ∙ e in
                      (
                        rw is (note_gap-hit addr len u v s (omega arith) hit),
                        omega
                            (arith, note_gap-bound addr len u (first_at u (st.active_from w u)) s),
                      )
                  | inr before ↦
                      let f = found (not_run (ground arith)) in
                      omega
                        (arith, f, note_gap-umin addr len u (first_at u (st.active_from w u)) s f.0)
                ])
                lt le e o hit)
      ]
