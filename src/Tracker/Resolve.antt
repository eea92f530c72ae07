-- ===== src/Tracker/Resolve.antt =====
-- `resolve` of the tracker: it keeps the counters and the window in agreement, and a slot that is
-- resolved keeps its outcome.
use craft_client.Prelude.{
  ◌+◌, ◌≤◌, ◌<◌, ◌≡◌, refl, sym, ap, subst, ◌∙◌, true, false, ◌&&◌, ◌||◌, Option, none, some, ltb,
  ◌==◌, if◌then◌else◌, arith, inl, inr, ◌⊎◌, Bool-cases, Option-cases,
}
use craft_client.Types.{Lsn}
use craft_client.Stream.{StreamTracker, written}
use craft_client.Tracker.{
  DlsnSlot, SlotOutcome, is_resolved, is_acked, take_outcome, applies, advance_frontier,
  raise_acked, resolve, resolve_in,
}
use craft_client.Tracker.Frontier.{
  advance_frontier-grows, resolved_at, acked_at, State, Loose, Holds, IsValid,
  advance_frontier-IsValid, advance_frontier-Passes, resolve_eq,
}

-- What is acked is resolved.
acked-resolved : (o : SlotOutcome) → is_resolved o ≡ false → is_acked o ≡ false
unfolding is_resolved
acked-resolved SlotOutcome.in_flight e = refl
acked-resolved SlotOutcome.acked e = cc
acked-resolved SlotOutcome.failed e = refl
acked-resolved SlotOutcome.empty e = refl

module _ (st : StreamTracker DlsnSlot) where
  -- What `resolve` leaves in the window.
  abbrev settled : Lsn → SlotOutcome → st.Tracker → st.Tracker
  settled d oc w = st.update d (take_outcome oc) w

  resolved-settled :
      (d : Lsn) (oc : SlotOutcome) (w : st.Tracker) (j : Lsn)
      → resolved_at (st.slot (settled d oc w) j)
        ≡ (resolved_at (st.slot w j) || (d == j && applies (st.slot w j) && is_resolved oc))
  resolved-settled d oc w j =
      let at = st.slot-update d (take_outcome oc) w j in
      elim (Option-cases (st.slot w j)) [
        | inl e ↦ ground (arith, at)
        | inr (s, e) ↦ ground (arith, at)
      ]

  acked-settled :
      (d : Lsn) (oc : SlotOutcome) (w : st.Tracker) (j : Lsn)
      → acked_at (st.slot (settled d oc w) j)
        ≡ (acked_at (st.slot w j) || (d == j && applies (st.slot w j) && is_acked oc))
  acked-settled d oc w j =
      let at = st.slot-update d (take_outcome oc) w j in
      elim (Option-cases (st.slot w j)) [
        | inl e ↦ ground (arith, at)
        | inr (s, e) ↦ ground (arith, at, acked-resolved s.outcome)
      ]

  done-settled :
      (d : Lsn) (oc : SlotOutcome) (w : st.Tracker) (j : Lsn)
      → st.done w j ≡ resolved_at (st.slot w j)
      → st.done (settled d oc w) j ≡ resolved_at (st.slot (settled d oc w) j)
  done-settled d oc w j e =
      let at = st.done-update d (take_outcome oc) w j in
      let is = resolved-settled d oc w j in
      elim (Option-cases (st.slot w j)) [
        | inl e' ↦ ground (arith, at, is)
        | inr (s, e') ↦ ground (arith, at, is)
      ]

  absent-settled :
      (d : Lsn) (oc : SlotOutcome) (w : st.Tracker) (j : Lsn)
      → st.slot w j ≡ none
      → st.slot (settled d oc w) j ≡ none
  absent-settled d oc w j e = ground (arith, st.slot-update d (take_outcome oc) w j)

  -- The update, and the raise of the highest acked dLSN after it.
  settled-Loose :
      (d : Lsn) (oc : SlotOutcome) (w : st.Tracker) (t t' : State st)
      → Loose st w t
      → t'.tracker ≡ some (settled d oc w)
      → t'.next_dlsn ≡ t.next_dlsn
      → t'.frontier ≡ t.frontier
      → t'.last_trunc ≡ t.last_trunc
      → t'.highest_acked ≡ (
          if applies (st.slot w d) && is_acked oc && ltb t.highest_acked d
          then d
          else t.highest_acked)
      → Loose st (settled d oc w) t'
  settled-Loose d oc w t t' l e n f lt h = record {
    session = e;
    frontier_below = omega (arith, l.frontier_below);
    acked_below = elim (Option-cases (st.slot w d)) [
      | inl gone ↦ ground (arith, l.acked_below)
      | inr (s, is) ↦ ground (arith, l.acked_below, l.fresh d)
    ];
    trunc_below = omega (arith, l.trunc_below);
    fresh = λ j le. absent-settled d oc w j (l.fresh j (omega arith));
    exact = λ j gt. done-settled d oc w j (l.exact j (omega arith));
    seen = λ j gt a. ground (arith, acked-settled d oc w j, l.seen j (omega arith));
  }

  open-settled :
      (d : Lsn) (oc : SlotOutcome) (w : st.Tracker) (j : Lsn)
      → resolved_at (st.slot w j) ≡ false
      → (applies (st.slot w d) && is_resolved oc) ≡ false
      → resolved_at (st.slot (settled d oc w) j) ≡ false
  open-settled d oc w j e a = ground (arith, resolved-settled d oc w j)

  -- `resolve` keeps a valid state valid: there is a window, the counters are below the next dLSN,
  -- above the frontier a slot has its completion bit exactly when it is resolved and no acked slot
  -- is above the highest acked dLSN, and the slot after the frontier is not resolved.
  pub resolve-IsValid :
      (d : Lsn) (oc : SlotOutcome) (t : State st) → IsValid st t → IsValid st (resolve st d oc t)
  resolve-IsValid d oc t (w, (l, tight)) =
      let v = settled d oc w in
      let t' : State st = record t { tracker = some v } in
      let t'' = raise_acked st d oc t' in
      rw (resolve_eq st w t d oc l.session) (elim (Bool-cases (applies (st.slot w d))) [
        | inl on ↦
            let l' : Loose st v t'' =
              settled-Loose d oc w t t'' l refl refl refl refl (ground arith) in
            elim (Bool-cases (is_resolved oc)) [
              | inl yes_r ↦ rw (on, yes_r) (advance_frontier-IsValid st v t'' l')
              | inr no_r ↦
                  rw (on, no_r) (v, (l', open-settled d oc w (t.frontier + 1) tight (ground arith)))
            ]
        | inr off ↦ rw off (
          v,
          (
            settled-Loose d oc w t t' l refl refl refl refl (ground arith),
            open-settled d oc w (t.frontier + 1) tight (ground arith),
          ),
        )
      ])

  kept_if_resolved :
      (oc : SlotOutcome) (o : Option DlsnSlot)
      → resolved_at o ≡ true
      → (applies o ≡ false) × (written (take_outcome oc) o ≡ o)
  kept_if_resolved oc none r = cc
  kept_if_resolved oc (some s) r = (rw r refl, rw r refl)

  -- `resolve` on a slot that is resolved leaves every counter and every slot as they are, whatever
  -- the late outcome is.
  pub resolve-keeps_resolved :
      (d : Lsn) (oc : SlotOutcome) (t : State st) (w : st.Tracker)
      → t.tracker ≡ some w
      → resolved_at (st.slot w d) ≡ true
      → (v : st.Tracker) × (resolve st d oc t ≡ record t { tracker = some v })
        × ((j : Lsn) → st.slot v j ≡ st.slot w j)
  resolve-keeps_resolved d oc t w e r =
      let kept = kept_if_resolved oc (st.slot w d) r in
      (
        settled d oc w,
        resolve_eq st w t d oc e ∙ rw (kept.0) refl,
        λ j. st.slot-update d (take_outcome oc) w j ∙ elim (Bool-cases (d == j)) [
          | inl here ↦
              let same : d ≡ j = ground arith in
              rw here (
                ap (λ i. written (take_outcome oc) (st.slot w i)) (sym same)
                ∙ kept.1
                ∙ ap (st.slot w) same)
          | inr off ↦ rw off refl
        ],
      )

  resolved_passed :
      (d : Lsn) (oc : SlotOutcome) (t : State st) (w : st.Tracker) (j : Lsn)
      → Holds st w t
      → t.frontier < j
      → j ≤ (resolve st d oc t).frontier
      → (resolved_at (st.slot w j) ≡ true) ⊎ ((d ≡ j) × (is_resolved oc ≡ true))
  resolved_passed d oc t w j (l, tight) lt le =
      let v = settled d oc w in
      let t'' = raise_acked st d oc (record t { tracker = some v }) in
      let e = resolve_eq st w t d oc l.session in
      elim (Bool-cases (applies (st.slot w d) && is_resolved oc)) [
        | inl on ↦
            let ons : (applies (st.slot w d) ≡ true) × (is_resolved oc ≡ true) = ground arith in
            let l' : Loose st v t'' =
              settled-Loose d oc w t t'' l refl refl refl refl (ground arith) in
            let e' : resolve st d oc t ≡ advance_frontier st t'' = e ∙ rw (ons.0, ons.1) refl in
            let r = advance_frontier-Passes st v t'' j l' lt (subst (λ x. j ≤ x.frontier) e' le) in
            ground (arith, resolved-settled d oc w j)
        | inr off ↦
            let same : (resolve_in st d oc w t).frontier ≡ t.frontier = ground arith in
            absurd (omega (arith, ap (λ (x : State st). x.frontier) e ∙ same))
      ]

  -- On a valid tracker the frontier never falls, and each dLSN that it passes was resolved before,
  -- or is the one that is resolved now.
  pub resolve-frontier :
      (d : Lsn) (oc : SlotOutcome) (t : State st) (w : st.Tracker)
      → Holds st w t
      → (t.frontier ≤ (resolve st d oc t).frontier)
        × ((j : Lsn)
            → t.frontier < j
            → j ≤ (resolve st d oc t).frontier
            → (resolved_at (st.slot w j) ≡ true) ⊎ ((d ≡ j) × (is_resolved oc ≡ true)))
  resolve-frontier d oc t w (l, tight) = (
    elim (Bool-cases (applies (st.slot w d) && is_resolved oc)) [
      | inl on ↦
          let v = settled d oc w in
          let t'' = raise_acked st d oc (record t { tracker = some v }) in
          let e = resolve_eq st w t d oc l.session in
          let ons : (applies (st.slot w d) ≡ true) × (is_resolved oc ≡ true) = ground arith in
          let l' : Loose st v t'' =
            settled-Loose d oc w t t'' l refl refl refl refl (ground arith) in
          let l'_frontier : t''.frontier ≡ t.frontier = ground arith in
          let e' : resolve st d oc t ≡ advance_frontier st t'' = e ∙ rw (ons.0, ons.1) refl in
          subst (λ x. t.frontier ≤ x.frontier) (sym e')
            (omega (arith, advance_frontier-grows st v t'' l'.session, l'_frontier))
      | inr off ↦
          let e = resolve_eq st w t d oc l.session in
          let same : (resolve_in st d oc w t).frontier ≡ t.frontier = ground arith in
          omega (arith, ap (λ (x : State st). x.frontier) e ∙ same)
    ],
    (λ j lt le. resolved_passed d oc t w j (l, tight) lt le),
  )
