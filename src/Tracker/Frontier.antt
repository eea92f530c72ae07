-- ===== src/Tracker/Frontier.antt =====
-- The frontier of the tracker: what it has passed is resolved, and it stands at the last such dLSN.
use craft_client.Prelude.{
  ℕ, ◌+◌, ◌-◌, ◌≤◌, ◌<◌, ◌≡◌, refl, sym, ap, ◌∙◌, Bool, true, false, Option, none, some, leb, min,
  max, arith, inl, inr, Bool-cases,
}
use craft_client.Types.{Lsn}
use craft_client.Stream.{StreamTracker}
use craft_client.Tracker.{
  DlsnSlot, DlsnTracker, SlotOutcome, is_resolved, is_acked, reset_at, reserve, truncate_past,
  advance_in, advance_frontier, resolve_in, resolve,
}

-- A slot whose writer's fate is known; a slot that nobody has made is not.
abbrev pub resolved_at : Option DlsnSlot → Bool
resolved_at none = false
resolved_at (some s) = is_resolved s.outcome

abbrev pub acked_at : Option DlsnSlot → Bool
acked_at none = false
acked_at (some s) = is_acked s.outcome

module _ (st : StreamTracker DlsnSlot) where
  abbrev pub State : Type 0
  State = DlsnTracker st.Tracker

  -- The counters against the window `w`, and the completion bits against the outcomes.
  pub record Loose (w : st.Tracker) (t : State) : Type 0 where
    pub session : t.tracker ≡ some w
    pub frontier_below : t.frontier < t.next_dlsn
    pub acked_below : t.highest_acked < t.next_dlsn
    pub trunc_below : t.last_trunc ≤ t.frontier
    pub fresh : (j : Lsn) → t.next_dlsn ≤ j → st.slot w j ≡ none
    pub exact : (j : Lsn) → t.frontier < j → st.done w j ≡ resolved_at (st.slot w j)
    pub seen : (j : Lsn) → t.frontier < j → acked_at (st.slot w j) ≡ true → j ≤ t.highest_acked

  -- Besides, the frontier is as far as it can be.
  abbrev pub Holds : st.Tracker → State → Type 0
  Holds w t = Loose w t × (resolved_at (st.slot w (t.frontier + 1)) ≡ false)

  abbrev pub IsValid : State → Type 0
  IsValid t = (w : st.Tracker) × Holds w t

  pub reset_at-IsValid :
      (login_dlsn lba_size : ℕ) (t : State) → IsValid (reset_at st login_dlsn lba_size t)
  unfolding reset_at
  reset_at-IsValid d lba t =
      let w = st.emplace d in
      let none_at = st.slot-emplace d in
      (
        w,
        (
          record {
            session = refl;
            frontier_below = omega arith;
            acked_below = omega arith;
            trunc_below = omega arith;
            fresh = λ j le. none_at j;
            exact = λ j lt. st.done-emplace d j lt ∙ sym (ap resolved_at (none_at j));
            seen = λ j lt e. cc (none_at j, e);
          },
          ap resolved_at (none_at (d + 1)),
        ),
      )

  pub reserve-IsValid : (addr len : ℕ) (t : State) → IsValid t → IsValid (reserve st addr len t).1
  unfolding reserve is_resolved
  reserve-IsValid addr len t (w, (l, tight)) =
      let s : DlsnSlot = record { addr = addr; len = len; outcome = SlotOutcome.in_flight } in
      let at = st.slot-create t.next_dlsn s w in
      (
        st.create t.next_dlsn s w,
        (
          record {
            session = rw l.session;
            frontier_below = omega (arith, l.frontier_below);
            acked_below = omega (arith, l.acked_below);
            trunc_below = l.trunc_below;
            fresh = λ j le. ground (arith, at j, l.fresh j);
            exact = λ j lt. ground (arith, at j, st.done-create t.next_dlsn s w j, l.exact j);
            seen = λ j lt e. ground (arith, at j, l.seen j, l.fresh j);
          },
          ground (arith, at (t.frontier + 1)),
        ),
      )

  -- The slot after the run that the window reports is open.
  stop_open :
      (w : st.Tracker) (t : State)
      → Loose w t
      → (let nf = min (st.completed_upto w (t.frontier + 1)) (t.next_dlsn - 1) in
          t.frontier ≤ nf × (resolved_at (st.slot w (nf + 1)) ≡ false))
  stop_open w t l =
      let u = st.completed_upto w (t.frontier + 1) in
      let hint = st.completed_hint w (t.frontier + 1) in
      let below = l.frontier_below in
      elim (Bool-cases (leb u (t.next_dlsn - 1))) [
        | inl le ↦
            let e : min u (t.next_dlsn - 1) ≡ u = ground arith in
            rw e (
              omega arith,
              sym (l.exact (u + 1) (omega arith))
                  ∙ st.completed_end w (t.frontier + 1) (omega arith),
            )
        | inr gt ↦
            let e : min u (t.next_dlsn - 1) ≡ t.next_dlsn - 1 = ground arith in
            rw e (omega arith, ap resolved_at (l.fresh (t.next_dlsn - 1 + 1) (omega arith)))
      ]

  -- Raising the frontier, and with it the base of the window.
  truncate_past-Loose :
      (nf : Lsn) (w : st.Tracker) (t : State)
      → Loose w t
      → t.frontier < nf
      → nf < t.next_dlsn
      → resolved_at (st.slot w (nf + 1)) ≡ false
      → IsValid (truncate_past st nf w (record t { frontier = nf }))
  truncate_past-Loose nf w t l lt below stop =
      let ft = l.frontier_below in
      let at = l.acked_below in
      let tt' = l.trunc_below in
      elim (Bool-cases (leb 512 (nf - t.last_trunc))) [
        | inl full ↦ rw full (
          st.truncate nf w,
          (
            record {
              session = refl;
              frontier_below = below;
              acked_below = at;
              trunc_below = omega arith;
              fresh = λ j le. st.slot-truncate nf w j (omega arith) ∙ l.fresh j le;
              exact = λ j gt.
                  cc (
                    st.slot-truncate nf w j gt,
                    st.done-truncate nf w j gt,
                    l.exact j (omega arith),
                  );
              seen = λ j gt e.
                  l.seen j (omega arith) (ap acked_at (sym (st.slot-truncate nf w j gt)) ∙ e);
            },
            ap resolved_at (st.slot-truncate nf w (nf + 1) (omega arith)) ∙ stop,
          ),
        )
        | inr part ↦ rw part (
          w,
          (
            record {
              session = l.session;
              frontier_below = below;
              acked_below = at;
              trunc_below = omega arith;
              fresh = l.fresh;
              exact = λ j gt. l.exact j (omega arith);
              seen = λ j gt e. l.seen j (omega arith) e;
            },
            stop,
          ),
        )
      ]

  pub in_session :
      {X : Type 0} (o : Option st.Tracker) (w : st.Tracker) (t : X) (f : st.Tracker → X)
      → o ≡ some w
      → elim o [ none ↦ t | some v ↦ f v ] ≡ f w
  in_session o w t f e = rw e refl

  pub advance_frontier_eq :
      (w : st.Tracker) (t : State) → t.tracker ≡ some w → advance_frontier st t ≡ advance_in st w t
  unfolding advance_frontier
  advance_frontier_eq w t e = in_session t.tracker w t (λ v. advance_in st v t) e

  pub resolve_eq :
      (w : st.Tracker) (t : State) (d : Lsn) (oc : SlotOutcome)
      → t.tracker ≡ some w
      → resolve st d oc t ≡ resolve_in st d oc w t
  unfolding resolve
  resolve_eq w t d oc e = in_session t.tracker w t (λ v. resolve_in st d oc v t) e

  pub advance_frontier-IsValid :
      (w : st.Tracker) (t : State) → Loose w t → IsValid (advance_frontier st t)
  advance_frontier-IsValid w t l =
      let nf = min (st.completed_upto w (t.frontier + 1)) (t.next_dlsn - 1) in
      let stop = stop_open w t l in
      let below = l.frontier_below in
      rw (advance_frontier_eq w t l.session) (elim (Bool-cases (leb nf t.frontier)) [
        | inl still ↦
            let e : nf ≡ t.frontier = ground (arith, stop) in
            rw still (w, (l, ap (λ n. resolved_at (st.slot w (n + 1))) (sym e) ∙ stop.1))
        | inr more ↦ rw more (truncate_past-Loose nf w t l (ground arith) (omega arith) stop.1)
      ])

  -- Where the frontier goes.
  frontier-advance :
      (w : st.Tracker) (t : State)
      → t.tracker ≡ some w
      → (advance_frontier st t).frontier
        ≡ max t.frontier (min (st.completed_upto w (t.frontier + 1)) (t.next_dlsn - 1))
  unfolding advance_frontier
  frontier-advance w t e = rw e (ground arith)

  -- The slots that the frontier passes are complete.
  pub advance_frontier-Passes :
      (w : st.Tracker) (t : State) (j : Lsn)
      → Loose w t
      → t.frontier < j
      → j ≤ (advance_frontier st t).frontier
      → resolved_at (st.slot w j) ≡ true
  advance_frontier-Passes w t j l lt le =
      let e = frontier-advance w t l.session in
      sym (l.exact j lt)
      ∙ st.completed_run w (t.frontier + 1) j (omega arith) (omega arith) (omega arith)

  pub advance_frontier-grows :
      (w : st.Tracker) (t : State)
      → t.tracker ≡ some w
      → t.frontier ≤ (advance_frontier st t).frontier
  advance_frontier-grows w t e = omega (arith, frontier-advance w t e)
