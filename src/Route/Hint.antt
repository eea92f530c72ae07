-- ===== src/Route/Hint.antt =====
-- The hint of the fold: a lower bound on the pending dLSNs, so that the fold may skip the maps.
use craft_client.Prelude.{
  ℕ, ◌-◌, ◌≤◌, ◌<◌, ◌≡◌, refl, ap, Bool, false, ◌||◌, Option, none, some, List, [], ◌∷◌, ◌++◌, leb,
  ltb, if◌then◌else◌, min, arith, inl, inr, Bool-cases, All,
}
use craft_client.Types.{Lsn}
use craft_client.Stream.{StreamTracker}
use craft_client.Stream.Intervals.{IntervalMap}
use craft_client.Route.{
  RouteSlot, PendingMiss, ReadRouteMap, Router, push_pending, completed_miss, filled_miss, due,
  kept, lowest, sort, record_completion, note_filled, fold_to, fold_pending, apply_batch,
  maybe_truncate, advance_folded, with_leg, with_verdict, is_all, complete_in, fill_in, fold_in,
  target_of,
}

-- No pending miss is below the hint.
abbrev pub Above : Lsn → List PendingMiss → Type 0
Above h es = All (λ e. h ≤ e.dlsn) es

abbrev pub Hinted : {W M : Type 0} → ReadRouteMap W M → Type 0
Hinted r = Above r.pending_hint r.pending

Above-lower : (h h' : Lsn) (es : List PendingMiss) → h' ≤ h → Above h es → Above h' es
Above-lower h h' [] le a = tt
Above-lower h h' (e ∷ es) le a = (omega (arith, a.0), Above-lower h h' es le a.1)

Above-append :
    (h : Lsn) (es : List PendingMiss) (e : PendingMiss)
    → Above h es
    → h ≤ e.dlsn
    → Above h (es ++ e ∷ [])
Above-append h [] e a le = (le, tt)
Above-append h (x ∷ xs) e a le = (a.0, Above-append h xs e a.1 le)

push_pending-Hinted :
    {W M : Type 0} (o : Option PendingMiss) (r : ReadRouteMap W M)
    → Hinted r
    → Hinted (push_pending o r)
push_pending-Hinted none r h = h
push_pending-Hinted (some e) r h =
    Above-append (min r.pending_hint e.dlsn) r.pending e
      (Above-lower r.pending_hint (min r.pending_hint e.dlsn) r.pending (omega arith) h)
      (omega arith)

lowest-Above : (es : List PendingMiss) → Above (lowest es) es
lowest-Above [] = tt
lowest-Above (e ∷ es) = (
  omega arith,
  Above-lower (lowest es) (min (lowest es) e.dlsn) es (omega arith) (lowest-Above es),
)

-- Below the hint nothing is due.
due_none :
    (target h : Lsn) (es : List PendingMiss)
    → target < h
    → Above h es
    → (due target es ≡ []) × (kept target es ≡ es)
due_none target h [] lt a = (refl, refl)
due_none target h (e ∷ es) lt a =
    let past : leb e.dlsn target ≡ false = ground (arith, a.0) in
    let r = due_none target h es lt a.1 in (rw past (r.0), rw past (ap (λ l. e ∷ l) (r.1)))

module _ (st : StreamTracker RouteSlot) (im : IntervalMap) where
  hint_of_truncate :
      (target : Lsn) (w : st.Tracker) (r : Router st im)
      → Hinted r
      → Hinted (maybe_truncate st im target w r)
  hint_of_truncate target w r h = elim (Bool-cases (leb 512 (target - r.last_trunc))) [
    | inl full ↦ rw full h
    | inr part ↦ rw part h
  ]

  in_session :
      (P : Router st im → Type 0) (o : Option st.Tracker) (r : Router st im)
      (f : st.Tracker → Router st im)
      → P r
      → ((w : st.Tracker) → P (f w))
      → P (elim o [ none ↦ r | some w ↦ f w ])
  in_session P none r f p q = p
  in_session P (some w) r f p q = q w

  fold_pending-Hinted :
      (target : Lsn) (w : st.Tracker) (r : Router st im) → Hinted (fold_pending st im target w r)
  unfolding fold_pending
  fold_pending-Hinted target w r =
      hint_of_truncate target w
        (advance_folded st im target (record r {
          pending = kept target r.pending;
          pending_hint = lowest (kept target r.pending);
          miss = apply_batch st im (sort (due target r.pending)) r.miss;
        }))
        (lowest-Above (kept target r.pending))

  fold_in-Hinted :
      (f : Lsn) (w : st.Tracker) (r : Router st im) → Hinted r → Hinted (fold_in st im f w r)
  fold_in-Hinted f w r h =
      let target = target_of st im f w r in
      elim (Bool-cases (leb f r.folded || leb target r.folded)) [
        | inl still ↦ rw still h
        | inr more ↦ elim (Bool-cases (ltb target r.pending_hint)) [
          | inl fast ↦ rw (more, fast) (hint_of_truncate target w (advance_folded st im target r) h)
          | inr slow ↦ rw (more, slow) (fold_pending-Hinted target w r)
        ]
      ]

  -- A completion, a verdict and a fold keep the hint a lower bound of the pending dLSNs.
  pub hint_kept :
      (r : Router st im) (d : Lsn) (idx : ℕ) (acked : Bool) (f : Lsn)
      → Hinted r
      → Hinted (record_completion st im d idx acked r)
        × Hinted (note_filled st im d idx r)
        × Hinted (fold_to st im f r)
  unfolding record_completion note_filled fold_to
  hint_kept r d idx acked f h = (
    in_session Hinted r.overlay r (λ w. complete_in st im d idx acked w r) h
        (λ w.
          push_pending-Hinted (completed_miss r.quorum idx acked (st.slot w d))
            (record r {
              overlay = some (
                  st.update d (λ s. (with_leg idx acked s, is_all (with_leg idx acked s).completed))
                    w);
            })
            h),
    in_session Hinted r.overlay r (λ w. fill_in st im d idx w r) h
        (λ w.
          push_pending-Hinted (filled_miss idx (st.slot w d))
            (record r { overlay = some (st.update d (λ s. (with_verdict idx s, false)) w) }) h),
    in_session Hinted r.overlay r (λ w. fold_in st im f w r) h (λ w. fold_in-Hinted f w r h),
  )

  -- The fold with no fast path: it always goes through the pending misses.
  abbrev pub fold_always : Lsn → Router st im → Router st im
  fold_always f r = elim r.overlay [
    | none ↦ r
    | some w ↦
        if leb f r.folded || leb (target_of st im f w r) r.folded
        then r
        else fold_pending st im (target_of st im f w r) w r
  ]

  -- `x` and `y` differ at most in their hints.
  abbrev pub SameButHint : Router st im → Router st im → Type 0
  SameButHint x y = x ≡ record y { pending_hint = x.pending_hint }

  same_pending :
      (target : Lsn) (w : st.Tracker) (r : Router st im)
      → target < r.pending_hint
      → Hinted r
      → SameButHint
          (maybe_truncate st im target w (advance_folded st im target r))
          (fold_pending st im target w r)
  unfolding fold_pending
  same_pending target w r lt h =
      let none_due = due_none target r.pending_hint r.pending lt h in
      elim (Bool-cases (leb 512 (target - r.last_trunc))) [
        | inl full ↦ rw (full, none_due.0, none_due.1) refl
        | inr part ↦ rw (part, none_due.0, none_due.1) refl
      ]

  -- The fast path of the fold does what the slow path does: where the hint is a lower bound, both
  -- leave the same maps, pending misses and counters, and may differ in the hint alone.
  pub fold_to-fold_always :
      (f : Lsn) (r : Router st im) → Hinted r → SameButHint (fold_to st im f r) (fold_always f r)
  unfolding fold_to
  fold_to-fold_always f r h = both r.overlay
    where
      both :
          (o : Option st.Tracker)
          → SameButHint
              (elim o [ none ↦ r | some w ↦ fold_in st im f w r ])
              (elim o [
                | none ↦ r
                | some w ↦
                    if leb f r.folded || leb (target_of st im f w r) r.folded
                    then r
                    else fold_pending st im (target_of st im f w r) w r
              ])
      both none = refl
      both (some w) = elim (Bool-cases (leb f r.folded || leb (target_of st im f w r) r.folded)) [
        | inl still ↦ rw still refl
        | inr more ↦ elim (Bool-cases (ltb (target_of st im f w r) r.pending_hint)) [
          | inl fast ↦ rw (more, fast) (same_pending (target_of st im f w r) w r (ground arith) h)
          | inr slow ↦ rw (more, slow) refl
        ]
      ]
