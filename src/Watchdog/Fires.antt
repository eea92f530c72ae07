-- ===== src/Watchdog/Fires.antt =====
-- When the callback of a timer runs: not before its deadline, not after it was cancelled; and what
-- becomes of a reset from inside the callback.
use craft_client.Prelude.{
  ℕ, ◌≤◌, ◌<◌, ◌≡◌, ◌≢◌, refl, ap, subst, sym, ◌∙◌, true, false, Option, none, some, List, [], ◌∷◌,
  ◌==◌, ==_iff, ltb, ◌⊎◌, inl, inr, Bool-cases, Option-cases, if_either, arith,
}
use craft_client.Prelude.OrderedMap.{find, assign, erase, find-assign, find-erase}
use craft_client.Watchdog.{
  TimerState, HeapEntry, Watchdog, Firing, add_timer, renewed, reset_in, reset, cancel, firing_of,
  take_top, begin_in, begin_round, again, end_round,
}
use craft_client.Watchdog.Step.{
  Step, Steps, stay, and_then, added, renew, cancelled, begun, ended, Reach,
}
use craft_client.Watchdog.Valid.{IsValid}
use craft_client.Watchdog.Keeps.{Reach-IsValid}

module _ (now : ℕ) (w : Watchdog) (f : Firing) where
  abbrev Due : Type 0
  Due =
      (s : TimerState) × (find f.id w.timers ≡ some s)
      × (s.deadline ≤ now)
      × (f.fired_generation ≡ s.generation)

  begin_in-Due :
      (heap : List HeapEntry)
      → IsValid none (record w { heap = heap })
      → (begin_in heap now (record w { heap = heap })).0 ≡ some f
      → Due
  begin_in-Due [] v e = absurd (cc e)
  begin_in-Due (e ∷ heap) v fired = elim (Bool-cases (ltb now e.deadline)) [
    | inl early ↦ absurd (cc (rw early at fired))
    | inr due ↦ elim (Option-cases (find e.id w.timers)) [
      | inl gone ↦ absurd (cc (rw (due, gone, take_top) at fired))
      | inr (s, held) ↦ elim (Bool-cases (s.generation == e.generation)) [
        | inl current ↦
            let same : firing_of e.id s ≡ f = cc (rw (due, held, take_top, current) at fired) in
            let deadlines = (v.fits.0 s held).1 (ground arith) in
            (
              s,
              ap (λ g. find g.id w.timers) (sym same) ∙ held,
              ground arith,
              sym (ap (λ g. g.fired_generation) same),
            )
        | inr stale ↦ absurd (cc (rw (due, held, take_top, stale) at fired))
      ]
    ]
  ]

  -- Whatever was asked of the service before, a callback starts only for a timer that is in the
  -- table, at or after the deadline that the timer has by then, each reset included.
  pub begin_round_due :
      Reach (none, w)
      → (begin_round now w).0 ≡ some f
      → (s : TimerState) × (find f.id w.timers ≡ some s)
        × (s.deadline ≤ now)
        × (f.fired_generation ≡ s.generation)
  unfolding begin_round
  begin_round_due r fired = begin_in-Due w.heap (Reach-IsValid r) fired

-- The round up to the callback leaves the table alone, and takes its timer from there.
begin_in_kept :
    (now : ℕ) (w : Watchdog) (heap : List HeapEntry)
    → let p = begin_in heap now (record w { heap = heap }) in
      (p.1.timers ≡ w.timers)
      × (p.1.next_id ≡ w.next_id)
      × ((f : Firing) → p.0 ≡ some f → find f.id w.timers ≢ none)
begin_in_kept now w [] = (refl, refl, (λ f e. absurd (cc e)))
begin_in_kept now w (e ∷ heap) = elim (Bool-cases (ltb now e.deadline)) [
  | inl early ↦ rw early (refl, refl, (λ f e. absurd (cc e)))
  | inr due ↦ rw due (elim (Option-cases (find e.id w.timers)) [
    | inl gone ↦ rw (gone, take_top) (refl, refl, (λ f e. absurd (cc e)))
    | inr (s, held) ↦
        rw (held, take_top)
          (elim (Bool-cases (s.generation == e.generation)) [
            | inl current ↦ rw current (
              refl,
              refl,
              (λ f same gone. cc (ap (λ j. find j w.timers) (id_of s f same), held, gone)),
            )
            | inr stale ↦ rw stale (refl, refl, (λ f e. absurd (cc e)))
          ])
  ])
]
  where
    id_of : (s : TimerState) (f : Firing) → some (firing_of e.id s) ≡ some f → e.id ≡ f.id
    id_of s f fired = let same : firing_of e.id s ≡ f = cc fired in ap (λ g. g.id) same

-- The id was given out, and is not in the table.
abbrev Gone : ℕ → Watchdog → Type 0
Gone id w = (id < w.next_id) × (find id w.timers ≡ none)

reset_in-Gone :
    (id now i : ℕ) (w : Watchdog) → Gone id w → Gone id (reset_in (find i w.timers) now i w).1
reset_in-Gone id now i w (lt, gone) = elim (Option-cases (find i w.timers)) [
  | inl none_there ↦ rw (none_there, reset_in) (lt, gone)
  | inr (s, held) ↦ rw (held, reset_in) (lt, other s held)
]
  where
    other :
        (s : TimerState)
        → find i w.timers ≡ some s
        → find id (assign i (renewed now s) w.timers) ≡ none
    other s held = elim (Bool-cases (i == id)) [
      | inl same ↦ absurd (cc (gone, held, (==_iff i id).0 same))
      | inr differ ↦ find-assign i _ w.timers id ∙ rw differ gone
    ]

again-Gone :
    (id now : ℕ) (f : Firing) (w : Watchdog)
    → Gone id w
    → Gone id (again (find f.id w.timers) now f w)
again-Gone id now f w (lt, gone) = elim (Option-cases (find f.id w.timers)) [
  | inl none_there ↦ rw (none_there, again) (lt, gone)
  | inr (s, held) ↦
      rw (held, again)
        (if_either (Gone id) (s.generation == f.fired_generation) (lt, other _ s held) (lt, gone))
]
  where
    other :
        (t s : TimerState) → find f.id w.timers ≡ some s → find id (assign f.id t w.timers) ≡ none
    other t s held = elim (Bool-cases (f.id == id)) [
      | inl same ↦ absurd (cc (gone, held, (==_iff f.id id).0 same))
      | inr differ ↦ find-assign f.id t w.timers id ∙ rw differ gone
    ]

erase-Gone :
    (id i : ℕ) (w : Watchdog) → Gone id w → Gone id (record w { timers = erase i w.timers })
erase-Gone id i w (lt, gone) = (lt, ground (arith, find-erase i w.timers id))

-- No step puts it there again.
Step-Gone : (id : ℕ) (p q : Option Firing × Watchdog) → Step p q → Gone id p.1 → Gone id q.1
unfolding add_timer reset cancel begin_round end_round
Step-Gone id p q (added now delay period f w) (lt, gone) =
    (omega (arith, lt), find-assign w.next_id _ w.timers id ∙ ground arith)
Step-Gone id p q (renew now i f w) g = reset_in-Gone id now i w g
Step-Gone id p q (cancelled i f w) g = erase-Gone id i w g
Step-Gone id p q (begun now w) (lt, gone) =
    let (timers, next, table) = begin_in_kept now w w.heap in
    (omega (arith, lt, next), ap (find id) timers ∙ gone)
Step-Gone id p q (ended now f w) g =
    if_either (Gone id) f.recurring (again-Gone id now f w g) (erase-Gone id f.id w g)

Steps-Gone : (id : ℕ) (p q : Option Firing × Watchdog) → Steps p q → Gone id p.1 → Gone id q.1
Steps-Gone id p _ (stay _) g = g
Steps-Gone id p r (and_then _ q _ steps s) g = Step-Gone id q r s (Steps-Gone id p q steps g)

erased-Gone :
    (id : ℕ) (w : Watchdog) → id < w.next_id → Gone id (record w { timers = erase id w.timers })
erased-Gone id w lt = (lt, ground (arith, find-erase id w.timers id))

cancel-Gone : (id : ℕ) (w : Watchdog) → id < w.next_id → Gone id (cancel id w).1
unfolding cancel
cancel-Gone id w lt = erased-Gone id w lt

end_round-Gone :
    (now : ℕ) (f : Firing) (w : Watchdog)
    → f.recurring ≡ false
    → f.id < w.next_id
    → Gone f.id (end_round now f w)
unfolding end_round
end_round-Gone now f w once lt = rw once (erased-Gone f.id w lt)

Gone-begin_round :
    (id now : ℕ) (w : Watchdog) (g : Firing)
    → Gone id w
    → (begin_round now w).0 ≡ some g
    → g.id ≢ id
unfolding begin_round
Gone-begin_round id now w g (lt, gone) fired same =
    (begin_in_kept now w w.heap).2 g fired (ap (λ j. find j w.timers) same ∙ gone)

-- After the cancel of an id that was given out, even one whose callback is running, and after the
-- callback of a one-shot timer has ended, the timer is not in the table, and no round starts its
-- callback, whatever was asked of the service since.
pub cancel_stops :
    (id : ℕ) (f : Option Firing) (w : Watchdog) (q : Option Firing × Watchdog)
    → id < w.next_id
    → Steps (f, (cancel id w).1) q
      ⊎ ((now : ℕ) × (g : Firing) × (g.id ≡ id)
          × (g.recurring ≡ false)
          × Steps (none, end_round now g w) q)
    → (find id q.1.timers ≡ none)
      × ((now : ℕ) (g : Firing) → (begin_round now q.1).0 ≡ some g → g.id ≢ id)
cancel_stops id f w q lt since =
    (absent.1, (λ now g fired. Gone-begin_round id now q.1 g absent fired))
  where
    absent : Gone id q.1
    absent = elim since [
      | inl steps ↦ Steps-Gone id _ q steps (cancel-Gone id w lt)
      | inr (now, g, same, once, steps) ↦ Steps-Gone id _ q steps (
          subst (λ i. Gone i (end_round now g w)) same
            (end_round-Gone now g w once (omega (arith, lt, same))))
    ]

-- The reset of a one-shot timer while its callback runs reports success, and when the round ends
-- the timer is gone from the table.
pub end_round-reset :
    (now later : ℕ) (f : Firing) (s : TimerState) (w : Watchdog)
    → f.recurring ≡ false
    → find f.id w.timers ≡ some s
    → ((reset now f.id w).0 ≡ true)
      × (find f.id (end_round later f (reset now f.id w).1).timers ≡ none)
unfolding reset end_round
end_round-reset now later f s w once held = (
  rw (held, reset_in) refl,
  ap (λ u. find f.id u.timers) (oneshot (reset now f.id w).1)
      ∙ find-erase f.id (reset now f.id w).1.timers f.id
      ∙ ground arith,
)
  where
    oneshot : (u : Watchdog) → end_round later f u ≡ record u { timers = erase f.id u.timers }
    oneshot u = unfold end_round in rw once refl
