-- ===== src/Watchdog/Keeps.antt =====
-- Every step of the timer service keeps its state valid, and what that says of its timers.
use craft_client.Prelude.{
  ℕ, ◌+◌, ◌<◌, ◌≡◌, refl, ap, sym, ◌∙◌, false, Option, none, some, List, [], ◌∷◌, ◌==◌, ==_iff,
  if_either, ltb, leb, inl, inr, Bool-cases, Option-cases, All, arith,
}
use craft_client.Prelude.OrderedMap.{find, erase, find-erase}
use craft_client.Watchdog.{
  TimerState, HeapEntry, Watchdog, Firing, add_timer, renewed, reset_in, reset, cancel, firing_of,
  take_top, begin_in, begin_round, again, end_round,
}
use craft_client.Watchdog.Step.{
  Step, added, renew, cancelled, begun, ended, Reach, start, then_step,
}
use craft_client.Watchdog.Count.{is_entry, one_if, count, All-weaken, count-All}
use craft_client.Watchdog.Valid.{
  in_flight, Flies, IsValid, started-IsValid, Flies-mono, in_flight-new, set_timer-IsValid,
}

add_timer-IsValid :
    (now delay : ℕ) (period : Option ℕ) (f : Option Firing) (w : Watchdog)
    → IsValid f w
    → IsValid f (add_timer now delay period w).1
unfolding add_timer
add_timer-IsValid now delay period f w v =
    set_timer-IsValid (w.next_id + 1) w.next_id _ w f f v (omega arith) (omega arith)
      (λ below. absurd (omega arith))
      (count-All w.next_id 0 w.heap (All-weaken w.heap (λ e known. ground arith) v.known))
      (in_flight-new w.next_id 0 f w (λ g same below. absurd (omega (arith, same, below))) v.flies)
      (λ j g other. refl) v.flies

-- Entries of a timer in the table are not of a later generation.
older-All :
    (id generation : ℕ) (s : TimerState) (w : Watchdog) (f : Option Firing)
    → IsValid f w
    → find id w.timers ≡ some s
    → s.generation < generation
    → All (λ e. is_entry id generation e ≡ false) w.heap
older-All id generation s w f v found lt =
    All-weaken w.heap
      (λ e fit. elim (Bool-cases (e.id == id)) [
        | inl same ↦
            (let below = (fit s (ap (λ j. find j w.timers) ((==_iff e.id id).0 same) ∙ found)).0 in
              ground arith)
        | inr differ ↦ ground arith
      ])
      v.fits

not_flying_later :
    (id generation : ℕ) (s : TimerState) (f : Option Firing) (w : Watchdog)
    → Flies f w
    → find id w.timers ≡ some s
    → s.generation < generation
    → in_flight id generation f ≡ 0
not_flying_later id generation s none w v found lt = refl
not_flying_later id generation s (some g) w v found lt = elim (Bool-cases (g.id == id)) [
  | inl same ↦
      (let below = v.1 s (ap (λ j. find j w.timers) ((==_iff g.id id).0 same) ∙ found) in
        ground arith)
  | inr differ ↦ ground arith
]

pub given_below :
    (id : ℕ) (s : TimerState) (f : Option Firing) (w : Watchdog)
    → IsValid f w
    → find id w.timers ≡ some s
    → id < w.next_id
given_below id s f w v found = elim (Bool-cases (leb w.next_id id)) [
  | inl above ↦ absurd (cc (v.given id (ground arith), found))
  | inr below ↦ ground arith
]

reset-IsValid :
    (now id : ℕ) (f : Option Firing) (w : Watchdog) → IsValid f w → IsValid f (reset now id w).1
unfolding reset
reset-IsValid now id f w v = elim (Option-cases (find id w.timers)) [
  | inl gone ↦ rw (gone, reset_in) v
  | inr (s, found) ↦
      rw (found, reset_in)
        (set_timer-IsValid w.next_id id (renewed now s) w f f v (omega arith)
          (given_below id s f w v found) (λ below. (s, found, omega arith))
          (count-All id (s.generation + 1) w.heap (older-All id _ s w f v found (omega arith)))
          (not_flying_later id _ s f w v.flies found (omega arith)) (λ j g other. refl) v.flies)
]

cancel-IsValid :
    (id : ℕ) (f : Option Firing) (w : Watchdog)
    → IsValid f w
    → IsValid f (record w { timers = erase id w.timers })
cancel-IsValid id f w v = record {
  given = λ j above. ground (arith, find-erase id w.timers j, v.given j);
  known = v.known;
  fits = All-weaken w.heap (λ e fit s found. fit s (still e.id s found)) v.fits;
  flies =
      Flies-mono f w _ (omega arith) (λ j s below found. (s, still j s found, omega arith)) v.flies;
  once = λ j s found. v.once j s (still j s found);
}
  where
    still :
        (j : ℕ) (s : TimerState) → find j (erase id w.timers) ≡ some s → find j w.timers ≡ some s
    still j s found = ground (arith, find-erase id w.timers j)

-- The top entry is popped, and its timer is in flight instead where it is of the timer's generation.
popped-IsValid :
    (e : HeapEntry) (heap : List HeapEntry) (w : Watchdog) (f : Option Firing)
    → IsValid none (record w { heap = e ∷ heap })
    → Flies f w
    → ((id : ℕ) (s : TimerState)
        → find id w.timers ≡ some s
        → in_flight id s.generation f ≡ one_if (is_entry id s.generation e))
    → IsValid f (record w { heap = heap })
popped-IsValid e heap w f v flies taken = record {
  given = v.given;
  known = v.known.1;
  fits = v.fits.1;
  flies = flies_in f flies;
  once = λ id s found. omega (arith, v.once id s found, taken id s found);
}
  where
    flies_in : (f : Option Firing) → Flies f w → Flies f (record w { heap = heap })
    flies_in none h = h
    flies_in (some g) h = h

pub one_state :
    (id : ℕ) (s t : TimerState) (w : Watchdog)
    → find id w.timers ≡ some s
    → find id w.timers ≡ some t
    → s ≡ t
one_state id s t w e e' = cc (e, e')

begin_in-IsValid :
    (now : ℕ) (heap : List HeapEntry) (w : Watchdog)
    → IsValid none (record w { heap = heap })
    → let p = begin_in heap now (record w { heap = heap }) in IsValid p.0 p.1
begin_in-IsValid now [] w v = v
begin_in-IsValid now (e ∷ heap) w v = elim (Bool-cases (ltb now e.deadline)) [
  | inl early ↦ rw early v
  | inr due ↦ rw due (elim (Option-cases (find e.id w.timers)) [
    | inl gone ↦
        rw (gone, take_top)
          (popped-IsValid e heap w none v tt (λ id s found. elim (Bool-cases (e.id == id)) [
            | inl same ↦ absurd (cc (gone, found, (==_iff e.id id).0 same))
            | inr differ ↦ ground arith
          ]))
    | inr (s, held) ↦ elim (Bool-cases (s.generation == e.generation)) [
      | inl current ↦
          rw (held, take_top)
            (rw current (
              popped-IsValid e heap w (some (firing_of e.id s)) v
                (
                  v.known.0,
                  (λ t found.
                      omega (arith, ap (λ u. u.generation) (one_state e.id s t w held found))),
                )
                (λ id t found. ground arith)))
      | inr stale ↦
          rw (held, take_top)
            (rw stale (
              popped-IsValid e heap w none v tt (λ id t found. elim (Bool-cases (e.id == id)) [
                | inl same ↦
                    (let generations =
                        ap (λ u. u.generation)
                          (one_state id s t w
                            (ap (λ j. find j w.timers) (sym ((==_iff e.id id).0 same)) ∙ held)
                            found) in
                      ground arith)
                | inr differ ↦ ground arith
              ])))
    ]
  ])
]

landed-IsValid :
    (f : Firing) (w : Watchdog)
    → IsValid (some f) w
    → ((id : ℕ) (s : TimerState)
        → find id w.timers ≡ some s
        → in_flight id s.generation (some f) ≡ 0)
    → IsValid none w
landed-IsValid f w v away = record {
  given = v.given;
  known = v.known;
  fits = v.fits;
  flies = tt;
  once = λ id s found. omega (arith, v.once id s found, away id s found);
}

again-IsValid :
    (now : ℕ) (f : Firing) (w : Watchdog) (found : Option TimerState)
    → IsValid (some f) w
    → find f.id w.timers ≡ found
    → IsValid none (again found now f w)
again-IsValid now f w none v gone = landed-IsValid f w v (λ id s held.
    elim (Bool-cases (f.id == id)) [
      | inl same ↦ absurd (cc (gone, held, (==_iff f.id id).0 same))
      | inr differ ↦ ground arith
    ])
again-IsValid now f w (some s) v held = elim (Bool-cases (s.generation == f.fired_generation)) [
  | inl current ↦ rw current (
      set_timer-IsValid w.next_id f.id (record s { deadline = now + f.period }) w (some f) none v
        (omega arith) v.flies.0 (λ below. (s, held, omega arith))
        (ground (arith, v.once f.id s held)) refl (λ j g other. ground arith) tt)
  | inr renewed_since ↦ rw renewed_since (
      landed-IsValid f w v (λ id t found. elim (Bool-cases (f.id == id)) [
        | inl same ↦
            (let generations =
                ap (λ u. u.generation)
                  (one_state id s t w
                    (ap (λ j. find j w.timers) (sym ((==_iff f.id id).0 same)) ∙ held) found) in
              ground arith)
        | inr differ ↦ ground arith
      ]))
]

end_round-IsValid :
    (now : ℕ) (f : Firing) (w : Watchdog) → IsValid (some f) w → IsValid none (end_round now f w)
unfolding end_round
end_round-IsValid now f w v =
    if_either (IsValid none) f.recurring (again-IsValid now f w (find f.id w.timers) v refl) (
      landed-IsValid f _ (cancel-IsValid f.id (some f) w v)
        (λ id s found. ground (arith, find-erase f.id w.timers id)))

Step-IsValid : {p q : Option Firing × Watchdog} → Step p q → IsValid p.0 p.1 → IsValid q.0 q.1
unfolding cancel begin_round
Step-IsValid (added now delay period f w) v = add_timer-IsValid now delay period f w v
Step-IsValid (renew now id f w) v = reset-IsValid now id f w v
Step-IsValid (cancelled id f w) v = cancel-IsValid id f w v
Step-IsValid (begun now w) v = begin_in-IsValid now w.heap w v
Step-IsValid (ended now f w) v = end_round-IsValid now f w v

pub Reach-IsValid : {p : Option Firing × Watchdog} → Reach p → IsValid p.0 p.1
Reach-IsValid start = started-IsValid
Reach-IsValid (then_step p q r s) = Step-IsValid s (Reach-IsValid r)

-- Whatever was asked of the service, and while it runs a callback or waits, each timer in its table
-- has exactly one entry of its generation in the heap, or else its callback is the one that runs.
pub Reach_once :
    (f : Option Firing) (w : Watchdog) (id : ℕ) (s : TimerState)
    → Reach (f, w)
    → find id w.timers ≡ some s
    → count id s.generation w.heap + in_flight id s.generation f ≡ 1
Reach_once f w id s r found = (Reach-IsValid r).once id s found
