-- ===== src/Watchdog/Tests.antt =====
-- The timer service's theorems at a concrete run: a one-shot timer is added at 10 for 15, is reset
-- at 12, so that it is due at 17, and its first entry is dropped at 16.
use craft_client.Prelude.{◌+◌, ℕ, ◌≤◌, ◌≡◌, ◌≢◌, inl, refl, true, false, none, some, [], ◌∷◌, arith}
use craft_client.Prelude.OrderedMap.{find}
use craft_client.Watchdog.{
  TimerState, Watchdog, Firing, started, add_timer, reset, cancel, begin_round, end_round,
}
use craft_client.Watchdog.Step.{stay, and_then, ended, added, renew, begun, Reach, start, then_step}
use craft_client.Watchdog.Count.{count}
use craft_client.Watchdog.Valid.{in_flight}
use craft_client.Watchdog.Keeps.{Reach_once}
use craft_client.Watchdog.Fires.{begin_round_due, cancel_stops, end_round-reset}

abbrev at_seventeen : TimerState
at_seventeen = record { deadline = 17; period = 5; recurring = false; generation = 1 }

abbrev waiting : Watchdog
waiting = record {
  heap = record { deadline = 17; id = 1; generation = 1 } ∷ [];
  timers = (1, at_seventeen) ∷ [];
  next_id = 2;
}

abbrev firing : Firing
firing = record { id = 1; recurring = false; period = 5; fired_generation = 1 }

waiting_reached : Reach (none, waiting)
unfolding add_timer reset begin_round
waiting_reached =
    then_step _ _
      (then_step _ _ (then_step _ _ start (added 10 5 none none started)) (renew 12 1 none _))
      (begun 16 _)

fired : (begin_round 17 waiting).0 ≡ some firing
unfolding begin_round
fired = refl

Reach_once_example : count 1 1 waiting.heap + in_flight 1 1 none ≡ 1
Reach_once_example = Reach_once none waiting 1 at_seventeen waiting_reached refl

begin_round_due_example :
    (s : TimerState) × (find 1 waiting.timers ≡ some s) × (s.deadline ≤ 17) × (1 ≡ s.generation)
begin_round_due_example = begin_round_due 17 waiting firing waiting_reached fired

-- The callback is running when its timer is cancelled; then the round ends, and another timer is
-- added.
abbrev cancelled_in_flight : Watchdog
cancelled_in_flight = (add_timer 20 5 none (end_round 19 firing (cancel 1 waiting).1)).1

cancel_stops_example :
    (find 1 cancelled_in_flight.timers ≡ none)
    × ((now : ℕ) (g : Firing) → (begin_round now cancelled_in_flight).0 ≡ some g → g.id ≢ 1)
cancel_stops_example =
    cancel_stops 1 (some firing) waiting (none, cancelled_in_flight) (omega arith)
      (inl (
        and_then _ _ _
          (and_then _ _ _ (stay (some firing, (cancel 1 waiting).1))
            (ended 19 firing (cancel 1 waiting).1))
          (added 20 5 none none (end_round 19 firing (cancel 1 waiting).1))))

end_round_example :
    ((reset 18 1 waiting).0 ≡ true)
    × (find 1 (end_round 19 firing (reset 18 1 waiting).1).timers ≡ none)
end_round_example = end_round-reset 18 19 firing at_seventeen waiting refl refl
