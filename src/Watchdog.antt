-- ===== src/Watchdog.antt =====
-- The timer service (src/watchdog.hpp, src/watchdog.cpp): its table of timers and its heap. The
-- mutex makes each operation one step; the worker's round is two, since it runs the callback
-- without the lock. The time now is given to each step. The heap is the list of its entries in the
-- order in which they pop; `std::priority_queue` leaves the order of equal deadlines open, and here
-- the earlier push is first.
pub mod Step
pub mod Count
pub mod Valid
pub mod Keeps
pub mod Fires
mod Tests
use craft_client.Prelude.{
  ℕ, ◌+◌, Bool, true, false, not, ◌&&◌, Option, none, some, List, [], ◌∷◌, ◌==◌, ltb, leb,
  if◌then◌else◌,
}
use craft_client.Prelude.OrderedMap.{OrderedMap, find, assign, erase}

-- The callback is the caller's.
pub record TimerState : Type 0 where
  pub deadline : ℕ
  pub period : ℕ
  pub recurring : Bool
  pub generation : ℕ

pub record HeapEntry : Type 0 where
  pub deadline : ℕ
  pub id : ℕ
  pub generation : ℕ

pub record Watchdog : Type 0 where
  pub heap : List HeapEntry
  pub timers : OrderedMap TimerState
  pub next_id : ℕ

abbrev pub started : Watchdog
started = record { heap = []; timers = []; next_id = 1 }

abbrev pub push : HeapEntry → List HeapEntry → List HeapEntry
push e [] = e ∷ []
push e (f ∷ heap) = if ltb e.deadline f.deadline then e ∷ f ∷ heap else f ∷ push e heap

abbrev pub or_delay : Option ℕ → ℕ → ℕ
or_delay none delay = delay
or_delay (some period) delay = period

abbrev pub has_value : Option ℕ → Bool
has_value none = false
has_value (some period) = true

unfoldable pub add_timer : ℕ → ℕ → Option ℕ → Watchdog → ℕ × Watchdog
add_timer now delay period w =
    let id = w.next_id in
    let state : TimerState = record {
      deadline = now + delay;
      period = or_delay period delay;
      recurring = has_value period;
      generation = 0;
    } in
    let entry : HeapEntry = record { deadline = now + delay; id = id; generation = 0 } in
    (id, record { heap = push entry w.heap; timers = assign id state w.timers; next_id = id + 1 })

unfoldable pub add_oneshot : ℕ → ℕ → Watchdog → ℕ × Watchdog
add_oneshot now delay w = add_timer now delay none w

unfoldable pub add_recurring : ℕ → ℕ → Watchdog → ℕ × Watchdog
add_recurring now period w = add_timer now period (some period) w

-- A timer's new deadline and generation.
abbrev pub renewed : ℕ → TimerState → TimerState
renewed now s = record s { deadline = now + s.period; generation = s.generation + 1 }

abbrev pub entry_of : ℕ → TimerState → HeapEntry
entry_of id s = record { deadline = s.deadline; id = id; generation = s.generation }

abbrev pub reset_in : Option TimerState → ℕ → ℕ → Watchdog → Bool × Watchdog
reset_in none now id w = (false, w)
reset_in (some s) now id w = (
  true,
  record w {
    heap = push (entry_of id (renewed now s)) w.heap;
    timers = assign id (renewed now s) w.timers;
  },
)

unfoldable pub reset : ℕ → ℕ → Watchdog → Bool × Watchdog
reset now id w = reset_in (find id w.timers) now id w

abbrev pub is_there : Option TimerState → Bool
is_there none = false
is_there (some s) = true

unfoldable pub cancel : ℕ → Watchdog → Bool × Watchdog
cancel id w = (is_there (find id w.timers), record w { timers = erase id w.timers })

-- What the worker remembers while it runs a callback. Ids are never given out twice, so the id
-- stands for the state that the code keeps alive.
pub record Firing : Type 0 where
  pub id : ℕ
  pub recurring : Bool
  pub period : ℕ
  pub fired_generation : ℕ

abbrev pub firing_of : ℕ → TimerState → Firing
firing_of id s = record {
  id = id;
  recurring = s.recurring;
  period = s.period;
  fired_generation = s.generation;
}

abbrev pub take_top : Option TimerState → HeapEntry → Watchdog → Option Firing × Watchdog
take_top none e w = (none, w)
take_top (some s) e w =
    if not (s.generation == e.generation) then (none, w) else (some (firing_of e.id s), w)

-- The worker's round up to the callback: none where it waits on, or drops an entry that was
-- cancelled or is stale.
abbrev pub begin_in : List HeapEntry → ℕ → Watchdog → Option Firing × Watchdog
begin_in [] now w = (none, w)
begin_in (e ∷ heap) now w =
    if ltb now e.deadline
    then (none, w)
    else take_top (find e.id w.timers) e (record w { heap = heap })

unfoldable pub begin_round : ℕ → Watchdog → Option Firing × Watchdog
begin_round now w = begin_in w.heap now w

abbrev pub again : Option TimerState → ℕ → Firing → Watchdog → Watchdog
again none now f w = w
again (some s) now f w =
    let s' = record s { deadline = now + f.period } in
    if s.generation == f.fired_generation
    then record w { heap = push (entry_of f.id s') w.heap; timers = assign f.id s' w.timers }
    else w

-- The worker's round from the callback on.
unfoldable pub end_round : ℕ → Firing → Watchdog → Watchdog
end_round now f w =
    if f.recurring
    then again (find f.id w.timers) now f w
    else record w { timers = erase f.id w.timers }
