-- ===== src/Watchdog/Step.antt =====
-- The service as a whole: the worker waits, or runs a callback, and requests come at any time.
use craft_client.Prelude.{ℕ, Option, none, some}
use craft_client.Watchdog.{
  Watchdog, Firing, started, add_timer, reset, cancel, begin_round, end_round,
}

pub data Step : Option Firing × Watchdog → Option Firing × Watchdog → Type 0 where
  added :
      (now delay : ℕ) (period : Option ℕ) (f : Option Firing) (w : Watchdog)
      → Step (f, w) (f, (add_timer now delay period w).1)
  renew : (now id : ℕ) (f : Option Firing) (w : Watchdog) → Step (f, w) (f, (reset now id w).1)
  cancelled : (id : ℕ) (f : Option Firing) (w : Watchdog) → Step (f, w) (f, (cancel id w).1)
  begun : (now : ℕ) (w : Watchdog) → Step (none, w) (begin_round now w)
  ended : (now : ℕ) (f : Firing) (w : Watchdog) → Step (some f, w) (none, end_round now f w)

-- What the service can come to.
pub data Reach : Option Firing × Watchdog → Type 0 where
  start : Reach (none, started)
  then_step : (p q : Option Firing × Watchdog) → Reach p → Step p q → Reach q

-- Any number of steps.
pub data Steps : Option Firing × Watchdog → Option Firing × Watchdog → Type 0 where
  stay : (p : Option Firing × Watchdog) → Steps p p
  and_then : (p q r : Option Firing × Watchdog) → Steps p q → Step q r → Steps p r
