-- ===== src/Stream.antt =====
-- What the client asks of `sisl::StreamTracker`: slots in a window that is indexed by lsn, each
-- with a completion bit. The library is not part of the program; this is its interface.
pub mod Window
pub mod Intervals
use craft_client.Prelude.{
  ℕ, ◌+◌, ◌≤◌, ◌<◌, ◌≡◌, Bool, true, false, ◌||◌, Option, none, some, leb, ◌==◌, if◌then◌else◌,
}
use craft_client.Prelude.OrderedMap.{OrderedMap, find, Above}
use craft_client.Types.{Lsn}

-- The value that a callback leaves in a slot, and whether it asks for the completion bit.
abbrev pub written {ℓ} : {T : Type ℓ} → (T → T × Bool) → Option T → Option T
written f none = none
written f (some v) = some (f v).0

abbrev pub asked {ℓ} : {T : Type ℓ} → (T → T × Bool) → Option T → Bool
asked f none = false
asked f (some v) = (f v).1

-- `slot` is what a callback sees at an index, and `done` its completion bit.
pub record StreamTracker (T : Type 0) : Type 1 where
  pub Tracker : Type 0
  pub emplace : Lsn → Tracker
  pub create : Lsn → T → Tracker → Tracker
  pub update : Lsn → (T → T × Bool) → Tracker → Tracker
  pub truncate : Lsn → Tracker → Tracker
  pub completed_upto : Tracker → Lsn → Lsn
  pub active_from : Tracker → Lsn → OrderedMap T
  pub slot : Tracker → Lsn → Option T
  pub done : Tracker → Lsn → Bool
  pub slot-emplace : (s j : Lsn) → slot (emplace s) j ≡ none
  pub done-emplace : (s j : Lsn) → s < j → done (emplace s) j ≡ false
  pub slot-create :
      (d : Lsn) (v : T) (t : Tracker) (j : Lsn)
      → slot (create d v t) j ≡ (if d == j then some v else slot t j)
  pub done-create :
      (d : Lsn) (v : T) (t : Tracker) (j : Lsn)
      → done (create d v t) j ≡ (if d == j then false else done t j)
  pub slot-update :
      (d : Lsn) (f : T → T × Bool) (t : Tracker) (j : Lsn)
      → slot (update d f t) j ≡ (if d == j then written f (slot t j) else slot t j)
  pub done-update :
      (d : Lsn) (f : T → T × Bool) (t : Tracker) (j : Lsn)
      → done (update d f t) j ≡ (if d == j then done t j || asked f (slot t j) else done t j)
  -- Truncation drops nothing above its bound.
  pub slot-truncate : (n : Lsn) (t : Tracker) (j : Lsn) → n < j → slot (truncate n t) j ≡ slot t j
  pub done-truncate : (n : Lsn) (t : Tracker) (j : Lsn) → n < j → done (truncate n t) j ≡ done t j
  -- The index after `completed_upto` is the first at or above the hint that is not complete.
  pub completed_run :
      (t : Tracker) (h j : Lsn) → 0 < h → h ≤ j → j ≤ completed_upto t h → done t j ≡ true
  pub completed_hint : (t : Tracker) (h : Lsn) → h ≤ completed_upto t h + 1
  pub completed_end : (t : Tracker) (h : Lsn) → 0 < h → done t (completed_upto t h + 1) ≡ false
  -- `foreach_all_active` visits the active slots at and above its index in ascending order.
  pub active_find :
      (t : Tracker) (h j : Lsn) → find j (active_from t h) ≡ (if leb h j then slot t j else none)
  pub active_Above : (t : Tracker) (h lo : Lsn) → lo < h → Above lo (active_from t h)
