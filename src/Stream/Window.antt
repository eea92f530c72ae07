-- ===== src/Stream/Window.antt =====
-- A window that meets the interface: functions of the index below a bound.
use craft_client.Prelude.{
  ℕ, zero, suc, ◌+◌, ◌-◌, ◌≤◌, ◌<◌, ◌≡◌, refl, Bool, true, false, ◌||◌, ◌&&◌, Option, none, some,
  [], ◌∷◌, leb, ltb, ◌==◌, if◌then◌else◌, max, arith, inl, inr, Bool-cases, Option-cases,
}
use craft_client.Prelude.OrderedMap.{OrderedMap, find, Above}
use craft_client.Types.{Lsn}
use craft_client.Stream.{StreamTracker, written, asked}

pub record Window (T : Type 0) : Type 0 where
  pub slots : Lsn → Option T
  pub bits : Lsn → Bool
  pub bound : Lsn

pub unmarked : (b : Bool) → (b && false) ≡ false
unmarked true = refl
unmarked false = refl

module _ {T : Type 0} where
  abbrev pub slot_at : Window T → Lsn → Option T
  slot_at w j = if ltb j w.bound then w.slots j else none

  abbrev pub done_at : Window T → Lsn → Bool
  done_at w j = ltb j w.bound && w.bits j

  abbrev pub empty_window : Window T
  empty_window = record { slots = λ j. none; bits = λ j. false; bound = 0 }

  abbrev pub create_at : Lsn → T → Window T → Window T
  create_at d v w = record {
    slots = λ j. if d == j then some v else slot_at w j;
    bits = λ j. if d == j then false else done_at w j;
    bound = max w.bound (d + 1);
  }

  abbrev pub update_at : Lsn → (T → T × Bool) → Window T → Window T
  update_at d f w = record w {
    slots = λ j. if d == j then written f (slot_at w j) else slot_at w j;
    bits = λ j. if d == j then done_at w j || asked f (slot_at w j) else done_at w j;
  }

  -- The first index that is not complete, in at most `n` steps.
  abbrev pub first_open : ℕ → Window T → Lsn → Lsn
  first_open zero w h = h
  first_open (suc n) w h = if done_at w h then first_open n w (h + 1) else h

  abbrev pub list_active : ℕ → Window T → Lsn → OrderedMap T
  list_active zero w h = []
  list_active (suc n) w h = elim (slot_at w h) [
    | none ↦ list_active n w (h + 1)
    | some v ↦ (h, v) ∷ list_active n w (h + 1)
  ]

  pub create_slot :
      (d : Lsn) (v : T) (w : Window T) (j : Lsn)
      → slot_at (create_at d v w) j ≡ (if d == j then some v else slot_at w j)
  create_slot d v w j = ground arith

  pub create_done :
      (d : Lsn) (v : T) (w : Window T) (j : Lsn)
      → done_at (create_at d v w) j ≡ (if d == j then false else done_at w j)
  create_done d v w j = ground arith

  pub update_slot :
      (d : Lsn) (f : T → T × Bool) (w : Window T) (j : Lsn)
      → slot_at (update_at d f w) j ≡ (if d == j then written f (slot_at w j) else slot_at w j)
  update_slot d f w j = ground arith

  pub update_done :
      (d : Lsn) (f : T → T × Bool) (w : Window T) (j : Lsn)
      → done_at (update_at d f w) j
        ≡ (if d == j then done_at w j || asked f (slot_at w j) else done_at w j)
  update_done d f w j = ground arith

  open_hint : (n : ℕ) (w : Window T) (h : Lsn) → h ≤ first_open n w h
  open_hint zero w h = omega arith
  open_hint (suc n) w h = ground (arith, open_hint n w (h + 1))

  open_run : (n : ℕ) (w : Window T) (h j : Lsn) → h ≤ j → j < first_open n w h → done_at w j ≡ true
  open_run zero w h j lo hi = absurd (omega arith)
  open_run (suc n) w h j lo hi = elim (Bool-cases (done_at w h)) [
    | inl more ↦ elim (Bool-cases (h == j)) [
      | inl here ↦ ground arith
      | inr past ↦ open_run n w (h + 1) j (ground arith) (rw (more, first_open) at hi)
    ]
    | inr stop ↦ absurd (ground arith)
  ]

  open_end :
      (n : ℕ) (w : Window T) (h : Lsn) → w.bound ≤ h + n → done_at w (first_open n w h) ≡ false
  open_end zero w h le = ground arith
  open_end (suc n) w h le = ground (arith, open_end n w (h + 1))

  pub listed_Above : (n : ℕ) (w : Window T) (h lo : Lsn) → lo < h → Above lo (list_active n w h)
  listed_Above zero w h lo lt = tt
  listed_Above (suc n) w h lo lt = elim (Option-cases (slot_at w h)) [
    | inl gone ↦ rw (gone, list_active) (listed_Above n w (h + 1) lo (omega arith))
    | inr (v, e) ↦ rw (e, list_active) (lt, listed_Above n w (h + 1) h (omega arith))
  ]

  pub find-listed :
      (n : ℕ) (w : Window T) (h j : Lsn)
      → w.bound ≤ h + n
      → find j (list_active n w h) ≡ (if leb h j then slot_at w j else none)
  find-listed zero w h j le = ground arith
  find-listed (suc n) w h j le = elim (Option-cases (slot_at w h)) [
    | inl gone ↦ rw (gone, list_active) (ground (arith, find-listed n w (h + 1) j))
    | inr (v, e) ↦ rw (e, list_active) (ground (arith, find-listed n w (h + 1) j))
  ]

  abbrev pub run_end : Window T → Lsn → Lsn
  run_end w h = first_open (w.bound - h) w h - 1

  pub run_hint : (w : Window T) (h : Lsn) → h ≤ run_end w h + 1
  run_hint w h = omega (arith, open_hint (w.bound - h) w h)

  pub run_done : (w : Window T) (h j : Lsn) → 0 < h → h ≤ j → j ≤ run_end w h → done_at w j ≡ true
  run_done w h j pos lo hi =
      open_run (w.bound - h) w h j lo (omega (arith, open_hint (w.bound - h) w h))

  pub run_stop : (w : Window T) (h : Lsn) → 0 < h → done_at w (run_end w h + 1) ≡ false
  run_stop w h pos =
      let e : run_end w h + 1 ≡ first_open (w.bound - h) w h =
        omega (arith, open_hint (w.bound - h) w h) in
      rw e (open_end (w.bound - h) w h (omega arith))

  pub emptied : (j : Lsn) → slot_at empty_window j ≡ none
  emptied j = ground arith

  abbrev pub window : StreamTracker T
  window = record {
    Tracker = Window T;
    emplace = λ s. empty_window;
    create = create_at;
    update = update_at;
    truncate = λ n w. w;
    completed_upto = run_end;
    active_from = λ w h. list_active (w.bound - h) w h;
    slot = slot_at;
    done = done_at;
    slot-emplace = λ s j. emptied j;
    done-emplace = λ s j lt. unmarked (ltb j 0);
    slot-create = create_slot;
    done-create = create_done;
    slot-update = update_slot;
    done-update = update_done;
    slot-truncate = λ n w j lt. refl;
    done-truncate = λ n w j lt. refl;
    completed_run = run_done;
    completed_hint = run_hint;
    completed_end = run_stop;
    active_find = λ w h j. find-listed (w.bound - h) w h j (omega arith);
    active_Above = λ w h lo. listed_Above (w.bound - h) w h lo;
  }
