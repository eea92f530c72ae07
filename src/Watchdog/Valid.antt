-- ===== src/Watchdog/Valid.antt =====
-- The validity of the table and the heap, which every step keeps.
use craft_client.Prelude.{
  ℕ, ◌+◌, ◌≤◌, ◌<◌, ◌≡◌, ◌≢◌, refl, ap, sym, ◌∙◌, false, ◌&&◌, Option, none, some, ◌==◌, ==_iff,
  subst, ◌⊎◌, inl, inr, Bool-cases, All, All-both, arith,
}
use craft_client.Prelude.OrderedMap.{OrderedMap, find, assign, find-assign}
use craft_client.Watchdog.{TimerState, HeapEntry, Watchdog, Firing, started, push, entry_of}
use craft_client.Watchdog.Count.{
  is_entry, one_if, count, count-push, All-push, All-weaken, All-count,
}

-- An entry is of its timer's generation, with its deadline, or of an older one.
abbrev pub Fits : OrderedMap TimerState → HeapEntry → Type 0
Fits timers e =
    (s : TimerState)
    → find e.id timers ≡ some s
    → (e.generation ≤ s.generation) × (e.generation ≡ s.generation → e.deadline ≡ s.deadline)

abbrev pub in_flight : ℕ → ℕ → Option Firing → ℕ
in_flight id generation none = 0
in_flight id generation (some f) = one_if (f.id == id && f.fired_generation == generation)

abbrev pub Flies : Option Firing → Watchdog → Type 0
Flies none w = Unit {0}
Flies (some f) w =
    (f.id < w.next_id)
    × ((s : TimerState) → find f.id w.timers ≡ some s → f.fired_generation ≤ s.generation)

-- Each timer in the table waits in the heap with its generation exactly once, or is being fired.
pub record IsValid (f : Option Firing) (w : Watchdog) : Type 0 where
  pub given : (id : ℕ) → w.next_id ≤ id → find id w.timers ≡ none
  pub known : All (λ e. e.id < w.next_id) w.heap
  pub fits : All (Fits w.timers) w.heap
  pub flies : Flies f w
  pub once :
      (id : ℕ) (s : TimerState)
      → find id w.timers ≡ some s
      → count id s.generation w.heap + in_flight id s.generation f ≡ 1

pub started-IsValid : IsValid none started
started-IsValid = record {
  given = λ id le. refl;
  known = tt;
  fits = tt;
  flies = tt;
  once = λ id s e. cc e;
}

pub Flies-mono :
    (f : Option Firing) (w w' : Watchdog)
    → w.next_id ≤ w'.next_id
    → ((id : ℕ) (s : TimerState)
        → id < w.next_id
        → find id w'.timers ≡ some s
        → (t : TimerState) × (find id w.timers ≡ some t) × (t.generation ≤ s.generation))
    → Flies f w
    → Flies f w'
Flies-mono none w w' le h v = tt
Flies-mono (some f) w w' le h v =
    (omega (arith, v.0), (λ s e. let (t, old, up) = h f.id s v.0 e in omega (arith, v.1 t old)))

-- A generation that is not in flight, since it is newer, or of an id that was not given out.
pub in_flight-new :
    (id generation : ℕ) (f : Option Firing) (w : Watchdog)
    → ((g : Firing) → g.id ≡ id → g.id < w.next_id → g.fired_generation ≢ generation)
    → Flies f w
    → in_flight id generation f ≡ 0
in_flight-new id generation none w h v = refl
in_flight-new id generation (some g) w h v = ground (arith, h g, v.0)

-- A timer of the id gets a new state, and an entry for it.
abbrev pub set_timer : ℕ → ℕ → TimerState → Watchdog → Watchdog
set_timer next id s w = record {
  heap = push (entry_of id s) w.heap;
  timers = assign id s w.timers;
  next_id = next;
}

module _ (next id : ℕ) (s : TimerState) (w : Watchdog) (f f' : Option Firing) (v : IsValid f w)
    (le : w.next_id ≤ next) (lt : id < next)
    (was : id < w.next_id
      → (t : TimerState) × (find id w.timers ≡ some t) × (t.generation ≤ s.generation))
    (none_yet : count id s.generation w.heap ≡ 0) (not_flying : in_flight id s.generation f' ≡ 0)
    (others : (j g : ℕ) → j ≢ id → in_flight j g f' ≡ in_flight j g f) (flies' : Flies f' w) where
  abbrev Old : HeapEntry → Type 0
  Old e = (e.id < w.next_id) × (Fits w.timers e × (is_entry id s.generation e ≡ false))

  -- A timer of the new table is the one that was set, or an old one.
  by_id :
      (j : ℕ) (t : TimerState)
      → find j (assign id s w.timers) ≡ some t
      → ((id ≡ j) × (s ≡ t)) ⊎ ((id ≢ j) × (find j w.timers ≡ some t))
  by_id j t found = elim (Bool-cases (id == j)) [
    | inl same ↦
        inl ((==_iff id j).0 same, cc (rw same at (sym (find-assign id s w.timers j) ∙ found)))
    | inr differ ↦
        inr ((λ e. ground arith), rw differ at (sym (find-assign id s w.timers j) ∙ found))
  ]

  set_timer-Fits : (e : HeapEntry) → Old e → Fits (assign id s w.timers) e
  set_timer-Fits e (known, (fit, other)) t found = elim (by_id e.id t found) [
    | inl (same, set) ↦
        let (old, held, up) = was (omega (arith, known, same)) in
        let older = (fit old (ap (λ j. find j w.timers) (sym same) ∙ held)).0 in
        subst
          (λ u.
            (e.generation ≤ u.generation) × (e.generation ≡ u.generation → e.deadline ≡ u.deadline))
          set (omega (arith, older, up), (λ now. absurd (ground arith)))
    | inr (differ, old) ↦ fit t old
  ]

  set_timer-once :
      (j : ℕ) (t : TimerState)
      → find j (assign id s w.timers) ≡ some t
      → count j t.generation (push (entry_of id s) w.heap) + in_flight j t.generation f' ≡ 1
  set_timer-once j t found = elim (by_id j t found) [
    | inl (same, set) ↦
        subst
          (λ u.
            count j u.generation (push (entry_of id s) w.heap) + in_flight j u.generation f' ≡ 1)
          set
          (subst
            (λ k.
              count k s.generation (push (entry_of id s) w.heap) + in_flight k s.generation f' ≡ 1)
            same
            (ground
              (arith, count-push id s.generation (entry_of id s) w.heap, none_yet, not_flying)))
    | inr (differ, old) ↦ ground (
      arith,
      count-push j t.generation (entry_of id s) w.heap,
      others j t.generation (λ e. differ (sym e)),
      v.once j t old,
    )
  ]

  pub set_timer-IsValid : IsValid f' (set_timer next id s w)
  set_timer-IsValid = record {
    given = λ j above. ground (arith, find-assign id s w.timers j, v.given j);
    known =
        All-push (λ e. e.id < next) _ w.heap lt
          (All-weaken w.heap (λ e known. omega (arith, known)) v.known);
    fits = All-push (Fits (assign id s w.timers)) (entry_of id s) w.heap own (
        All-weaken w.heap set_timer-Fits (
          All-both (λ e. e.id < w.next_id) _ w.heap v.known
            (All-both (Fits w.timers) _ w.heap v.fits
              (All-count id s.generation w.heap none_yet))));
    flies = Flies-mono f' w _ le (λ j t below found. before j t below found) flies';
    once = set_timer-once;
  }
    where
      own : Fits (assign id s w.timers) (entry_of id s)
      own t found = elim (by_id id t found) [
        | inl (same, set) ↦
            subst
              (λ u.
                (s.generation ≤ u.generation)
                × (s.generation ≡ u.generation → s.deadline ≡ u.deadline))
              set (omega arith, (λ e. refl))
        | inr (differ, old) ↦ absurd (differ refl)
      ]

      before :
          (j : ℕ) (t : TimerState)
          → j < w.next_id
          → find j (assign id s w.timers) ≡ some t
          → (u : TimerState) × (find j w.timers ≡ some u) × (u.generation ≤ t.generation)
      before j t below found = elim (by_id j t found) [
        | inl (same, set) ↦
            let (old, held, up) = was (omega (arith, below, same)) in
            (
              old,
              ap (λ k. find k w.timers) (sym same) ∙ held,
              omega (arith, up, ap (λ u. u.generation) set),
            )
        | inr (differ, old) ↦ (t, old, omega arith)
      ]
