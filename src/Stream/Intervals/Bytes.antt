-- ===== src/Stream/Intervals/Bytes.antt =====
-- An interval map that meets the interface: a function of the offset below a bound, with one
-- segment for each offset that has a value.
use craft_client.Prelude.{
  ℕ, zero, suc, ◌+◌, ◌-◌, ◌≡◌, refl, sym, ap, ◌∙◌, Bool, true, false, Option, none, some, List, [],
  ◌∷◌, ltb, ◌==◌, if◌then◌else◌, max, arith, inl, inr, Bool-cases, Option-cases, All,
}
use craft_client.Types.{Lsn}
use craft_client.Stream.Intervals.{IntervalMap, Segment, in_interval, value_at}

pub record Bytes : Type 0 where
  pub cells : ℕ → Option Lsn
  pub bound : ℕ

abbrev pub cell_at : Bytes → ℕ → Option Lsn
cell_at m x = if ltb x m.bound then m.cells x else none

abbrev pub no_bytes : Bytes
no_bytes = record { cells = λ x. none; bound = 0 }

abbrev pub insert_bytes : ℕ → ℕ → Lsn → Bytes → Bytes
insert_bytes lo hi d m = record {
  cells = λ x. if in_interval lo hi x then some d else cell_at m x;
  bound = max m.bound hi;
}

abbrev pub erase_bytes : ℕ → ℕ → Bytes → Bytes
erase_bytes lo hi m = record m { cells = λ x. if in_interval lo hi x then none else cell_at m x }

-- Whether one of the `n` offsets from `x` on has a value.
abbrev pub any_from : ℕ → Bytes → ℕ → Bool
any_from zero m x = false
any_from (suc n) m x = elim (cell_at m x) [ none ↦ any_from n m (x + 1) | some d ↦ true ]

abbrev pub cells_from : ℕ → Bytes → ℕ → List Segment
cells_from zero m x = []
cells_from (suc n) m x = elim (cell_at m x) [
  | none ↦ cells_from n m (x + 1)
  | some d ↦ record { lo = x; hi = x + 1; val = d } ∷ cells_from n m (x + 1)
]

pub none_at : (x : ℕ) → cell_at no_bytes x ≡ none
none_at x = ground arith

pub cell_at-insert :
    (lo hi : ℕ) (d : Lsn) (m : Bytes) (x : ℕ)
    → cell_at (insert_bytes lo hi d m) x ≡ (if in_interval lo hi x then some d else cell_at m x)
cell_at-insert lo hi d m x = ground arith

pub cell_at-erase :
    (lo hi : ℕ) (m : Bytes) (x : ℕ)
    → cell_at (erase_bytes lo hi m) x ≡ (if in_interval lo hi x then none else cell_at m x)
cell_at-erase lo hi m x = ground arith

pub any_some :
    (n : ℕ) (m : Bytes) (x : ℕ)
    → any_from n m x ≡ true
    → (y : ℕ) × (d : Lsn) × (in_interval x (x + n) y ≡ true) × (cell_at m y ≡ some d)
any_some zero m x e = cc
any_some (suc n) m x e = elim (Option-cases (cell_at m x)) [
  | inl gone ↦
      let r = any_some n m (x + 1) (rw (gone, any_from) at e) in
      (r.0, r.1, ground (arith, r.2), r.3)
  | inr (d, is) ↦ (x, d, ground arith, is)
]

pub any_none :
    (n : ℕ) (m : Bytes) (x y : ℕ)
    → any_from n m x ≡ false
    → in_interval x (x + n) y ≡ true
    → cell_at m y ≡ none
any_none zero m x y e i = absurd (ground arith)
any_none (suc n) m x y e i = elim (Option-cases (cell_at m x)) [
  | inl gone ↦ elim (Bool-cases (x == y)) [
    | inl here ↦ (let same : x ≡ y = ground arith in ap (cell_at m) (sym same) ∙ gone)
    | inr past ↦ any_none n m (x + 1) y (rw (gone, any_from) at e) (ground arith)
  ]
  | inr (d, is) ↦ cc (e, is)
]

value_of_cells :
    (n : ℕ) (m : Bytes) (x y : ℕ)
    → value_at y (cells_from n m x) ≡ (if in_interval x (x + n) y then cell_at m y else none)
value_of_cells zero m x y = ground arith
value_of_cells (suc n) m x y = elim (Bool-cases (x == y)) [
  | inl here ↦
      let same : x ≡ y = ground arith in
      let on : in_interval x (x + suc n) y ≡ true = ground arith in
      let off : in_interval (x + 1) (x + 1 + n) y ≡ false = ground arith in
      let cell = ap (cell_at m) same in
      elim (Option-cases (cell_at m x)) [
        | inl gone ↦
            rw (gone, cells_from)
              (value_of_cells n m (x + 1) y ∙ rw (off, on) (sym (sym cell ∙ gone)))
        | inr (d, is) ↦
            let own : in_interval x (x + 1) y ≡ true = ground arith in
            rw (is, cells_from, own, on) (sym (sym cell ∙ is))
      ]
  | inr past ↦ elim (Option-cases (cell_at m x)) [
    | inl gone ↦ rw (gone, cells_from) (value_of_cells n m (x + 1) y ∙ ground arith)
    | inr (d, is) ↦ rw (is, cells_from) (ground (arith, value_of_cells n m (x + 1) y))
  ]
]

pub cells-All :
    (n : ℕ) (m : Bytes) (x y : ℕ)
    → All (λ s. in_interval s.lo s.hi y ≡ true → cell_at m y ≡ some s.val) (cells_from n m x)
cells-All zero m x y = tt
cells-All (suc n) m x y = elim (Option-cases (cell_at m x)) [
  | inl gone ↦ rw (gone, cells_from) (cells-All n m (x + 1) y)
  | inr (d, is) ↦
      rw (is, cells_from)
        (
          (λ on. let same : y ≡ x = ground arith in ap (cell_at m) same ∙ is),
          cells-All n m (x + 1) y,
        )
]

pub any_some_between :
    (m : Bytes) (lo hi : ℕ)
    → any_from (hi - lo) m lo ≡ true
    → (x : ℕ) × (d : Lsn) × (in_interval lo hi x ≡ true) × (cell_at m x ≡ some d)
any_some_between m lo hi e =
    let r = any_some (hi - lo) m lo e in (r.0, r.1, ground (arith, r.2), r.3)

pub any_none_between :
    (m : Bytes) (lo hi x : ℕ)
    → any_from (hi - lo) m lo ≡ false
    → in_interval lo hi x ≡ true
    → cell_at m x ≡ none
any_none_between m lo hi x e i = any_none (hi - lo) m lo x e (ground arith)

pub all_cells : (m : Bytes) (x : ℕ) → cell_at m x ≡ value_at x (cells_from m.bound m 0)
all_cells m x = elim (Bool-cases (ltb x m.bound)) [
  | inl below ↦
      let on : in_interval 0 (0 + m.bound) x ≡ true = ground arith in
      sym (value_of_cells m.bound m 0 x ∙ rw on refl)
  | inr out ↦
      let off : in_interval 0 (0 + m.bound) x ≡ false = ground arith in
      rw out (sym (value_of_cells m.bound m 0 x ∙ rw off refl))
]

abbrev pub bytes : IntervalMap
bytes = record {
  Intervals = Bytes;
  clear = no_bytes;
  insert = insert_bytes;
  erase = erase_bytes;
  intersects = λ m lo hi. any_from (hi - lo) m lo;
  segments = λ m. cells_from m.bound m 0;
  at = cell_at;
  at-clear = none_at;
  at-insert = cell_at-insert;
  at-erase = cell_at-erase;
  intersects_some = any_some_between;
  intersects_none = any_none_between;
  at-segments = all_cells;
  segments_all = λ m x. cells-All m.bound m 0 x;
}
