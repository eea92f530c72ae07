-- ===== src/Prelude/OrderedMap.antt =====
-- `std::map` with numbers for keys: an association list in ascending order of its keys.
use mathlib.Core.List.{List, [], ◌∷◌, ◌++◌}
use Prim.Native.Nat.{ℕ, ◌+◌, ◌≤◌, ◌<◌}
use mathlib.Core.Path.{◌≡◌, refl}
use mathlib.Core.Option.{Option, none, some}
use native.Mathlib.Omega.{arith}
use craft_client.Prelude.Tests.{if_either, ltb, leb, ◌==◌, if◌then◌else◌}

abbrev pub OrderedMap {ℓ} : Type ℓ → Type ℓ
OrderedMap V = List (ℕ × V)

module _ {ℓ} {V : Type ℓ} where
  abbrev pub find : ℕ → OrderedMap V → Option V
  find k [] = none
  find k ((j, v) ∷ m) = if j == k then some v else find k m

  -- `m[k] = v`.
  abbrev pub assign : ℕ → V → OrderedMap V → OrderedMap V
  assign k v [] = (k, v) ∷ []
  assign k v ((j, w) ∷ m) =
      if ltb k j then (k, v) ∷ (j, w) ∷ m else if j == k then (k, v) ∷ m else (j, w) ∷ assign k v m

  abbrev pub erase : ℕ → OrderedMap V → OrderedMap V
  erase k [] = []
  erase k ((j, w) ∷ m) = if j == k then erase k m else (j, w) ∷ erase k m

  -- The entries before `upper_bound(k)`.
  abbrev pub up_to : ℕ → OrderedMap V → OrderedMap V
  up_to k [] = []
  up_to k ((j, v) ∷ m) = if leb j k then (j, v) ∷ up_to k m else up_to k m

  -- The entries from `upper_bound(k)` on.
  abbrev pub beyond : ℕ → OrderedMap V → OrderedMap V
  beyond k [] = []
  beyond k ((j, v) ∷ m) = if leb j k then beyond k m else (j, v) ∷ beyond k m

  -- Ascending keys, all above `lo`.
  abbrev pub Above : ℕ → OrderedMap V → Type 0
  Above lo [] = Unit {0}
  Above lo ((k, v) ∷ m) = (lo < k) × Above k m

  pub find-assign :
      (k : ℕ) (v : V) (m : OrderedMap V) (j : ℕ)
      → find j (assign k v m) ≡ (if k == j then some v else find j m)
  find-assign k v [] j = refl
  find-assign k v ((i, w) ∷ m) j = ground (arith, find-assign k v m j)

  pub find-erase :
      (k : ℕ) (m : OrderedMap V) (j : ℕ) → find j (erase k m) ≡ (if k == j then none else find j m)
  find-erase k [] j = ground arith
  find-erase k ((i, w) ∷ m) j = ground (arith, find-erase k m j)

  pub Above-mono : (lo lo' : ℕ) (m : OrderedMap V) → lo' ≤ lo → Above lo m → Above lo' m
  Above-mono lo lo' [] h a = tt
  Above-mono lo lo' ((k, v) ∷ m) h a = (omega (arith, a.0), a.1)

  pub Above-assign :
      (lo k : ℕ) (v : V) (m : OrderedMap V) → lo < k → Above lo m → Above lo (assign k v m)
  Above-assign lo k v [] h a = (h, tt)
  Above-assign lo k v ((j, w) ∷ m) h a = ground (arith, Above-assign j k v m)

  pub find-Above : (lo k : ℕ) (m : OrderedMap V) → Above lo m → k ≤ lo → find k m ≡ none
  find-Above lo k [] a h = refl
  find-Above lo k ((j, v) ∷ m) a h = ground (arith, find-Above j k m)

  pub up_to-Above : (lo k : ℕ) (m : OrderedMap V) → Above lo m → k ≤ lo → up_to k m ≡ []
  up_to-Above lo k [] a h = refl
  up_to-Above lo k ((j, v) ∷ m) a h = ground (arith, up_to-Above j k m)

  -- An entry above the bound does not show below it.
  pub up_to-assign :
      (k : ℕ) (v : V) (m : OrderedMap V) (h : ℕ) → h < k → up_to h (assign k v m) ≡ up_to h m
  up_to-assign k v [] h lt = ground arith
  up_to-assign k v ((j, w) ∷ m) h lt = ground (arith, up_to-assign k v m h)

module _ {ℓ} {V : Type ℓ} where
  pub find-up_to :
      (h : ℕ) (m : OrderedMap V) (k : ℕ) → find k (up_to h m) ≡ (if leb k h then find k m else none)
  find-up_to h [] k = ground arith
  find-up_to h ((j, v) ∷ m) k = ground (arith, find-up_to h m k)

  pub Above-up_to : (lo h : ℕ) (m : OrderedMap V) → Above lo m → Above lo (up_to h m)
  Above-up_to lo h [] a = tt
  Above-up_to lo h ((j, v) ∷ m) a =
      if_either (Above lo) (leb j h) (a.0, Above-up_to j h m a.1)
        (Above-mono j lo (up_to h m) (omega (arith, a.0)) (Above-up_to j h m a.1))

  pub up_to-up_to : (c h : ℕ) (m : OrderedMap V) → c ≤ h → up_to c (up_to h m) ≡ up_to c m
  up_to-up_to c h [] le = refl
  up_to-up_to c h ((j, v) ∷ m) le = ground (arith, up_to-up_to c h m)

module _ {V : Type 0} where
  -- Taking in one more key that is present adds its entry at the end.
  pub up_to-suc :
      (lo c : ℕ) (v : V) (m : OrderedMap V)
      → Above lo m
      → find (c + 1) m ≡ some v
      → up_to (c + 1) m ≡ up_to c m ++ (c + 1, v) ∷ []
  up_to-suc lo c v [] a e = cc
  up_to-suc lo c v ((j, w) ∷ m) a e =
      ground (arith, up_to-suc j c v m, up_to-Above j (c + 1) m, up_to-Above j c m)
