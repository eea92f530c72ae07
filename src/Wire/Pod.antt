-- ===== src/Wire/Pod.antt =====
-- The packed little-endian structs' bytes: `decode<T>` and `put` of include/craft/wire.hpp.
-- A struct is given by the widths of its fields in bytes and by its fields as numbers.
use craft_client.Prelude.{
  ℕ, zero, suc, ◌+◌, ◌*◌, ◌/◌, ◌%◌, ◌^◌, ◌<◌, ◌≡◌, refl, ap, ap₂, ◌∙◌, List, [], ◌∷◌, ◌++◌,
  append_assoc, arith, length, length-append, take, drop,
}
use native.Mathlib.Nat.{pow-suc}

-- `k` bytes of `x`, least significant first.
unfoldable pub le_bytes : ℕ → ℕ → List ℕ
le_bytes zero x = []
le_bytes (suc k) x = (x % 256) ∷ le_bytes k (x / 256)

unfoldable pub le_value : List ℕ → ℕ
le_value [] = 0
le_value (b ∷ bs) = b + 256 * le_value bs

unfoldable pub encode_fields : List ℕ → List ℕ → List ℕ
encode_fields [] vs = []
encode_fields (w ∷ ws) [] = []
encode_fields (w ∷ ws) (v ∷ vs) = le_bytes w v ++ encode_fields ws vs

unfoldable pub decode_fields : List ℕ → List ℕ → List ℕ
decode_fields [] bs = []
decode_fields (w ∷ ws) bs = le_value (take w bs) ∷ decode_fields ws (drop w bs)

abbrev pub sum : List ℕ → ℕ
sum [] = 0
sum (x ∷ xs) = x + sum xs

-- Each value fits its field.
abbrev pub Fits : List ℕ → List ℕ → Type 0
Fits [] [] = Unit {0}
Fits [] (v ∷ vs) = ⊥
Fits (w ∷ ws) [] = ⊥
Fits (w ∷ ws) (v ∷ vs) = (v < 256 ^ w) × Fits ws vs

pub length-le_bytes : (k x : ℕ) → length (le_bytes k x) ≡ k
unfolding le_bytes
length-le_bytes zero x = refl
length-le_bytes (suc k) x = ap suc (length-le_bytes k (x / 256))

pub take-append_length {ℓ} :
    {A : Type ℓ} (xs ys : List A) (n : ℕ) → length xs ≡ n → take n (xs ++ ys) ≡ xs
take-append_length [] ys zero h = refl
take-append_length [] ys (suc n) h = absurd (omega arith)
take-append_length (x ∷ xs) ys zero h = absurd (omega arith)
take-append_length (x ∷ xs) ys (suc n) h = ap (◌∷◌ x) (take-append_length xs ys n (omega arith))

pub drop-append_length {ℓ} :
    {A : Type ℓ} (xs ys : List A) (n : ℕ) → length xs ≡ n → drop n (xs ++ ys) ≡ ys
drop-append_length [] ys zero h = refl
drop-append_length [] ys (suc n) h = absurd (omega arith)
drop-append_length (x ∷ xs) ys zero h = absurd (omega arith)
drop-append_length (x ∷ xs) ys (suc n) h = drop-append_length xs ys n (omega arith)

pub le_value-le_bytes : (k x : ℕ) → x < 256 ^ k → le_value (le_bytes k x) ≡ x
unfolding le_bytes le_value
le_value-le_bytes zero x h = omega arith
le_value-le_bytes (suc k) x h =
    omega (arith, pow-suc 256 k, le_value-le_bytes k (x / 256) (omega (arith, pow-suc 256 k)))

abbrev pub AllBytes : List ℕ → Type 0
AllBytes [] = Unit {0}
AllBytes (b ∷ bs) = (b < 256) × AllBytes bs

pub le_bytes-le_value :
    (bs : List ℕ) (k : ℕ) → AllBytes bs → length bs ≡ k → le_bytes k (le_value bs) ≡ bs
unfolding le_bytes le_value
le_bytes-le_value [] zero a h = refl
le_bytes-le_value [] (suc k) a h = absurd (omega arith)
le_bytes-le_value (b ∷ bs) zero a h = absurd (omega arith)
le_bytes-le_value (b ∷ bs) (suc k) a h =
    ap₂ ◌∷◌ (omega (arith, a.0))
      (ap (le_bytes k) (omega (arith, a.0)) ∙ le_bytes-le_value bs k a.1 (omega arith))

pub decode-encode :
    (ws vs rest : List ℕ) → Fits ws vs → decode_fields ws (encode_fields ws vs ++ rest) ≡ vs
unfolding encode_fields decode_fields
decode-encode [] [] rest f = refl
decode-encode [] (v ∷ vs) rest f = absurd f
decode-encode (w ∷ ws) [] rest f = absurd f
decode-encode (w ∷ ws) (v ∷ vs) rest f =
    rw (append_assoc (le_bytes w v) (encode_fields ws vs) rest) (
      ap₂ ◌∷◌
        (ap le_value (take-append_length (le_bytes w v) _ w (length-le_bytes w v))
          ∙ le_value-le_bytes w v f.0)
        (ap (decode_fields ws) (drop-append_length (le_bytes w v) _ w (length-le_bytes w v))
          ∙ decode-encode ws vs rest f.1))

pub length-encode_fields :
    (ws vs : List ℕ) → length vs ≡ length ws → length (encode_fields ws vs) ≡ sum ws
unfolding encode_fields
length-encode_fields [] [] h = refl
length-encode_fields [] (v ∷ vs) h = refl
length-encode_fields (w ∷ ws) [] h = absurd (omega arith)
length-encode_fields (w ∷ ws) (v ∷ vs) h = omega (
  arith,
  length-append (le_bytes w v) (encode_fields ws vs),
  length-le_bytes w v,
  length-encode_fields ws vs (omega arith),
)

-- A struct whose fields fill it with no padding.
pub record Pod (T : Type 0) : Type 0 where
  pub layout : List ℕ
  pub fields : T → List ℕ
  pub build : List ℕ → T
  pub build-fields : (t : T) → build (fields t) ≡ t
  pub length-fields : (t : T) → length (fields t) ≡ length layout

module _ {T : Type 0} ⦃p : Pod T⦄ where
  -- `put(out, v)` appends this.
  abbrev pub bytes_of : T → List ℕ
  bytes_of t = encode_fields p.layout (p.fields t)

  abbrev pub FitsPod : T → Type 0
  FitsPod t = Fits p.layout (p.fields t)

  pub length-bytes_of : (t : T) → length (bytes_of t) ≡ sum p.layout
  length-bytes_of t = length-encode_fields p.layout (p.fields t) (p.length-fields t)

module _ (T : Type 0) ⦃p : Pod T⦄ where
  abbrev pub size_of : ℕ
  size_of = sum p.layout

  -- `decode<T>(s)`; the caller ensures that `s` holds `sizeof(T)` bytes.
  abbrev pub decode : List ℕ → T
  decode bs = p.build (decode_fields p.layout bs)

pub decode-bytes_of :
    {T : Type 0} ⦃p : Pod T⦄ (t : T) (rest : List ℕ) → FitsPod t → decode T (bytes_of t ++ rest) ≡ t
decode-bytes_of ⦃p⦄ t rest f =
    ap p.build (decode-encode p.layout (p.fields t) rest f) ∙ p.build-fields t
