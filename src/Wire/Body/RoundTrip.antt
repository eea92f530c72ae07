-- ===== src/Wire/Body/RoundTrip.antt =====
-- Bodies read back.
use mathlib.Core.List.{foldl}
use craft_client.Prelude.{
  ℕ, suc, ◌+◌, ◌*◌, ◌%◌, ◌^◌, ◌<◌, ◌≡◌, refl, sym, ap, ap₂, ◌∙◌, false, none, some, List, [], ◌∷◌,
  ◌++◌, append_assoc, append-nil, ltb, length, length-append, arith,
}
use craft_client.Wire.Pod.{
  bytes_of, FitsPod, decode-bytes_of, length-bytes_of, le_bytes, le_value, take-append_length,
  drop-append_length, length-le_bytes, le_value-le_bytes,
}
use craft_client.Wire.Layout.Io.{ExtentDesc, extent_desc_pod}
use craft_client.Wire.Frame.{subspan}
use craft_client.Wire.Frame.RoundTrip.{subspan-middle}
use craft_client.Wire.Body.{
  Member, put_member, decode_members, decode_members_from, decode_lsns, copy_lsns, decode_extents,
  copy_extents,
}

-- The bytes that `put_member` appends.
abbrev member_bytes : Member → List ℕ
member_bytes m = le_bytes 16 m.id ++ (le_bytes 2 (length m.addr) ++ m.addr)

abbrev pub FitsMember : Member → Type 0
FitsMember m = (m.id < 256 ^ 16) × (length m.addr < 2 ^ 16)

abbrev pub AllFit : List Member → Type 0
AllFit [] = Unit {0}
AllFit (m ∷ ms) = FitsMember m × AllFit ms

put_member-bytes :
    (out : List ℕ) (m : Member) → FitsMember m → put_member out m ≡ out ++ member_bytes m
unfolding put_member
put_member-bytes out m f = rw whole (simp append_assoc)
  where
    whole : length m.addr % 2 ^ 16 ≡ length m.addr
    whole = omega (arith, f.1)

module _ (front : List ℕ) (m : Member) (rest : List ℕ) (f : FitsMember m) where
  abbrev placed : List ℕ
  placed = front ++ (member_bytes m ++ rest)

  length-member_bytes : length (member_bytes m) ≡ 18 + length m.addr
  length-member_bytes = omega (
    arith,
    length-append (le_bytes 16 m.id) (le_bytes 2 (length m.addr) ++ m.addr),
    length-append (le_bytes 2 (length m.addr)) m.addr,
    length-le_bytes 16 m.id,
    length-le_bytes 2 (length m.addr),
  )

  length-placed : length placed ≡ length front + 18 + length m.addr + length rest
  length-placed = omega (
    arith,
    length-append front (member_bytes m ++ rest),
    length-append (member_bytes m) rest,
    length-member_bytes,
  )

  read_id : le_value (subspan placed (length front) 16) ≡ m.id
  read_id =
      ap (λ b. le_value (subspan (front ++ b) (length front) 16))
        (append_assoc (le_bytes 16 m.id) (le_bytes 2 (length m.addr) ++ m.addr) rest)
      ∙ ap le_value (subspan-middle front (le_bytes 16 m.id) _ _ 16 refl (length-le_bytes 16 m.id))
      ∙ le_value-le_bytes 16 m.id f.0

  length_to_size : length (front ++ le_bytes 16 m.id) ≡ length front + 16
  length_to_size = omega (arith, length-append front (le_bytes 16 m.id), length-le_bytes 16 m.id)

  read_size : le_value (subspan placed (length front + 16) 2) ≡ length m.addr
  read_size =
      ap (λ b. le_value (subspan b (length front + 16) 2)) by_size
      ∙ ap le_value (
          subspan-middle (front ++ le_bytes 16 m.id) (le_bytes 2 (length m.addr)) (m.addr ++ rest) _
            2 length_to_size (length-le_bytes 2 _))
      ∙ le_value-le_bytes 2 (length m.addr) f.1
    where
      by_size :
          placed ≡ (front ++ le_bytes 16 m.id) ++ (le_bytes 2 (length m.addr) ++ (m.addr ++ rest))
      by_size = simp append_assoc

  read_addr : subspan placed (length front + 16 + 2) (length m.addr) ≡ m.addr
  read_addr =
      ap (λ b. subspan b (length front + 16 + 2) (length m.addr)) by_addr
      ∙ subspan-middle (front ++ le_bytes 16 m.id ++ le_bytes 2 (length m.addr)) m.addr rest _ _
          (omega (
            arith,
            length_to_size,
            length-append (front ++ le_bytes 16 m.id) (le_bytes 2 (length m.addr)),
            length-le_bytes 2 (length m.addr),
          ))
          refl
    where
      by_addr :
          placed ≡ (front ++ le_bytes 16 m.id ++ le_bytes 2 (length m.addr)) ++ (m.addr ++ rest)
      by_addr = simp append_assoc

  -- One round of the loop.
  decode_members_from-step :
      (count : ℕ) (out : List Member)
      → decode_members_from placed (suc count) (length front) out
        ≡ decode_members_from placed count (length (front ++ member_bytes m)) (out ++ m ∷ [])
  unfolding decode_members_from
  decode_members_from-step count out =
      rw (read_id, read_size, read_addr, enough, enough')
        (ap (λ n. decode_members_from placed count n (out ++ m ∷ [])) next)
    where
      next : length front + 16 + 2 + length m.addr ≡ length (front ++ member_bytes m)
      next = omega (arith, length-append front (member_bytes m), length-member_bytes)

      enough : ltb (length placed) (length front + 16 + 2) ≡ false
      enough = ground (arith, length-placed)

      enough' : ltb (length placed) (length front + 16 + 2 + length m.addr) ≡ false
      enough' = ground (arith, length-placed)

abbrev members_bytes : List Member → List ℕ
members_bytes [] = []
members_bytes (m ∷ ms) = member_bytes m ++ members_bytes ms

decode_members_from-bytes :
    (ms : List Member) (front rest : List ℕ) (out : List Member)
    → AllFit ms
    → decode_members_from (front ++ (members_bytes ms ++ rest)) (length ms) (length front) out
      ≡ some (out ++ ms)
decode_members_from-bytes [] front rest out f =
    unfold decode_members_from in ap some (sym (append-nil out))
decode_members_from-bytes (m ∷ ms) front rest out f =
    ap (λ b. decode_members_from (front ++ b) (suc (length ms)) (length front) out)
      (append_assoc (member_bytes m) (members_bytes ms) rest)
    ∙ decode_members_from-step front m (members_bytes ms ++ rest) f.0 (length ms) out
    ∙ ap (λ b. decode_members_from b (length ms) (length (front ++ member_bytes m)) (out ++ m ∷ []))
        (sym (append_assoc front (member_bytes m) _))
    ∙ decode_members_from-bytes ms (front ++ member_bytes m) rest (out ++ m ∷ []) f.1
    ∙ ap some (append_assoc out (m ∷ []) ms)

foldl-put_member :
    (ms : List Member) (out : List ℕ)
    → AllFit ms
    → foldl put_member out ms ≡ out ++ members_bytes ms
foldl-put_member [] out f = sym (append-nil out)
foldl-put_member (m ∷ ms) out f =
    foldl-put_member ms (put_member out m) f.1
    ∙ ap (λ o. o ++ members_bytes ms) (put_member-bytes out m f.0)
    ∙ append_assoc out (member_bytes m) (members_bytes ms)

-- A member list that `put_member` wrote one by one is read back in full, whatever follows it: each
-- id is 16 bytes and each address shorter than 2 ^ 16.
pub decode_members-put_member :
    (ms : List Member) (rest : List ℕ)
    → AllFit ms
    → decode_members (foldl put_member [] ms ++ rest) (length ms) ≡ some ms
unfolding decode_members
decode_members-put_member ms rest f =
    rw (foldl-put_member ms [] f) (decode_members_from-bytes ms [] rest [] f)

abbrev pub lsns_bytes : List ℕ → List ℕ
lsns_bytes [] = []
lsns_bytes (v ∷ vs) = le_bytes 8 v ++ lsns_bytes vs

abbrev pub AllU64 : List ℕ → Type 0
AllU64 [] = Unit {0}
AllU64 (v ∷ vs) = (v < 256 ^ 8) × AllU64 vs

abbrev pub extents_bytes : List ExtentDesc → List ℕ
extents_bytes [] = []
extents_bytes (e ∷ es) = bytes_of e ++ extents_bytes es

abbrev pub AllFitPod : List ExtentDesc → Type 0
AllFitPod [] = Unit {0}
AllFitPod (e ∷ es) = FitsPod e × AllFitPod es

pub length-lsns_bytes : (vs : List ℕ) → length (lsns_bytes vs) ≡ length vs * 8
length-lsns_bytes [] = refl
length-lsns_bytes (v ∷ vs) =
    omega (
      arith,
      length-append (le_bytes 8 v) (lsns_bytes vs),
      length-le_bytes 8 v,
      length-lsns_bytes vs,
    )

pub copy_lsns-bytes :
    (vs rest : List ℕ) → AllU64 vs → copy_lsns (lsns_bytes vs ++ rest) (length vs) ≡ vs
unfolding copy_lsns
copy_lsns-bytes [] rest f = refl
copy_lsns-bytes (v ∷ vs) rest f = rw (append_assoc (le_bytes 8 v) (lsns_bytes vs) rest) (
    ap₂ ◌∷◌
      (ap le_value (take-append_length (le_bytes 8 v) _ 8 (length-le_bytes 8 v))
        ∙ le_value-le_bytes 8 v f.0)
      (ap (λ b. copy_lsns b (length vs))
          (drop-append_length (le_bytes 8 v) _ 8 (length-le_bytes 8 v))
        ∙ copy_lsns-bytes vs rest f.1))

length-extents_bytes : (es : List ExtentDesc) → length (extents_bytes es) ≡ length es * 24
length-extents_bytes [] = refl
length-extents_bytes (e ∷ es) = omega (
  arith,
  length-append (bytes_of e) (extents_bytes es),
  length-bytes_of e,
  length-extents_bytes es,
)

copy_extents-bytes :
    (es : List ExtentDesc) (rest : List ℕ)
    → AllFitPod es
    → copy_extents (extents_bytes es ++ rest) (length es) ≡ es
unfolding copy_extents
copy_extents-bytes [] rest f = refl
copy_extents-bytes (e ∷ es) rest f =
    ap (λ b. copy_extents b (suc (length es))) (append_assoc (bytes_of e) (extents_bytes es) rest)
    ∙ ap₂ ◌∷◌ (decode-bytes_of e (extents_bytes es ++ rest) f.0) (
        ap (λ b. copy_extents b (length es))
          (drop-append_length (bytes_of e) (extents_bytes es ++ rest) 24 (length-bytes_of e))
        ∙ copy_extents-bytes es rest f.1)

-- The dLSN list of a resolution reply and the extent table of a read reply are read back in full,
-- whatever follows them, and a body shorter than the count promises is refused.
pub decode_lists :
    (vs : List ℕ) (es : List ExtentDesc) (rest : List ℕ)
    → AllU64 vs
    → AllFitPod es
    → (decode_lsns (lsns_bytes vs ++ rest) (length vs) ≡ some vs)
      × (decode_extents (extents_bytes es ++ rest) (length es) ≡ some es)
      × ((body : List ℕ) (count : ℕ) → length body < count * 8 → decode_lsns body count ≡ none)
      × ((body : List ℕ) (count : ℕ) → length body < count * 24 → decode_extents body count ≡ none)
unfolding decode_lsns decode_extents
decode_lists vs es rest f g = (
  rw long (ap some (copy_lsns-bytes vs rest f)),
  rw long' (ap some (copy_extents-bytes es rest g)),
  (λ body count h. ground arith),
  (λ body count h. ground arith),
)
  where
    long : ltb (length (lsns_bytes vs ++ rest)) (length vs * 8) ≡ false
    long = ground (arith, length-append (lsns_bytes vs) rest, length-lsns_bytes vs)

    long' : ltb (length (extents_bytes es ++ rest)) (length es * 24) ≡ false
    long' = ground (arith, length-append (extents_bytes es) rest, length-extents_bytes es)
