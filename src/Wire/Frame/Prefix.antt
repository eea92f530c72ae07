-- ===== src/Wire/Frame/Prefix.antt =====
-- A reader that has part of a message waits for the rest.
use craft_client.Prelude.{
  ℕ, zero, suc, ◌+◌, ◌^◌, ◌≤◌, ◌<◌, ◌≡◌, refl, sym, ap, ap₂, ◌∙◌, ◌⊎◌, inl, inr, true, false, not,
  ◌&&◌, some, List, [], ◌∷◌, ◌++◌, append-nil, ltb, length, length-append, take, drop, arith,
}
use craft_client.Prelude.Results.{unexpected}
use craft_client.Wire.Pod.{decode_fields, sum, decode, le_value}
use craft_client.Wire.Layout.Headers.{MsgHdr, msg_hdr_pod}
use craft_client.Wire.Ops.{Op, op_code, op_hdr_size, op_allows_body}
use craft_client.Wire.Frame.{
  DigestCfg, incomplete, parse_message, parse_headed, parse_sized, frame_message, digest_size,
}
use craft_client.Wire.Frame.RoundTrip.{
  framed, total, length-framed, decode-framed, header_of, frame_message-framed,
  parse_message-headed, op_code-lt,
}

take_front {ℓ} :
    {A : Type ℓ} (n : ℕ) (xs ys : List A) → n ≤ length xs → take n (xs ++ ys) ≡ take n xs
take_front zero xs ys h = refl
take_front (suc n) [] ys h = absurd (omega arith)
take_front (suc n) (x ∷ xs) ys h = ap (◌∷◌ x) (take_front n xs ys (omega arith))

drop_front {ℓ} :
    {A : Type ℓ} (n : ℕ) (xs ys : List A) → n ≤ length xs → drop n (xs ++ ys) ≡ drop n xs ++ ys
drop_front zero xs ys h = refl
drop_front (suc n) [] ys h = absurd (omega arith)
drop_front (suc n) (x ∷ xs) ys h = drop_front n xs ys (omega arith)

length-drop {ℓ} :
    {A : Type ℓ} (n : ℕ) (xs : List A) → length (drop n xs) + n ≡ length xs ⊎ (length xs ≤ n)
length-drop zero xs = inl (omega arith)
length-drop (suc n) [] = inr (omega arith)
length-drop (suc n) (x ∷ xs) = ground (arith, length-drop n xs)

-- The fields of a struct come from its own bytes.
decode_fields-front :
    (ws xs ys : List ℕ) → sum ws ≤ length xs → decode_fields ws (xs ++ ys) ≡ decode_fields ws xs
unfolding decode_fields
decode_fields-front [] xs ys h = refl
decode_fields-front (w ∷ ws) xs ys h = ap₂ ◌∷◌ (ap le_value (take_front w xs ys (omega arith))) (
    ap (decode_fields ws) (drop_front w xs ys (omega arith))
    ∙ decode_fields-front ws (drop w xs) ys (ground (arith, length-drop w xs)))

parse_message_short :
    (buf : List ℕ) (max_tx : ℕ) (dg : DigestCfg)
    → length buf < 8
    → parse_message buf max_tx dg ≡ unexpected incomplete
unfolding parse_message
parse_message_short buf max_tx dg h = rw short refl
  where
    short : ltb (length buf) 8 ≡ true
    short = ground arith

parse_headed_short :
    (hdr : MsgHdr) (buf : List ℕ) (ohs max_tx : ℕ) (dg : DigestCfg)
    → op_hdr_size hdr.op ≡ some ohs
    → hdr.body_len ≤ max_tx
    → (hdr.body_len ≡ 0) ⊎ (op_allows_body hdr.op ≡ true)
    → length buf < 8 + ohs + digest_size dg.header + hdr.body_len + digest_size dg.body
    → parse_headed hdr buf max_tx dg ≡ unexpected incomplete
unfolding parse_headed parse_sized
parse_headed_short hdr buf ohs max_tx dg known small allowed h =
    rw known (rw (small', allowed', h') refl)
  where
    small' : ltb max_tx hdr.body_len ≡ false
    small' = ground arith

    allowed' : (ltb 0 hdr.body_len && not (op_allows_body hdr.op)) ≡ false
    allowed' = ground arith

    h' :
        ltb (length buf) (8 + ohs + digest_size dg.header + hdr.body_len + digest_size dg.body)
        ≡ true
    h' = ground arith

-- Every proper prefix of a written message is answered by `incomplete`: a reader that feeds the
-- bytes as they arrive neither resets on a partial message nor accepts one early.
pub parse_message_prefix :
    (o : Op) (status_code request_id max_tx : ℕ) (op_header body front : List ℕ) (x : ℕ)
    (back : List ℕ) (dg : DigestCfg)
    → status_code < 256
    → request_id < 2 ^ 16
    → op_hdr_size (op_code o) ≡ some (length op_header)
    → length body ≤ max_tx
    → max_tx < 2 ^ 32
    → (length body ≡ 0) ⊎ (op_allows_body (op_code o) ≡ true)
    → frame_message [] o status_code request_id op_header body dg ≡ front ++ x ∷ back
    → parse_message front max_tx dg ≡ unexpected incomplete
parse_message_prefix o st rid max_tx op_header body front x back dg s r known small bound allowed
      e =
    elim (dec_long (length front)) [
      | inl short ↦ parse_message_short front max_tx dg short
      | inr long ↦
          parse_message-headed front hdr max_tx dg long (decoded long)
          ∙ parse_headed_short hdr front (length op_header) max_tx dg known small allowed in_front
    ]
  where
    dec_long : (n : ℕ) → (n < 8) ⊎ (8 ≤ n)
    dec_long n = ground arith

    hdr : MsgHdr
    hdr = header_of o st rid body

    whole : framed hdr op_header body [] dg ≡ front ++ x ∷ back
    whole =
        sym (frame_message-framed [] o st rid op_header body [] dg (omega arith))
        ∙ append-nil (frame_message [] o st rid op_header body dg)
        ∙ e

    in_front : length front < total hdr op_header body [] dg
    in_front = omega (
      arith,
      ap length whole,
      length-append front (x ∷ back),
      length-framed hdr op_header body [] dg refl,
    )

    decoded : 8 ≤ length front → decode MsgHdr front ≡ hdr
    decoded long =
        ap (msg_hdr_pod.build)
          (sym (decode_fields-front (1 ∷ 1 ∷ 2 ∷ 4 ∷ []) front (x ∷ back) long))
        ∙ ap (decode MsgHdr) (sym whole)
        ∙ decode-framed hdr op_header body [] dg
            (op_code-lt o, (omega arith, (omega arith, (omega arith, tt))))
