-- ===== src/Wire/Frame/RoundTrip.antt =====
-- What `frame_message` writes, `parse_message` reads.
use craft_client.Prelude.{
  ℕ, ◌+◌, ◌%◌, ◌^◌, ◌≤◌, ◌<◌, ◌==◌, ◌≡◌, refl, sym, ap, ◌∙◌, ◌⊎◌, Bool, true, false, not, ◌&&◌,
  some, List, [], ◌++◌, append_assoc, append-nil, ltb, length, length-append, take, drop, arith,
}
use craft_client.Prelude.Results.{ok}
use craft_client.Wire.Pod.{
  bytes_of, decode, le_bytes, FitsPod, length-bytes_of, decode-bytes_of, take-append_length,
  drop-append_length, length-le_bytes, le_value-le_bytes,
}
use craft_client.Wire.Layout.Headers.{MsgHdr, msg_hdr_pod}
use craft_client.Wire.Ops.{Op, op_code, op_hdr_size, op_allows_body}
use craft_client.Wire.Crc.{crc32c, crc32c-lt}
use craft_client.Wire.Frame.{
  DigestCfg, parse_message, parse_headed, parse_sized, frame_message, subspan, digest, digest_size,
  digest_matches,
}

pub subspan-middle :
    (xs ys zs : List ℕ) (off n : ℕ)
    → length xs ≡ off
    → length ys ≡ n
    → subspan (xs ++ (ys ++ zs)) off n ≡ ys
subspan-middle xs ys zs off n h k =
    ap (take n) (drop-append_length xs (ys ++ zs) off h) ∙ take-append_length ys zs n k

length-digest : (on : Bool) (covered : List ℕ) → length (digest on covered) ≡ digest_size on
length-digest true covered = length-le_bytes 4 _
length-digest false covered = refl

digest_matches-digest :
    (on : Bool) (front covered rest : List ℕ) (off : ℕ)
    → length front ≡ off
    → digest_matches on (front ++ (digest on covered ++ rest)) off covered ≡ true
digest_matches-digest false front covered rest off h = refl
digest_matches-digest true front covered rest off h =
    rw (subspan-middle front (le_bytes 4 (crc32c covered)) rest off 4 h (length-le_bytes 4 _))
      (rw (le_value-le_bytes 4 (crc32c covered) (crc32c-lt covered)) (==-refl (crc32c covered)))
  where
    ==-refl : (n : ℕ) → (n == n) ≡ true
    ==-refl n = ground arith

-- `parse_sized` on a buffer whose parts are known.
parse_sized-parts :
    (ohs : ℕ) (hdr : MsgHdr) (buf : List ℕ) (max_tx : ℕ) (dg : DigestCfg)
    (covered op_header body : List ℕ)
    → hdr.body_len ≤ max_tx
    → (hdr.body_len ≡ 0) ⊎ (op_allows_body hdr.op ≡ true)
    → 8 + ohs + digest_size dg.header + hdr.body_len + digest_size dg.body ≤ length buf
    → subspan buf 0 (8 + ohs) ≡ covered
    → subspan buf 8 ohs ≡ op_header
    → subspan buf (8 + ohs + digest_size dg.header) hdr.body_len ≡ body
    → digest_matches dg.header buf (8 + ohs) covered ≡ true
    → digest_matches dg.body buf (8 + ohs + digest_size dg.header + hdr.body_len) body ≡ true
    → parse_sized ohs hdr buf max_tx dg
      ≡ ok (record {
        hdr = hdr;
        op_header = op_header;
        body = body;
        total = 8 + ohs + digest_size dg.header + hdr.body_len + digest_size dg.body;
      })
unfolding parse_sized
parse_sized-parts ohs hdr buf max_tx dg covered op_header body small allowed fits c o b dh db =
    rw (c, o, b, dh, db, small', allowed', fits') refl
  where
    small' : ltb max_tx hdr.body_len ≡ false
    small' = ground arith

    allowed' : (ltb 0 hdr.body_len && not (op_allows_body hdr.op)) ≡ false
    allowed' = ground arith

    fits' :
        ltb (length buf) (8 + ohs + digest_size dg.header + hdr.body_len + digest_size dg.body)
        ≡ false
    fits' = ground arith

pub parse_message-headed :
    (buf : List ℕ) (hdr : MsgHdr) (max_tx : ℕ) (dg : DigestCfg)
    → 8 ≤ length buf
    → decode MsgHdr buf ≡ hdr
    → parse_message buf max_tx dg ≡ parse_headed hdr buf max_tx dg
unfolding parse_message
parse_message-headed buf hdr max_tx dg long e = rw long' (ap (λ h. parse_headed h buf max_tx dg) e)
  where
    long' : ltb (length buf) 8 ≡ false
    long' = ground arith

module _ (hdr : MsgHdr) (op_header body rest : List ℕ) (dg : DigestCfg) where
  -- [msg_hdr][op_header]
  abbrev head : List ℕ
  head = bytes_of hdr ++ op_header

  -- One message and what follows it.
  abbrev pub framed : List ℕ
  framed = head ++ (digest dg.header head ++ (body ++ (digest dg.body body ++ rest)))

  abbrev pub total : ℕ
  total = 8 + length op_header + digest_size dg.header + hdr.body_len + digest_size dg.body

  length-head : length head ≡ 8 + length op_header
  length-head = omega (arith, length-append (bytes_of hdr) op_header, length-bytes_of hdr)

  framed-body : framed ≡ (head ++ digest dg.header head) ++ (body ++ (digest dg.body body ++ rest))
  framed-body = sym (append_assoc head _ _)

  framed-trailer :
      framed ≡ ((head ++ digest dg.header head) ++ body) ++ (digest dg.body body ++ rest)
  framed-trailer = framed-body ∙ sym (append_assoc (head ++ digest dg.header head) body _)

  length_to_body :
      length (head ++ digest dg.header head) ≡ 8 + length op_header + digest_size dg.header
  length_to_body =
      omega (
        arith,
        length-append head (digest dg.header head),
        length-head,
        length-digest dg.header head,
      )

  length_to_trailer :
      length ((head ++ digest dg.header head) ++ body)
      ≡ 8 + length op_header + digest_size dg.header + length body
  length_to_trailer =
      omega (arith, length-append (head ++ digest dg.header head) body, length_to_body)

  pub length-framed : length body ≡ hdr.body_len → length framed ≡ total + length rest
  length-framed sized = rw framed-trailer (
      omega (
        arith,
        length-append ((head ++ digest dg.header head) ++ body) (digest dg.body body ++ rest),
        length-append (digest dg.body body) rest,
        length-digest dg.body body,
        length_to_trailer,
      ))

  pub decode-framed : FitsPod hdr → decode MsgHdr framed ≡ hdr
  decode-framed fits =
      ap (decode MsgHdr) (append_assoc (bytes_of hdr) op_header _) ∙ decode-bytes_of hdr _ fits

  parse_sized-framed :
      (max_tx : ℕ)
      → length body ≡ hdr.body_len
      → hdr.body_len ≤ max_tx
      → (hdr.body_len ≡ 0) ⊎ (op_allows_body hdr.op ≡ true)
      → parse_sized (length op_header) hdr framed max_tx dg
        ≡ ok (record { hdr = hdr; op_header = op_header; body = body; total = total })
  parse_sized-framed max_tx sized small allowed =
      parse_sized-parts (length op_header) hdr framed max_tx dg head op_header body small allowed
        (omega (arith, length-framed sized)) (take-append_length head _ _ length-head)
        (ap (λ b. subspan b 8 (length op_header)) (append_assoc (bytes_of hdr) op_header _)
          ∙ subspan-middle (bytes_of hdr) op_header _ 8 _ (length-bytes_of hdr) refl)
        (ap (λ b. subspan b (8 + length op_header + digest_size dg.header) hdr.body_len) framed-body
          ∙ subspan-middle (head ++ digest dg.header head) body _ _ _ length_to_body sized)
        (digest_matches-digest dg.header head head _ _ length-head)
        (ap
            (λ b.
              digest_matches dg.body b (8 + length op_header + digest_size dg.header + hdr.body_len)
                body)
            framed-trailer
          ∙ digest_matches-digest dg.body _ body rest _ (omega (arith, length_to_trailer)))

  pub parse_message-framed :
      (max_tx : ℕ)
      → FitsPod hdr
      → op_hdr_size hdr.op ≡ some (length op_header)
      → length body ≡ hdr.body_len
      → hdr.body_len ≤ max_tx
      → (hdr.body_len ≡ 0) ⊎ (op_allows_body hdr.op ≡ true)
      → parse_message framed max_tx dg
        ≡ ok (record { hdr = hdr; op_header = op_header; body = body; total = total })
  unfolding parse_headed
  parse_message-framed max_tx fits known sized small allowed =
      parse_message-headed framed hdr max_tx dg (omega (arith, length-framed sized))
        (decode-framed fits)
      ∙ (rw known (parse_sized-framed max_tx sized small allowed))

regroup :
    (out h op_header d body e rest : List ℕ)
    → out ++ h ++ op_header ++ d ++ body ++ e ++ rest
      ≡ out ++ ((h ++ op_header) ++ (d ++ (body ++ (e ++ rest))))
regroup out h op_header d body e rest = simp append_assoc

abbrev pub header_of : Op → ℕ → ℕ → List ℕ → MsgHdr
header_of o status_code request_id body = record {
  op = op_code o;
  status = status_code;
  request_id = request_id;
  body_len = length body;
}

-- `frame_message` appends one message.
pub frame_message-framed :
    (out : List ℕ) (o : Op) (status_code request_id : ℕ) (op_header body rest : List ℕ)
    (dg : DigestCfg)
    → length body < 2 ^ 32
    → frame_message out o status_code request_id op_header body dg ++ rest
      ≡ out ++ framed (header_of o status_code request_id body) op_header body rest dg
unfolding frame_message
frame_message-framed out o status_code request_id op_header body rest dg short =
    rw (whole, written)
      (regroup out _ op_header (digest dg.header _) body (digest dg.body body) rest)
  where
    whole : length body % 2 ^ 32 ≡ length body
    whole = omega arith

    written :
        drop (length out) (out ++ bytes_of (header_of o status_code request_id body) ++ op_header)
        ≡ bytes_of (header_of o status_code request_id body) ++ op_header
    written =
        ap (drop (length out)) (append_assoc out _ op_header)
        ∙ drop-append_length out _ (length out) refl

pub op_code-lt : (o : Op) → op_code o < 256
unfolding op_code
op_code-lt o = ground arith

-- A message that `frame_message` wrote is read back whole: the header fields, the operation header
-- and the body as they were given, and as `total` the message's own length, whatever bytes follow
-- it and whichever digests the framing carries. The status and the request id fit their fields, the
-- operation header has the size of its op, and the body is within `max_tx` and empty where the op
-- carries none.
pub parse_message-frame_message :
    (o : Op) (status_code request_id max_tx : ℕ) (op_header body rest : List ℕ) (dg : DigestCfg)
    → status_code < 256
    → request_id < 2 ^ 16
    → op_hdr_size (op_code o) ≡ some (length op_header)
    → length body ≤ max_tx
    → max_tx < 2 ^ 32
    → (length body ≡ 0) ⊎ (op_allows_body (op_code o) ≡ true)
    → let frame = frame_message [] o status_code request_id op_header body dg in
      parse_message (frame ++ rest) max_tx dg
      ≡ ok (record {
        hdr = header_of o status_code request_id body;
        op_header = op_header;
        body = body;
        total = length frame;
      })
parse_message-frame_message o st rid max_tx op_header body rest dg s r known small bound allowed =
    rw (frame_message-framed [] o st rid op_header body rest dg short) (
      parse_message-framed hdr op_header body rest dg max_tx
        (op_code-lt o, (omega arith, (omega arith, (omega arith, tt)))) known refl small allowed
      ∙ ap (λ n. ok (record { hdr = hdr; op_header = op_header; body = body; total = n }))
          (sym frame_length))
  where
    hdr : MsgHdr
    hdr = header_of o st rid body

    short : length body < 2 ^ 32
    short = omega arith

    frame_length :
        length (frame_message [] o st rid op_header body dg) ≡ total hdr op_header body [] dg
    frame_length = omega (
      arith,
      ap length (append-nil (frame_message [] o st rid op_header body dg)),
      ap length (frame_message-framed [] o st rid op_header body [] dg short),
      length-framed hdr op_header body [] dg refl,
    )
