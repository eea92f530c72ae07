-- ===== src/Wire/Frame.antt =====
-- Message framing (`parse_message`, `frame_message`).
pub mod RoundTrip
pub mod Prefix
use craft_client.Prelude.{
  ℕ, ◌+◌, ◌%◌, ◌^◌, ◌==◌, Bool, true, false, not, ◌&&◌, List, [], ◌++◌, ltb, if◌then◌else◌, length,
  take, drop, Option,
}
use craft_client.Prelude.Results.{Expected, ok, unexpected, ◌>>=◌, ◌>>◌}
use craft_client.Wire.Pod.{bytes_of, decode, size_of, le_bytes, le_value}
use craft_client.Wire.Layout.Headers.{MsgHdr, msg_hdr_pod}
use craft_client.Wire.Ops.{Op, op_code, op_hdr_size, op_allows_body}
use craft_client.Wire.Crc.{crc32c}

pub record DigestCfg : Type 0 where
  pub header : Bool
  pub body : Bool

pub data ParseError : Type 0 where
  incomplete unknown_op bad_length bad_digest : ParseError

pub record Message : Type 0 where
  pub hdr : MsgHdr
  pub op_header : List ℕ
  pub body : List ℕ
  pub total : ℕ

-- `span::subspan(off, n)`.
abbrev pub subspan : List ℕ → ℕ → ℕ → List ℕ
subspan buf off n = take n (drop off buf)

abbrev pub digest_size : Bool → ℕ
digest_size on = if on then 4 else 0

abbrev pub check : Bool → ParseError → Expected ParseError Unit
check true e = ok tt
check false e = unexpected e

-- A u32 digest that covers `covered` and stands at `at` matches, where the framing carries it.
abbrev pub digest_matches : Bool → List ℕ → ℕ → List ℕ → Bool
digest_matches false buf off covered = true
digest_matches true buf off covered = le_value (subspan buf off 4) == crc32c covered

abbrev pub known_op : Option ℕ → Expected ParseError ℕ
known_op o = elim o [ Option.none ↦ unexpected unknown_op | Option.some n ↦ ok n ]

-- From the lengths on, with the size of the operation header known.
unfoldable pub parse_sized : ℕ → MsgHdr → List ℕ → ℕ → DigestCfg → Expected ParseError Message
parse_sized ohs hdr buf max_tx dg = do
  check (not (ltb max_tx hdr.body_len)) bad_length
  check (not (ltb 0 hdr.body_len && not (op_allows_body hdr.op))) bad_length
  let hdr_end = size_of MsgHdr + ohs
  let body_start = hdr_end + digest_size dg.header
  let total = body_start + hdr.body_len + digest_size dg.body
  check (not (ltb (length buf) total)) incomplete
  check (digest_matches dg.header buf hdr_end (subspan buf 0 hdr_end)) bad_digest
  check
      (digest_matches dg.body buf (body_start + hdr.body_len) (subspan buf body_start hdr.body_len))
      bad_digest
  ok (record {
    hdr = hdr;
    op_header = subspan buf (size_of MsgHdr) ohs;
    body = subspan buf body_start hdr.body_len;
    total = total;
  })

-- From the op code on, with the message header copied out.
unfoldable pub parse_headed : MsgHdr → List ℕ → ℕ → DigestCfg → Expected ParseError Message
parse_headed hdr buf max_tx dg = do
  ohs ← known_op (op_hdr_size hdr.op)
  parse_sized ohs hdr buf max_tx dg

unfoldable pub parse_message : List ℕ → ℕ → DigestCfg → Expected ParseError Message
parse_message buf max_tx dg = do
  check (not (ltb (length buf) (size_of MsgHdr))) incomplete
  parse_headed (decode MsgHdr buf) buf max_tx dg

abbrev pub digest : Bool → List ℕ → List ℕ
digest on covered = if on then le_bytes 4 (crc32c covered) else []

unfoldable pub frame_message : List ℕ → Op → ℕ → ℕ → List ℕ → List ℕ → DigestCfg → List ℕ
frame_message out o status_code request_id op_header body dg =
    let start = length out in
    let h : MsgHdr = record {
      op = op_code o;
      status = status_code;
      request_id = request_id;
      body_len = length body % 2 ^ 32;
    } in
    let out' = out ++ bytes_of h ++ op_header in
    let out'' = out' ++ digest dg.header (drop start out') in out'' ++ body ++ digest dg.body body
