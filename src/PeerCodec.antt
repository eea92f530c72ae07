-- ===== src/PeerCodec.antt =====
-- The bodies of the peer messages (include/craft/peer.hpp, src/peer_codec.cpp).
-- The file's own packed structs have the fields and the layout of those of the wire.
pub mod RoundTrip
pub mod FetchData
pub mod Fetch
mod Tests
use craft_client.Prelude.{
  ℕ, zero, suc, ◌+◌, ◌-◌, ◌*◌, ◌%◌, ◌^◌, Bool, true, false, not, ◌&&◌, ◌||◌, Option, none, some,
  List, [], ◌∷◌, ◌++◌, map, ltb, ◌==◌, if◌then◌else◌, length, take, drop,
}
use craft_client.Prelude.Results.{Expected, ok, unexpected, ◌>>=◌}
use craft_client.Types.{Lsn, LsnPair}
use craft_client.Wire.Pod.{bytes_of, decode, size_of, sum, le_bytes}
use craft_client.Wire.Body.{copy_lsns}
use craft_client.Wire.Layout.Peer.{
  GetRsCommitLsnReq, GetRsCommitLsnRsp, FetchDataReq, FetchSlotDesc, FetchDataRsp,
  get_rs_commit_lsn_req_pod, get_rs_commit_lsn_rsp_pod, fetch_data_req_pod, fetch_slot_desc_pod,
  fetch_data_rsp_pod,
}

pub data DecodeError : Type 0 where
  truncated malformed : DecodeError

-- `iovs` are the buffers that the scatter/gather list names.
pub record JournalSlot : Type 0 where
  pub lsn : Lsn
  pub is_empty : Bool
  pub all_zeros : Bool
  pub lba : ℕ
  pub len : ℕ
  pub iovs : List (List ℕ)

-- The 64 bits of an lsn, and back: 0 is the code's -1.
abbrev pub to_bits : Lsn → ℕ
to_bits n = (n + (2 ^ 64 - 1)) % 2 ^ 64

abbrev pub of_bits : ℕ → Lsn
of_bits b = (b + 1) % 2 ^ 64

abbrev pub byte : Bool → ℕ
byte b = if b then 1 else 0

unfoldable pub encode_get_rs_commit_lsn_req : ℕ → Bool → List ℕ
encode_get_rs_commit_lsn_req term is_login =
    let w : GetRsCommitLsnReq = record { term = term; is_login = byte is_login; reserved = 0 } in
    bytes_of w

unfoldable pub decode_get_rs_commit_lsn_req : List ℕ → Expected DecodeError (ℕ × Bool)
decode_get_rs_commit_lsn_req bytes =
    let w = decode GetRsCommitLsnReq bytes in
    if ltb (length bytes) (size_of GetRsCommitLsnReq)
    then unexpected truncated
    else ok (w.term, not (w.is_login == 0))

unfoldable pub encode_get_rs_commit_lsn_rsp : LsnPair → List ℕ
encode_get_rs_commit_lsn_rsp lsns =
    let w : GetRsCommitLsnRsp = record {
      commit_lsn = to_bits lsns.commit_lsn;
      last_append_lsn = to_bits lsns.last_append_lsn;
    } in
    bytes_of w

unfoldable pub decode_get_rs_commit_lsn_rsp : List ℕ → Expected DecodeError LsnPair
decode_get_rs_commit_lsn_rsp bytes =
    let w = decode GetRsCommitLsnRsp bytes in
    if ltb (length bytes) (size_of GetRsCommitLsnRsp)
    then unexpected truncated
    else ok
        (record { commit_lsn = of_bits w.commit_lsn; last_append_lsn = of_bits w.last_append_lsn })

-- `memcpy` of the lsns.
abbrev pub lsns_out : List Lsn → List ℕ
lsns_out [] = []
lsns_out (d ∷ ds) = le_bytes 8 (to_bits d) ++ lsns_out ds

unfoldable pub encode_fetch_data_req : List Lsn → List ℕ
encode_fetch_data_req lsns =
    let h : FetchDataReq = record { lsn_count = length lsns % 2 ^ 32; reserved = 0 } in
    bytes_of h ++ lsns_out lsns

unfoldable pub decode_fetch_data_req : List ℕ → Expected DecodeError (List Lsn)
decode_fetch_data_req bytes =
    let h = decode FetchDataReq bytes in
    let data_sz = h.lsn_count * 8 in
    if ltb (length bytes) (size_of FetchDataReq)
    then unexpected truncated
    else if ltb (length bytes) (size_of FetchDataReq + data_sz)
    then unexpected truncated
    else ok (map of_bits (copy_lsns (drop (size_of FetchDataReq) bytes) h.lsn_count))

-- A slot's payload, which an empty and an all-zero slot do not send.
abbrev pub payload : JournalSlot → List (List ℕ)
payload s = if not s.is_empty && not s.all_zeros then s.iovs else []

abbrev pub data_size : List (List ℕ) → ℕ
data_size [] = 0
data_size (iov ∷ iovs) = length iov + data_size iovs

abbrev pub desc_of : JournalSlot → FetchSlotDesc
desc_of s = record {
  lsn = to_bits s.lsn;
  lba = s.lba;
  len = s.len;
  byte_len = data_size (payload s) % 2 ^ 64;
  is_empty = byte s.is_empty;
  all_zeros = byte s.all_zeros;
  reserved = 0;
}

abbrev pub descs_out : List JournalSlot → List ℕ
descs_out [] = []
descs_out (s ∷ slots) = bytes_of (desc_of s) ++ descs_out slots

-- A blob's length is a `uint32_t`.
abbrev pub blob_of : List ℕ → List ℕ
blob_of iov = take (length iov % 2 ^ 32) iov

abbrev pub blobs_of : List JournalSlot → List (List ℕ)
blobs_of [] = []
blobs_of (s ∷ slots) = map blob_of (payload s) ++ blobs_of slots

pub record FetchDataRspEncoded : Type 0 where
  pub header : List ℕ
  pub data_blobs : List (List ℕ)

unfoldable pub encode_fetch_data_rsp : List JournalSlot → FetchDataRspEncoded
encode_fetch_data_rsp slots =
    let rh : FetchDataRsp = record { slot_count = length slots % 2 ^ 32; reserved = 0 } in
    record { header = bytes_of rh ++ descs_out slots; data_blobs = blobs_of slots }

abbrev pub concat : List (List ℕ) → List ℕ
concat [] = []
concat (b ∷ bs) = b ++ concat bs

-- `blobs()`, sent one after the other; the header's blob has its length as a `uint32_t`.
abbrev pub sent : FetchDataRspEncoded → List ℕ
sent e = blob_of e.header ++ concat e.data_blobs

abbrev pub read_slot : FetchSlotDesc → List ℕ → JournalSlot
read_slot d bytes = record {
  lsn = of_bits d.lsn;
  is_empty = not (d.is_empty == 0);
  all_zeros = not (d.all_zeros == 0);
  lba = d.lba;
  len = d.len;
  iovs = if ltb 0 d.byte_len then take d.byte_len bytes ∷ [] else [];
}

abbrev pub then_cons :
    JournalSlot → Expected DecodeError (List JournalSlot) → Expected DecodeError (List JournalSlot)
then_cons s (ok slots) = ok (s ∷ slots)
then_cons s (unexpected e) = unexpected e

-- The loop: `count` descriptors are still to be read at `descs`, and `data` is the blob from
-- `data_offset` on.
unfoldable pub decode_slots : ℕ → List ℕ → List ℕ → Expected DecodeError (List JournalSlot)
decode_slots zero descs bytes = ok []
decode_slots (suc count) descs bytes =
    let d = decode FetchSlotDesc descs in
    let rest = decode_slots count (drop (size_of FetchSlotDesc) descs) (drop d.byte_len bytes) in
    if ltb 0 d.byte_len && ltb (length bytes) d.byte_len
    then unexpected malformed
    else then_cons (read_slot d bytes) rest

unfoldable pub decode_fetch_data_rsp : List ℕ → Expected DecodeError (List JournalSlot)
decode_fetch_data_rsp blob =
    let rh = decode FetchDataRsp blob in
    let desc_bytes = rh.slot_count * size_of FetchSlotDesc in
    let descs = drop (size_of FetchDataRsp) blob in
    if ltb (length blob) (size_of FetchDataRsp)
    then unexpected truncated
    else if ltb (length blob) (size_of FetchDataRsp + desc_bytes)
    then unexpected truncated
    else decode_slots rh.slot_count descs (drop desc_bytes descs)
