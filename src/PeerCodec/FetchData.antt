-- ===== src/PeerCodec/FetchData.antt =====
-- The reply to a fetch: what a peer decodes is what was encoded.
use craft_client.Prelude.{
  ℕ, zero, suc, ◌+◌, ◌*◌, ◌%◌, ◌^◌, ◌<◌, ◌≡◌, refl, ap, ap₂, sym, ◌∙◌, false, ◌&&◌, List, [], ◌∷◌,
  ◌++◌, map, ltb, if◌then◌else◌, length, take, drop, length-append, append_assoc, arith,
}
use craft_client.Prelude.Results.{Expected, ok, unexpected}
use craft_client.Wire.Pod.{
  bytes_of, decode-bytes_of, length-bytes_of, take-append_length, drop-append_length, FitsPod,
}
use craft_client.Wire.Layout.Peer.{
  FetchSlotDesc, FetchDataRsp, get_rs_commit_lsn_req_pod, get_rs_commit_lsn_rsp_pod,
  fetch_data_req_pod, fetch_slot_desc_pod, fetch_data_rsp_pod,
}
use craft_client.PeerCodec.RoundTrip.{of_bits-to_bits, byte_back, byte-lt}
use craft_client.PeerCodec.{
  DecodeError, truncated, malformed, JournalSlot, payload, data_size, desc_of, descs_out, blob_of,
  blobs_of, encode_fetch_data_rsp, concat, sent, read_slot, then_cons, decode_slots,
  decode_fetch_data_rsp,
}

abbrev pub AllShort : List (List ℕ) → Type 0
AllShort [] = Unit {0}
AllShort (iov ∷ iovs) = (length iov < 2 ^ 32) × AllShort iovs

abbrev pub FitsSlot : JournalSlot → Type 0
FitsSlot s =
    (s.lsn < 2 ^ 64)
    × (s.lba < 2 ^ 64)
    × (s.len < 2 ^ 32)
    × (data_size (payload s) < 2 ^ 64)
    × AllShort (payload s)

abbrev pub AllFitSlot : List JournalSlot → Type 0
AllFitSlot [] = Unit {0}
AllFitSlot (s ∷ slots) = FitsSlot s × AllFitSlot slots

length-descs_out : (slots : List JournalSlot) → length (descs_out slots) ≡ length slots * 32
length-descs_out [] = refl
length-descs_out (s ∷ slots) = omega (
  arith,
  length-append (bytes_of (desc_of s)) (descs_out slots),
  length-bytes_of (desc_of s),
  length-descs_out slots,
)

-- What the reader has of a slot: its payload is in one buffer, and there is none where it is empty.
abbrev pub joined : List (List ℕ) → List (List ℕ)
joined iovs = if ltb 0 (data_size iovs) then concat iovs ∷ [] else []

abbrev pub read_back : JournalSlot → JournalSlot
read_back s = record s { iovs = joined (payload s) }

take_all : (bs : List ℕ) (n : ℕ) → n ≡ length bs → take n bs ≡ bs
take_all [] zero h = refl
take_all [] (suc n) h = refl
take_all (b ∷ bs) zero h = absurd (omega arith)
take_all (b ∷ bs) (suc n) h = ap (λ r. b ∷ r) (take_all bs n (omega arith))

concat-blobs : (iovs : List (List ℕ)) → AllShort iovs → concat (map blob_of iovs) ≡ concat iovs
concat-blobs [] a = refl
concat-blobs (iov ∷ iovs) a =
    ap₂ (λ x y. x ++ y) (take_all iov (length iov % 2 ^ 32) (omega (arith, a.0)))
      (concat-blobs iovs a.1)

concat-append : (xs ys : List (List ℕ)) → concat (xs ++ ys) ≡ concat xs ++ concat ys
concat-append [] ys = refl
concat-append (x ∷ xs) ys =
    ap (λ r. x ++ r) (concat-append xs ys) ∙ sym (append_assoc x (concat xs) (concat ys))

length-concat : (iovs : List (List ℕ)) → length (concat iovs) ≡ data_size iovs
length-concat [] = refl
length-concat (iov ∷ iovs) = omega (arith, length-append iov (concat iovs), length-concat iovs)

-- One descriptor, with its payload in front of the others'.
read_slot-desc_of :
    (s : JournalSlot) (rest : List ℕ)
    → FitsSlot s
    → read_slot (desc_of s) (concat (payload s) ++ rest) ≡ read_back s
read_slot-desc_of s rest f =
    rw
      (
        of_bits-to_bits s.lsn f.0,
        byte_back s.is_empty,
        byte_back s.all_zeros,
        whole,
        take-append_length (concat (payload s)) rest (data_size (payload s))
            (length-concat (payload s)),
      )
      refl
  where
    whole : data_size (payload s) % 2 ^ 64 ≡ data_size (payload s)
    whole = omega (arith, f.3)

desc_of-Fits : (s : JournalSlot) → FitsSlot s → FitsPod (desc_of s)
desc_of-Fits s f = (
  omega arith,
  (
    omega (arith, f.1),
    (
      omega (arith, f.2),
      (omega arith, (byte-lt s.is_empty, (byte-lt s.all_zeros, (omega arith, tt)))),
    ),
  ),
)

blobs-split :
    (s : JournalSlot) (slots : List JournalSlot) (rest : List ℕ)
    → AllShort (payload s)
    → concat (blobs_of (s ∷ slots)) ++ rest
      ≡ concat (payload s) ++ (concat (blobs_of slots) ++ rest)
blobs-split s slots rest a =
    ap (λ b. b ++ rest)
      (concat-append (map blob_of (payload s)) (blobs_of slots)
        ∙ ap (λ b. b ++ concat (blobs_of slots)) (concat-blobs (payload s) a))
    ∙ append_assoc (concat (payload s)) (concat (blobs_of slots)) rest

decode_slots-out :
    (slots : List JournalSlot) (after rest : List ℕ)
    → AllFitSlot slots
    → decode_slots (length slots) (descs_out slots ++ after) (concat (blobs_of slots) ++ rest)
      ≡ ok (map read_back slots)
unfolding decode_slots
decode_slots-out [] after rest f = refl
decode_slots-out (s ∷ slots) after rest f =
    ap₂ (decode_slots (suc (length slots)))
      (append_assoc (bytes_of (desc_of s)) (descs_out slots) after) (blobs-split s slots rest f.0.4)
    ∙ ap (step (bytes_of (desc_of s) ++ behind) (concat (payload s) ++ later))
        (decode-bytes_of (desc_of s) behind (desc_of-Fits s f.0))
    ∙ rw enough (
        ap₂ then_cons (read_slot-desc_of s later f.0) (
          ap₂ (decode_slots (length slots))
            (drop-append_length (bytes_of (desc_of s)) behind 32 (length-bytes_of (desc_of s)))
            (drop-append_length (concat (payload s)) later _ size)
          ∙ decode_slots-out slots after rest f.1))
  where
    behind : List ℕ
    behind = descs_out slots ++ after

    later : List ℕ
    later = concat (blobs_of slots) ++ rest

    step : List ℕ → List ℕ → FetchSlotDesc → Expected DecodeError (List JournalSlot)
    step descs bytes d =
        if ltb 0 d.byte_len && ltb (length bytes) d.byte_len
        then unexpected malformed
        else then_cons (read_slot d bytes)
            (decode_slots (length slots) (drop 32 descs) (drop d.byte_len bytes))

    size : length (concat (payload s)) ≡ data_size (payload s) % 2 ^ 64
    size = omega (arith, length-concat (payload s), f.0.3)

    enough :
        (ltb 0 (data_size (payload s) % 2 ^ 64)
          && ltb (length (concat (payload s) ++ later)) (data_size (payload s) % 2 ^ 64))
        ≡ false
    enough = ground (arith, size, length-append (concat (payload s)) later)

-- A fetch reply, sent as its header and then its blobs, is decoded in full, whatever follows it:
-- each slot with its flags, its blocks and its payload in one buffer, and without a payload where it
-- is empty or all zeros. The header, 8 bytes and 32 for each slot, is shorter than 2 ^ 32 bytes, and
-- the slots' fields and buffers fit theirs.
pub decode-encode_fetch_data_rsp :
    (slots : List JournalSlot) (rest : List ℕ)
    → 8 + length slots * 32 < 2 ^ 32
    → AllFitSlot slots
    → decode_fetch_data_rsp (sent (encode_fetch_data_rsp slots) ++ rest) ≡ ok (map read_back slots)
unfolding decode_fetch_data_rsp encode_fetch_data_rsp
decode-encode_fetch_data_rsp slots rest h f = rw whole (
    ap decode_fetch_data_rsp (ap (λ b. (b ++ concat (blobs_of slots)) ++ rest) uncut ∙ grouped)
    ∙ ap (read (bytes_of hdr ++ (descs_out slots ++ tail)))
        (decode-bytes_of hdr (descs_out slots ++ tail) (omega arith, (omega arith, tt)))
    ∙ rw (long, longer)
        (ap (λ b. decode_slots (length slots) b (drop (length slots * 32) b))
            (drop-append_length (bytes_of hdr) (descs_out slots ++ tail) 8 (length-bytes_of hdr))
          ∙ ap (decode_slots (length slots) (descs_out slots ++ tail))
              (drop-append_length (descs_out slots) tail _ (length-descs_out slots))
          ∙ decode_slots-out slots tail rest f))
  where
    hdr : FetchDataRsp
    hdr = record { slot_count = length slots; reserved = 0 }

    tail : List ℕ
    tail = concat (blobs_of slots) ++ rest

    whole : length slots % 2 ^ 32 ≡ length slots
    whole = omega arith

    uncut : blob_of (bytes_of hdr ++ descs_out slots) ≡ bytes_of hdr ++ descs_out slots
    uncut = take_all (bytes_of hdr ++ descs_out slots) _ (
        omega (
          arith,
          h,
          length-append (bytes_of hdr) (descs_out slots),
          length-bytes_of hdr,
          length-descs_out slots,
        ))

    grouped :
        ((bytes_of hdr ++ descs_out slots) ++ concat (blobs_of slots)) ++ rest
        ≡ bytes_of hdr ++ (descs_out slots ++ tail)
    grouped = simp append_assoc

    read : List ℕ → FetchDataRsp → Expected DecodeError (List JournalSlot)
    read blob rh =
        if ltb (length blob) 8
        then unexpected truncated
        else if ltb (length blob) (8 + rh.slot_count * 32)
        then unexpected truncated
        else decode_slots rh.slot_count (drop 8 blob) (drop (rh.slot_count * 32) (drop 8 blob))

    size :
        length (bytes_of hdr ++ (descs_out slots ++ tail)) ≡ 8 + (length slots * 32 + length tail)
    size = omega (
      arith,
      length-append (bytes_of hdr) (descs_out slots ++ tail),
      length-bytes_of hdr,
      length-append (descs_out slots) tail,
      length-descs_out slots,
    )

    long : ltb (length (bytes_of hdr ++ (descs_out slots ++ tail))) 8 ≡ false
    long = ground (arith, size)

    longer :
        ltb (length (bytes_of hdr ++ (descs_out slots ++ tail))) (8 + length slots * 32) ≡ false
    longer = ground (arith, size)
