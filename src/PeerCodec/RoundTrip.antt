-- ===== src/PeerCodec/RoundTrip.antt =====
-- The commit-lsn poll and the request to fetch: what a peer decodes is what was encoded.
use craft_client.Prelude.{
  ℕ, suc, ◌+◌, ◌*◌, ◌%◌, ◌^◌, ◌<◌, ◌≡◌, refl, ap, ap₂, sym, ◌∙◌, Bool, true, false, not, List, [],
  ◌∷◌, ◌++◌, map, ltb, ◌==◌, if◌then◌else◌, length, drop, length-append, append_assoc, arith,
}
use craft_client.Prelude.Results.{Expected, ok, unexpected}
use craft_client.Types.{Lsn, LsnPair}
use craft_client.Wire.Pod.{
  bytes_of, decode-bytes_of, length-bytes_of, drop-append_length, le_bytes, length-le_bytes,
  FitsPod,
}
use craft_client.Wire.Body.{copy_lsns}
use craft_client.Wire.Body.RoundTrip.{lsns_bytes, AllU64, copy_lsns-bytes}
use craft_client.Wire.Layout.Peer.{
  GetRsCommitLsnReq, GetRsCommitLsnRsp, FetchDataReq, get_rs_commit_lsn_req_pod,
  get_rs_commit_lsn_rsp_pod, fetch_data_req_pod, fetch_slot_desc_pod, fetch_data_rsp_pod,
}
use craft_client.PeerCodec.{
  DecodeError, truncated, to_bits, of_bits, byte, encode_get_rs_commit_lsn_req,
  decode_get_rs_commit_lsn_req, encode_get_rs_commit_lsn_rsp, decode_get_rs_commit_lsn_rsp,
  lsns_out, encode_fetch_data_req, decode_fetch_data_req,
}

pub of_bits-to_bits : (n : Lsn) → n < 2 ^ 64 → of_bits (to_bits n) ≡ n
of_bits-to_bits n h = omega arith

to_bits-lt : (n : Lsn) → to_bits n < 2 ^ 64
to_bits-lt n = omega arith

abbrev pub AllLsn : List Lsn → Type 0
AllLsn [] = Unit {0}
AllLsn (d ∷ ds) = (d < 2 ^ 64) × AllLsn ds

lsns_out_lem : (ds : List Lsn) → lsns_out ds ≡ lsns_bytes (map to_bits ds)
lsns_out_lem [] = refl
lsns_out_lem (d ∷ ds) = ap (λ b. le_bytes 8 (to_bits d) ++ b) (lsns_out_lem ds)

length-lsns_out : (ds : List Lsn) → length (lsns_out ds) ≡ length ds * 8
length-lsns_out [] = refl
length-lsns_out (d ∷ ds) = omega (
  arith,
  length-append (le_bytes 8 (to_bits d)) (lsns_out ds),
  length-le_bytes 8 (to_bits d),
  length-lsns_out ds,
)

map-to_bits-AllU64 : (ds : List Lsn) → AllU64 (map to_bits ds)
map-to_bits-AllU64 [] = tt
map-to_bits-AllU64 (d ∷ ds) = (omega arith, map-to_bits-AllU64 ds)

length-map-to_bits : (ds : List Lsn) → length (map to_bits ds) ≡ length ds
length-map-to_bits [] = refl
length-map-to_bits (d ∷ ds) = ap suc (length-map-to_bits ds)

back_and_forth : (ds : List Lsn) → AllLsn ds → map of_bits (map to_bits ds) ≡ ds
back_and_forth [] a = refl
back_and_forth (d ∷ ds) a = ap₂ (λ x xs. x ∷ xs) (of_bits-to_bits d a.0) (back_and_forth ds a.1)

pub byte_back : (b : Bool) → not (byte b == 0) ≡ b
byte_back true = refl
byte_back false = refl

pub byte-lt : (b : Bool) → byte b < 256 ^ 1
byte-lt true = omega arith
byte-lt false = omega arith

-- The commit-lsn poll and its reply are read back as they were sent, whatever follows them: the
-- term and the watermarks fit 64 bits.
pub decode-get_rs_commit_lsn :
    (term : ℕ) (is_login : Bool) (lsns : LsnPair) (rest : List ℕ)
    → term < 2 ^ 64
    → lsns.commit_lsn < 2 ^ 64
    → lsns.last_append_lsn < 2 ^ 64
    → (decode_get_rs_commit_lsn_req (encode_get_rs_commit_lsn_req term is_login ++ rest)
        ≡ ok (term, is_login))
      × (decode_get_rs_commit_lsn_rsp (encode_get_rs_commit_lsn_rsp lsns ++ rest) ≡ ok lsns)
unfolding decode_get_rs_commit_lsn_req encode_get_rs_commit_lsn_req decode_get_rs_commit_lsn_rsp
    encode_get_rs_commit_lsn_rsp
decode-get_rs_commit_lsn term is_login lsns rest ht hc ha = (
  rw long_req (
      ap (λ w. ok (w.term, not (w.is_login == 0))) (decode-bytes_of req rest fits_req)
      ∙ ap (λ b. ok (term, b)) (byte_back is_login)),
  rw long_rsp (
      ap
        (λ w. ok (record {
          commit_lsn = of_bits w.commit_lsn;
          last_append_lsn = of_bits w.last_append_lsn;
        }))
        (decode-bytes_of rsp rest (omega arith, (omega arith, tt)))
      ∙ ap₂ (λ c a. ok (record { commit_lsn = c; last_append_lsn = a }))
          (of_bits-to_bits lsns.commit_lsn hc) (of_bits-to_bits lsns.last_append_lsn ha)),
)
  where
    req : GetRsCommitLsnReq
    req = record { term = term; is_login = byte is_login; reserved = 0 }

    rsp : GetRsCommitLsnRsp
    rsp = record {
      commit_lsn = to_bits lsns.commit_lsn;
      last_append_lsn = to_bits lsns.last_append_lsn;
    }

    fits_req : FitsPod req
    fits_req = (omega arith, (byte-lt is_login, (omega arith, tt)))

    long_req : ltb (length (bytes_of req ++ rest)) 16 ≡ false
    long_req = ground (arith, length-append (bytes_of req) rest, length-bytes_of req)

    long_rsp : ltb (length (bytes_of rsp ++ rest)) 16 ≡ false
    long_rsp = ground (arith, length-append (bytes_of rsp) rest, length-bytes_of rsp)

-- A list of dLSNs to fetch is read back in full, whatever follows it: there are fewer than 2 ^ 32,
-- and each fits 64 bits.
pub decode-encode_fetch_data_req :
    (ds : List Lsn) (rest : List ℕ)
    → length ds < 2 ^ 32
    → AllLsn ds
    → decode_fetch_data_req (encode_fetch_data_req ds ++ rest) ≡ ok ds
unfolding decode_fetch_data_req encode_fetch_data_req
decode-encode_fetch_data_req ds rest h a = rw whole (
    ap decode_fetch_data_req (append_assoc (bytes_of hdr) (lsns_out ds) rest)
    ∙ ap (read (bytes_of hdr ++ (lsns_out ds ++ rest)))
        (decode-bytes_of hdr (lsns_out ds ++ rest) (omega arith, (omega arith, tt)))
    ∙ rw (long, longer)
        (ap (λ b. ok (map of_bits (copy_lsns b (length ds))))
            (drop-append_length (bytes_of hdr) (lsns_out ds ++ rest) 8 (length-bytes_of hdr))
          ∙ ap (λ vs. ok (map of_bits vs)) copied
          ∙ ap ok (back_and_forth ds a)))
  where
    hdr : FetchDataReq
    hdr = record { lsn_count = length ds; reserved = 0 }

    whole : length ds % 2 ^ 32 ≡ length ds
    whole = omega arith

    read : List ℕ → FetchDataReq → Expected DecodeError (List Lsn)
    read bytes w =
        if ltb (length bytes) 8
        then unexpected truncated
        else if ltb (length bytes) (8 + w.lsn_count * 8)
        then unexpected truncated
        else ok (map of_bits (copy_lsns (drop 8 bytes) w.lsn_count))

    size : length (bytes_of hdr ++ (lsns_out ds ++ rest)) ≡ 8 + (length ds * 8 + length rest)
    size = omega (
      arith,
      length-append (bytes_of hdr) (lsns_out ds ++ rest),
      length-bytes_of hdr,
      length-append (lsns_out ds) rest,
      length-lsns_out ds,
    )

    long : ltb (length (bytes_of hdr ++ (lsns_out ds ++ rest))) 8 ≡ false
    long = ground (arith, size)

    longer : ltb (length (bytes_of hdr ++ (lsns_out ds ++ rest))) (8 + length ds * 8) ≡ false
    longer = ground (arith, size)

    copied : copy_lsns (lsns_out ds ++ rest) (length ds) ≡ map to_bits ds
    copied =
        ap₂ (λ b n. copy_lsns (b ++ rest) n) (lsns_out_lem ds) (sym (length-map-to_bits ds))
        ∙ copy_lsns-bytes (map to_bits ds) rest (map-to_bits-AllU64 ds)
