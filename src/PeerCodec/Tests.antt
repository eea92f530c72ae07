-- ===== src/PeerCodec/Tests.antt =====
-- The peer codec's theorems at concrete inputs.
use craft_client.Prelude.{◌≡◌, true, false, List, [], ◌∷◌, ◌++◌, map, arith}
use craft_client.Prelude.Results.{ok}
use craft_client.Types.{LsnPair}
use craft_client.PeerCodec.{JournalSlot, sent, encode_fetch_data_rsp, decode_fetch_data_rsp}
use craft_client.PeerCodec.FetchData.{read_back, decode-encode_fetch_data_rsp}

abbrev marks : LsnPair
marks = record { commit_lsn = 0; last_append_lsn = 5 }

-- A slot of two buffers and an empty one.
abbrev held_slot : JournalSlot
held_slot = record {
  lsn = 3;
  is_empty = false;
  all_zeros = false;
  lba = 2;
  len = 1;
  iovs = (8 ∷ []) ∷ (9 ∷ []) ∷ [];
}

abbrev empty_slot : JournalSlot
empty_slot = record { lsn = 4; is_empty = true; all_zeros = false; lba = 0; len = 0; iovs = [] }

abbrev two_slots : List JournalSlot
two_slots = held_slot ∷ empty_slot ∷ []

fetch_data_rsp_example :
    decode_fetch_data_rsp (sent (encode_fetch_data_rsp two_slots) ++ 1 ∷ [])
    ≡ ok (map read_back two_slots)
fetch_data_rsp_example = decode-encode_fetch_data_rsp two_slots (1 ∷ []) (omega arith) (
  (omega arith, omega arith, omega arith, omega arith, (omega arith, (omega arith, tt))),
  ((omega arith, omega arith, omega arith, omega arith, tt), tt),
)
