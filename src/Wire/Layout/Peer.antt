-- ===== src/Wire/Layout/Peer.antt =====
-- Peer-plane messages (include/craft/wire.hpp). An array of bytes is the number that its bytes
-- spell, least significant first; an `int64_t` is its bit pattern.
use craft_client.Prelude.{ℕ, refl, [], ◌∷◌, get_or}
use craft_client.Wire.Pod.{Pod}

pub record GetRsCommitLsnReq : Type 0 where
  pub term : ℕ
  pub is_login : ℕ
  pub reserved : ℕ

instance abbrev pub get_rs_commit_lsn_req_pod : Pod GetRsCommitLsnReq
get_rs_commit_lsn_req_pod = record {
  layout = 8 ∷ 1 ∷ 7 ∷ [];
  fields = λ t. t.term ∷ t.is_login ∷ t.reserved ∷ [];
  build = λ vs. record { term = get_or vs 0 0; is_login = get_or vs 1 0; reserved = get_or vs 2 0 };
  build-fields = λ t. refl;
  length-fields = λ t. refl;
}

pub record GetRsCommitLsnRsp : Type 0 where
  pub commit_lsn : ℕ
  pub last_append_lsn : ℕ

instance abbrev pub get_rs_commit_lsn_rsp_pod : Pod GetRsCommitLsnRsp
get_rs_commit_lsn_rsp_pod = record {
  layout = 8 ∷ 8 ∷ [];
  fields = λ t. t.commit_lsn ∷ t.last_append_lsn ∷ [];
  build = λ vs. record { commit_lsn = get_or vs 0 0; last_append_lsn = get_or vs 1 0 };
  build-fields = λ t. refl;
  length-fields = λ t. refl;
}

pub record FetchDataReq : Type 0 where
  pub lsn_count : ℕ
  pub reserved : ℕ

instance abbrev pub fetch_data_req_pod : Pod FetchDataReq
fetch_data_req_pod = record {
  layout = 4 ∷ 4 ∷ [];
  fields = λ t. t.lsn_count ∷ t.reserved ∷ [];
  build = λ vs. record { lsn_count = get_or vs 0 0; reserved = get_or vs 1 0 };
  build-fields = λ t. refl;
  length-fields = λ t. refl;
}

pub record FetchSlotDesc : Type 0 where
  pub lsn : ℕ
  pub lba : ℕ
  pub len : ℕ
  pub byte_len : ℕ
  pub is_empty : ℕ
  pub all_zeros : ℕ
  pub reserved : ℕ

instance abbrev pub fetch_slot_desc_pod : Pod FetchSlotDesc
fetch_slot_desc_pod = record {
  layout = 8 ∷ 8 ∷ 4 ∷ 8 ∷ 1 ∷ 1 ∷ 2 ∷ [];
  fields = λ t. t.lsn ∷ t.lba ∷ t.len ∷ t.byte_len ∷ t.is_empty ∷ t.all_zeros ∷ t.reserved ∷ [];
  build = λ vs. record {
    lsn = get_or vs 0 0;
    lba = get_or vs 1 0;
    len = get_or vs 2 0;
    byte_len = get_or vs 3 0;
    is_empty = get_or vs 4 0;
    all_zeros = get_or vs 5 0;
    reserved = get_or vs 6 0;
  };
  build-fields = λ t. refl;
  length-fields = λ t. refl;
}

pub record FetchDataRsp : Type 0 where
  pub slot_count : ℕ
  pub reserved : ℕ

instance abbrev pub fetch_data_rsp_pod : Pod FetchDataRsp
fetch_data_rsp_pod = record {
  layout = 4 ∷ 4 ∷ [];
  fields = λ t. t.slot_count ∷ t.reserved ∷ [];
  build = λ vs. record { slot_count = get_or vs 0 0; reserved = get_or vs 1 0 };
  build-fields = λ t. refl;
  length-fields = λ t. refl;
}
