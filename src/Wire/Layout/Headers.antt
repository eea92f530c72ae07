-- ===== src/Wire/Layout/Headers.antt =====
-- Message and request headers (include/craft/wire.hpp). An array of bytes is the number that its bytes
-- spell, least significant first; an `int64_t` is its bit pattern.
use craft_client.Prelude.{ℕ, refl, [], ◌∷◌, get_or}
use craft_client.Wire.Pod.{Pod}

pub record MsgHdr : Type 0 where
  pub op : ℕ
  pub status : ℕ
  pub request_id : ℕ
  pub body_len : ℕ

instance abbrev pub msg_hdr_pod : Pod MsgHdr
msg_hdr_pod = record {
  layout = 1 ∷ 1 ∷ 2 ∷ 4 ∷ [];
  fields = λ t. t.op ∷ t.status ∷ t.request_id ∷ t.body_len ∷ [];
  build = λ vs. record {
    op = get_or vs 0 0;
    status = get_or vs 1 0;
    request_id = get_or vs 2 0;
    body_len = get_or vs 3 0;
  };
  build-fields = λ t. refl;
  length-fields = λ t. refl;
}

pub record ReqHdr : Type 0 where
  pub commit_lsn : ℕ
  pub all_committed_lsn : ℕ

instance abbrev pub req_hdr_pod : Pod ReqHdr
req_hdr_pod = record {
  layout = 8 ∷ 8 ∷ [];
  fields = λ t. t.commit_lsn ∷ t.all_committed_lsn ∷ [];
  build = λ vs. record { commit_lsn = get_or vs 0 0; all_committed_lsn = get_or vs 1 0 };
  build-fields = λ t. refl;
  length-fields = λ t. refl;
}
