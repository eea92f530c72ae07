-- ===== src/Wire/Layout/Io.antt =====
-- IO and resolution messages (include/craft/wire.hpp). An array of bytes is the number that its bytes
-- spell, least significant first; an `int64_t` is its bit pattern.
use craft_client.Prelude.{ℕ, refl, [], ◌∷◌, get_or}
use craft_client.Wire.Pod.{Pod}
use craft_client.Wire.Layout.Headers.{ReqHdr}

pub record WriteReq : Type 0 where
  pub hdr : ReqHdr
  pub dlsn : ℕ
  pub addr : ℕ
  pub len : ℕ

instance abbrev pub write_req_pod : Pod WriteReq
write_req_pod = record {
  layout = 8 ∷ 8 ∷ 8 ∷ 8 ∷ 8 ∷ [];
  fields = λ t. t.hdr.commit_lsn ∷ t.hdr.all_committed_lsn ∷ t.dlsn ∷ t.addr ∷ t.len ∷ [];
  build = λ vs. record {
    hdr = record { commit_lsn = get_or vs 0 0; all_committed_lsn = get_or vs 1 0 };
    dlsn = get_or vs 2 0;
    addr = get_or vs 3 0;
    len = get_or vs 4 0;
  };
  build-fields = λ t. refl;
  length-fields = λ t. refl;
}

pub record WriteRsp : Type 0 where
  pub commit_lsn : ℕ
  pub last_append_lsn : ℕ

instance abbrev pub write_rsp_pod : Pod WriteRsp
write_rsp_pod = record {
  layout = 8 ∷ 8 ∷ [];
  fields = λ t. t.commit_lsn ∷ t.last_append_lsn ∷ [];
  build = λ vs. record { commit_lsn = get_or vs 0 0; last_append_lsn = get_or vs 1 0 };
  build-fields = λ t. refl;
  length-fields = λ t. refl;
}

pub record ReadReq : Type 0 where
  pub hdr : ReqHdr
  pub read_lsn : ℕ
  pub addr : ℕ
  pub len : ℕ

instance abbrev pub read_req_pod : Pod ReadReq
read_req_pod = record {
  layout = 8 ∷ 8 ∷ 8 ∷ 8 ∷ 8 ∷ [];
  fields = λ t. t.hdr.commit_lsn ∷ t.hdr.all_committed_lsn ∷ t.read_lsn ∷ t.addr ∷ t.len ∷ [];
  build = λ vs. record {
    hdr = record { commit_lsn = get_or vs 0 0; all_committed_lsn = get_or vs 1 0 };
    read_lsn = get_or vs 2 0;
    addr = get_or vs 3 0;
    len = get_or vs 4 0;
  };
  build-fields = λ t. refl;
  length-fields = λ t. refl;
}

pub record ReadRsp : Type 0 where
  pub commit_lsn : ℕ
  pub last_append_lsn : ℕ
  pub extent_count : ℕ
  pub reserved : ℕ

instance abbrev pub read_rsp_pod : Pod ReadRsp
read_rsp_pod = record {
  layout = 8 ∷ 8 ∷ 4 ∷ 4 ∷ [];
  fields = λ t. t.commit_lsn ∷ t.last_append_lsn ∷ t.extent_count ∷ t.reserved ∷ [];
  build = λ vs. record {
    commit_lsn = get_or vs 0 0;
    last_append_lsn = get_or vs 1 0;
    extent_count = get_or vs 2 0;
    reserved = get_or vs 3 0;
  };
  build-fields = λ t. refl;
  length-fields = λ t. refl;
}

pub record ExtentDesc : Type 0 where
  pub addr : ℕ
  pub len : ℕ
  pub hole : ℕ
  pub reserved : ℕ

instance abbrev pub extent_desc_pod : Pod ExtentDesc
extent_desc_pod = record {
  layout = 8 ∷ 8 ∷ 1 ∷ 7 ∷ [];
  fields = λ t. t.addr ∷ t.len ∷ t.hole ∷ t.reserved ∷ [];
  build = λ vs. record {
    addr = get_or vs 0 0;
    len = get_or vs 1 0;
    hole = get_or vs 2 0;
    reserved = get_or vs 3 0;
  };
  build-fields = λ t. refl;
  length-fields = λ t. refl;
}

pub record ResolveReq : Type 0 where
  pub hdr : ReqHdr
  pub upto : ℕ

instance abbrev pub resolve_req_pod : Pod ResolveReq
resolve_req_pod = record {
  layout = 8 ∷ 8 ∷ 8 ∷ [];
  fields = λ t. t.hdr.commit_lsn ∷ t.hdr.all_committed_lsn ∷ t.upto ∷ [];
  build = λ vs. record {
    hdr = record { commit_lsn = get_or vs 0 0; all_committed_lsn = get_or vs 1 0 };
    upto = get_or vs 2 0;
  };
  build-fields = λ t. refl;
  length-fields = λ t. refl;
}

pub record ResolveRsp : Type 0 where
  pub resolved_upto : ℕ
  pub empty_count : ℕ
  pub reserved : ℕ

instance abbrev pub resolve_rsp_pod : Pod ResolveRsp
resolve_rsp_pod = record {
  layout = 8 ∷ 4 ∷ 4 ∷ [];
  fields = λ t. t.resolved_upto ∷ t.empty_count ∷ t.reserved ∷ [];
  build = λ vs. record {
    resolved_upto = get_or vs 0 0;
    empty_count = get_or vs 1 0;
    reserved = get_or vs 2 0;
  };
  build-fields = λ t. refl;
  length-fields = λ t. refl;
}
