-- ===== src/Wire/Layout/Session.antt =====
-- Session messages (include/craft/wire.hpp). An array of bytes is the number that its bytes
-- spell, least significant first; an `int64_t` is its bit pattern.
use craft_client.Prelude.{ℕ, refl, [], ◌∷◌, get_or}
use craft_client.Wire.Pod.{Pod}
use craft_client.Wire.Layout.Headers.{ReqHdr}

pub record LoginReq : Type 0 where
  pub volume_id : ℕ
  pub client_token : ℕ

instance abbrev pub login_req_pod : Pod LoginReq
login_req_pod = record {
  layout = 16 ∷ 8 ∷ [];
  fields = λ t. t.volume_id ∷ t.client_token ∷ [];
  build = λ vs. record { volume_id = get_or vs 0 0; client_token = get_or vs 1 0 };
  build-fields = λ t. refl;
  length-fields = λ t. refl;
}

pub record LoginRsp : Type 0 where
  pub term : ℕ
  pub dlsn : ℕ
  pub capacity : ℕ
  pub lba_size : ℕ
  pub max_tx : ℕ
  pub member_count : ℕ
  pub reserved : ℕ
  pub leader_hint : ℕ

instance abbrev pub login_rsp_pod : Pod LoginRsp
login_rsp_pod = record {
  layout = 8 ∷ 8 ∷ 8 ∷ 4 ∷ 4 ∷ 4 ∷ 4 ∷ 16 ∷ [];
  fields = λ t.
      t.term ∷ t.dlsn ∷ t.capacity ∷ t.lba_size ∷ t.max_tx ∷ t.member_count ∷ t.reserved
      ∷ t.leader_hint ∷ [];
  build = λ vs. record {
    term = get_or vs 0 0;
    dlsn = get_or vs 1 0;
    capacity = get_or vs 2 0;
    lba_size = get_or vs 3 0;
    max_tx = get_or vs 4 0;
    member_count = get_or vs 5 0;
    reserved = get_or vs 6 0;
    leader_hint = get_or vs 7 0;
  };
  build-fields = λ t. refl;
  length-fields = λ t. refl;
}

pub record HeloReq : Type 0 where
  pub volume_id : ℕ
  pub client_token : ℕ
  pub term : ℕ

instance abbrev pub helo_req_pod : Pod HeloReq
helo_req_pod = record {
  layout = 16 ∷ 8 ∷ 8 ∷ [];
  fields = λ t. t.volume_id ∷ t.client_token ∷ t.term ∷ [];
  build = λ vs. record {
    volume_id = get_or vs 0 0;
    client_token = get_or vs 1 0;
    term = get_or vs 2 0;
  };
  build-fields = λ t. refl;
  length-fields = λ t. refl;
}

pub record KeepaliveReq : Type 0 where
  pub hdr : ReqHdr

instance abbrev pub keepalive_req_pod : Pod KeepaliveReq
keepalive_req_pod = record {
  layout = 8 ∷ 8 ∷ [];
  fields = λ t. t.hdr.commit_lsn ∷ t.hdr.all_committed_lsn ∷ [];
  build = λ vs. record {
    hdr = record { commit_lsn = get_or vs 0 0; all_committed_lsn = get_or vs 1 0 };
  };
  build-fields = λ t. refl;
  length-fields = λ t. refl;
}

pub record KeepaliveRsp : Type 0 where
  pub commit_lsn : ℕ
  pub last_append_lsn : ℕ

instance abbrev pub keepalive_rsp_pod : Pod KeepaliveRsp
keepalive_rsp_pod = record {
  layout = 8 ∷ 8 ∷ [];
  fields = λ t. t.commit_lsn ∷ t.last_append_lsn ∷ [];
  build = λ vs. record { commit_lsn = get_or vs 0 0; last_append_lsn = get_or vs 1 0 };
  build-fields = λ t. refl;
  length-fields = λ t. refl;
}

pub record LogoutReq : Type 0 where
  pub hdr : ReqHdr

instance abbrev pub logout_req_pod : Pod LogoutReq
logout_req_pod = record {
  layout = 8 ∷ 8 ∷ [];
  fields = λ t. t.hdr.commit_lsn ∷ t.hdr.all_committed_lsn ∷ [];
  build = λ vs. record {
    hdr = record { commit_lsn = get_or vs 0 0; all_committed_lsn = get_or vs 1 0 };
  };
  build-fields = λ t. refl;
  length-fields = λ t. refl;
}

pub record VolumeCreateReq : Type 0 where
  pub volume_id : ℕ
  pub capacity : ℕ
  pub lba_size : ℕ
  pub member_count : ℕ

instance abbrev pub volume_create_req_pod : Pod VolumeCreateReq
volume_create_req_pod = record {
  layout = 16 ∷ 8 ∷ 4 ∷ 4 ∷ [];
  fields = λ t. t.volume_id ∷ t.capacity ∷ t.lba_size ∷ t.member_count ∷ [];
  build = λ vs. record {
    volume_id = get_or vs 0 0;
    capacity = get_or vs 1 0;
    lba_size = get_or vs 2 0;
    member_count = get_or vs 3 0;
  };
  build-fields = λ t. refl;
  length-fields = λ t. refl;
}
