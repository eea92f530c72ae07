-- ===== src/Wire/Ops.antt =====
-- Op codes and their tables (`op`, `op_hdr_size`, `is_response`, `op_allows_body`).
use craft_client.Prelude.{
  ℕ, ◌%◌, Bool, ◌&&◌, ◌||◌, Option, none, List, [], ◌∷◌, ltb, leb, ◌==◌, if◌then◌else◌, get_elem?,
}
use craft_client.Wire.Pod.{size_of}
use craft_client.Wire.Layout.Session.{
  LoginReq, LoginRsp, HeloReq, KeepaliveReq, KeepaliveRsp, LogoutReq, VolumeCreateReq,
  login_req_pod, login_rsp_pod, helo_req_pod, keepalive_req_pod, keepalive_rsp_pod, logout_req_pod,
  volume_create_req_pod,
}
use craft_client.Wire.Layout.Io.{
  WriteReq, WriteRsp, ReadReq, ReadRsp, ResolveReq, ResolveRsp, write_req_pod, write_rsp_pod,
  read_req_pod, read_rsp_pod, resolve_req_pod, resolve_rsp_pod,
}
use craft_client.Wire.Layout.Peer.{
  GetRsCommitLsnReq, GetRsCommitLsnRsp, FetchDataReq, FetchDataRsp, get_rs_commit_lsn_req_pod,
  get_rs_commit_lsn_rsp_pod, fetch_data_req_pod, fetch_data_rsp_pod,
}

pub data Op : Type 0 where
  login login_rsp helo helo_rsp write write_rsp read read_rsp keepalive keepalive_rsp : Op
  logout logout_rsp resolve resolve_rsp create_volume create_volume_rsp : Op
  get_rs_commit_lsn get_rs_commit_lsn_rsp fetch_data fetch_data_rsp : Op

-- `static_cast<uint8_t>(op)`.
unfoldable pub op_code : Op → ℕ
op_code login = 1
op_code login_rsp = 2
op_code helo = 3
op_code helo_rsp = 4
op_code write = 5
op_code write_rsp = 6
op_code read = 7
op_code read_rsp = 8
op_code keepalive = 9
op_code keepalive_rsp = 10
op_code logout = 11
op_code logout_rsp = 12
op_code resolve = 13
op_code resolve_rsp = 14
op_code create_volume = 15
op_code create_volume_rsp = 16
op_code get_rs_commit_lsn = 17
op_code get_rs_commit_lsn_rsp = 18
op_code fetch_data = 19
op_code fetch_data_rsp = 20

abbrev pub k_max_op : ℕ
k_max_op = 20

abbrev pub op_hdr_sizes : List ℕ
op_hdr_sizes =
    0
    ∷ size_of LoginReq
    ∷ size_of LoginRsp
    ∷ size_of HeloReq
    ∷ 0
    ∷ size_of WriteReq
    ∷ size_of WriteRsp
    ∷ size_of ReadReq
    ∷ size_of ReadRsp
    ∷ size_of KeepaliveReq
    ∷ size_of KeepaliveRsp
    ∷ size_of LogoutReq
    ∷ 0
    ∷ size_of ResolveReq
    ∷ size_of ResolveRsp
    ∷ size_of VolumeCreateReq
    ∷ 0
    ∷ size_of GetRsCommitLsnReq
    ∷ size_of GetRsCommitLsnRsp
    ∷ size_of FetchDataReq
    ∷ size_of FetchDataRsp
    ∷ []

unfoldable pub op_hdr_size : ℕ → Option ℕ
op_hdr_size op_code =
    if ltb op_code 1 || ltb k_max_op op_code then none else get_elem? op_hdr_sizes op_code

unfoldable pub is_response : ℕ → Bool
is_response op_code = leb 1 op_code && leb op_code k_max_op && op_code % 2 == 0

unfoldable pub op_allows_body : ℕ → Bool
unfolding op_code
op_allows_body c =
    c == op_code write
    || c == op_code login_rsp
    || c == op_code read_rsp
    || c == op_code resolve_rsp
    || c == op_code create_volume
    || c == op_code fetch_data
    || c == op_code fetch_data_rsp
