-- ===== src/Raft/Login.antt =====
-- The login at the server (`apply_login` in src/raft/raft_replica.cpp) and the commits of the Raft
-- log that it waits for. The Raft service around NuRaft, the peers' clients and the wait are
-- parameters.
use craft_client.Prelude.{
  ℕ, ◌/◌, Bool, true, false, not, List, [], ◌∷◌, ◌==◌, leb, if◌then◌else◌, length, max,
}
use craft_client.Prelude.Results.{Expected, ok, unexpected, ◌>>=◌}
use craft_client.Types.{Lsn, LsnPair, LoginResult, Result, craft, internal, no_quorum, no_lsn}
use craft_client.Replica.Ops.{lsns_of}
use craft_client.Raft.{RaftReplica, with_base, with_session, internal_login}
use craft_client.Raft.Message.{
  Object, SyncRsCommitLsnMsg, InternalLoginMsg, op, at, operation_code, get_number, JsonException,
  Operation, sync_from_json, login_from_json,
}
use craft_client.Raft.Catchup.{Fetch, apply_sync, sync_rs_commit_lsn}

-- What a login relies on: the Raft service's words, the peers' answers to GetRSCommitLSN and to
-- FetchData, and the tasks that the commit worker has run when the wait ends.
pub record Services : Type 0 where
  pub is_raft_enabled : Bool
  pub is_leader : Bool
  pub leader_id : ℕ
  pub members : List ℕ
  pub get_rs_commit_lsn : ℕ → ℕ → Bool → Result LsnPair
  pub fetch_data : Fetch
  pub propose_sync : SyncRsCommitLsnMsg → Result (Unit {0})
  pub propose_login : InternalLoginMsg → Result (Unit {0})
  pub wait_for : RaftReplica → RaftReplica

-- The other members in turn; one that does not answer adds nothing.
abbrev pub push_answer : Result LsnPair → List LsnPair → List LsnPair
push_answer (ok lsns) rest = lsns ∷ rest
push_answer (unexpected e) rest = rest

unfoldable pub poll : Services → ℕ → ℕ → List ℕ → List LsnPair
poll env self term [] = []
poll env self term (m ∷ members) =
    let rest = poll env self term members in
    if m == self then rest else push_answer (env.get_rs_commit_lsn m term true) rest

-- `std::ranges::max_element` by the append watermark.
abbrev pub max_last_append : List LsnPair → Lsn
max_last_append [] = no_lsn
max_last_append (p ∷ ps) = max p.last_append_lsn (max_last_append ps)

abbrev pub login_to : List ℕ → Lsn → ℕ → LoginResult
login_to members dlsn leader_hint = record {
  members = members;
  dlsn = dlsn;
  term = 0;
  lba_size = 0;
  capacity = 0;
  leader_hint = leader_hint;
  max_tx = 0;
}

-- From the proposal of the login on.
abbrev pub await_login :
    Services → Lsn → Result (Unit {0}) → RaftReplica → Result LoginResult × RaftReplica
await_login env rs_commit_lsn (unexpected e) r = (unexpected e, r)
await_login env rs_commit_lsn (ok _) r =
    let q = env.wait_for r in
    if not q.login_done
    then (unexpected (craft internal), q)
    else (ok (login_to env.members rs_commit_lsn 0), q)

-- From the proposal of the watermark on.
abbrev pub propose_login_after :
    Services → ℕ → ℕ → Lsn → Result (Unit {0}) → RaftReplica → Result LoginResult × RaftReplica
propose_login_after env client_token term rs_commit_lsn (unexpected e) r = (unexpected e, r)
propose_login_after env client_token term rs_commit_lsn (ok _) r =
    let m : InternalLoginMsg = record {
      client_token = client_token;
      term = term;
      rs_commit_lsn = rs_commit_lsn;
    } in
    await_login env rs_commit_lsn (env.propose_login m) (record r { login_done = false })

abbrev pub responses : Services → ℕ → RaftReplica → List LsnPair
responses env term r = lsns_of r.base ∷ poll env r.base.id term env.members

unfoldable pub apply_login : Services → ℕ → ℕ → RaftReplica → Result LoginResult × RaftReplica
apply_login env client_token term r =
    let peer_resp = responses env term r in
    let rs_commit_lsn = max_last_append peer_resp in
    let (synced, base) =
      sync_rs_commit_lsn env.fetch_data env.propose_sync env.members r.base rs_commit_lsn
        client_token r.base.term in
    if not env.is_raft_enabled
    then (
      ok (login_to (r.base.id ∷ []) r.base.last_append_lsn 0),
      with_base r (with_session r.base client_token term),
    )
    else if not env.is_leader
    then (ok (login_to [] no_lsn env.leader_id), r)
    else if leb (length peer_resp) (length env.members / 2)
    then (unexpected (craft no_quorum), r)
    else propose_login_after env client_token term rs_commit_lsn synced (with_base r base)

-- ── the commit of a log entry, which the commit worker runs ──
-- A message without its operation, which no replica proposes, throws out of the callback; here it
-- changes nothing.

abbrev pub commit_sync :
    Fetch → List ℕ → Expected JsonException SyncRsCommitLsnMsg → RaftReplica → RaftReplica
commit_sync fetch members (unexpected e) r = r
commit_sync fetch members (ok m) r = record r {
  base = apply_sync fetch members m r.base;
  rs_commit_lsn = m.rs_commit_lsn;
}

abbrev pub commit_login : Expected JsonException InternalLoginMsg → RaftReplica → RaftReplica
commit_login (unexpected e) r = r
commit_login (ok m) r = internal_login r m

abbrev pub commit_op :
    Fetch → List ℕ → Expected JsonException ℕ → Object → RaftReplica → RaftReplica
commit_op fetch members (unexpected e) j r = r
commit_op fetch members (ok code) j r =
    if code == operation_code Operation.sync_rs_commit_lsn
    then commit_sync fetch members (sync_from_json j) r
    else if code == operation_code Operation.internal_login
    then commit_login (login_from_json j) r
    else r

unfoldable pub commit : Fetch → List ℕ → Object → RaftReplica → RaftReplica
commit fetch members j r = commit_op fetch members (at op j >>= get_number) j r
