-- ===== src/Raft.antt =====
-- The replica that a Raft group drives (src/raft/raft_replica.hpp, src/raft/raft_replica.cpp): the
-- in-memory replica, its Raft watermark, and the login in progress.
pub mod Message
pub mod Catchup
pub mod Login
pub mod Quorum
pub mod Missing
pub mod Verdict
pub mod Round
pub mod Caught
pub mod Sync
pub mod Watermark
pub mod Service
pub mod Commit
mod Tests
use craft_client.Prelude.{
  ℕ, ◌+◌, Bool, true, false, not, ◌&&◌, Option, none, some, List, [], ◌∷◌, ◌==◌, if◌then◌else◌,
}
use craft_client.Types.{Lsn, LsnPair, no_lsn}
use craft_client.Replica.{MemCraftReplica}
use craft_client.Replica.Ops.{lsns_of, cold_truncate_above}
use craft_client.Raft.Message.{InternalLoginMsg}

-- The callback of a quiesce timer, with the terms it captured. `armed` is what the watchdog knows:
-- a timer that was cancelled, or that fired, is no longer in its table.
pub record LoginTimer : Type 0 where
  pub current_term : ℕ
  pub term : ℕ
  pub armed : Bool

pub record RaftReplica : Type 0 where
  pub base : MemCraftReplica
  pub rs_commit_lsn : Lsn
  pub login_done : Bool
  pub pending_login_timer : Option LoginTimer

abbrev pub fresh_raft : MemCraftReplica → RaftReplica
fresh_raft base = record {
  base = base;
  rs_commit_lsn = no_lsn;
  login_done = false;
  pending_login_timer = none;
}

abbrev pub with_base : RaftReplica → MemCraftReplica → RaftReplica
with_base r base = record r { base = base }

abbrev pub with_term : MemCraftReplica → ℕ → MemCraftReplica
with_term r term = record r { state = record (r.state) { term = term } }

-- The fence of a login: from here on only the new term's io is served. The lock is dropped while
-- the watchdog takes the timer; the timer has not fired when it is recorded.
unfoldable pub do_get_rs_commit_lsn : RaftReplica → ℕ → Bool → LsnPair × RaftReplica
do_get_rs_commit_lsn r term is_login =
    let timer : LoginTimer = record { current_term = r.base.term; term = term; armed = true } in
    let fenced = record r { base = with_term r.base term; pending_login_timer = some timer } in
    if not is_login then (lsns_of r.base, r) else (lsns_of r.base, fenced)

-- The watchdog runs the callback of the pending timer, when it is still in its table.
abbrev pub timeout_in : RaftReplica → Option LoginTimer → RaftReplica
timeout_in r none = r
timeout_in r (some t) =
    let fired = record r { pending_login_timer = some (record t { armed = false }) } in
    if not t.armed
    then r
    else if r.base.term == t.term
    then with_base fired (with_term r.base t.current_term)
    else fired

unfoldable pub quiesce_timeout : RaftReplica → RaftReplica
quiesce_timeout r = timeout_in r r.pending_login_timer

abbrev pub with_session : MemCraftReplica → ℕ → ℕ → MemCraftReplica
with_session r client_token term = record r {
  state = record (r.state) { client_token = client_token; term = term };
}

-- The code's test `rs_commit_lsn >= 0`: an lsn of the model is one more.
unfoldable pub internal_login : RaftReplica → InternalLoginMsg → RaftReplica
internal_login r m =
    let base = with_session r.base m.client_token m.term in
    let truncated =
      if m.rs_commit_lsn == no_lsn then base else cold_truncate_above base m.rs_commit_lsn in
    record r { base = truncated; login_done = true; pending_login_timer = none }
