-- ===== src/Raft/Commit.antt =====
-- The commit of a logged message, and the fence around a login.
use craft_client.Prelude.{ℕ, ◌≡◌, ◌≢◌, refl, sym, ◌∙◌, true, Option, none, List, ◌==◌, arith}
use craft_client.Prelude.Results.{ok}
use craft_client.Types.{Lsn, LsnPair, ClientHdr}
use craft_client.Replica.Ops.{do_write, lsns_of}
use craft_client.Replica.Writes.{stale_term_fence}
use craft_client.Raft.{
  RaftReplica, with_session, do_get_rs_commit_lsn, quiesce_timeout, internal_login,
}
use craft_client.Raft.Message.{
  SyncRsCommitLsnMsg, InternalLoginMsg, sync_to_json, sync_from_json, login_to_json,
  login_from_json,
}
use craft_client.Raft.Catchup.{Fetch, apply_sync}
use craft_client.Raft.Login.{commit}

==_self : (n : ℕ) → (n == n) ≡ true
==_self n = ground arith

-- A SyncRSCommitLSN that was put into the log is applied at its commit with its watermark, its
-- verdicts and nothing else; an InternalLogin sets the session and wakes the login, and leaves the
-- journal and the append watermark as they are whatever watermark it was proposed with.
pub commit-to_json :
    (fetch : Fetch) (members : List ℕ) (r : RaftReplica) (m : SyncRsCommitLsnMsg)
    (l : InternalLoginMsg)
    → (sync_from_json (sync_to_json m) ≡ ok m)
      × (commit fetch members (sync_to_json m) r
          ≡ record r { base = apply_sync fetch members m r.base; rs_commit_lsn = m.rs_commit_lsn })
      × (commit fetch members (login_to_json l) r ≡ record r {
        base = with_session r.base l.client_token l.term;
        login_done = true;
        pending_login_timer = none;
      })
unfolding commit sync_to_json sync_from_json login_to_json login_from_json internal_login
commit-to_json fetch members r m l = (refl, refl, refl)

abbrev pub poll_for_login : RaftReplica → ℕ → RaftReplica
poll_for_login r term = (do_get_rs_commit_lsn r term true).1

-- A login poll returns the watermarks and lets only the new term in. If its login does not commit,
-- the timeout gives the replica its old state back; once a login did commit, the timeout does
-- nothing more.
pub quiesce_lem :
    (r : RaftReplica) (term : ℕ) (m : InternalLoginMsg)
    → let (lsns, q) = do_get_rs_commit_lsn r term true in
      (lsns ≡ lsns_of r.base)
      × (q.base.term ≡ term)
      × ((quiesce_timeout q).base ≡ r.base)
      × (quiesce_timeout (internal_login q m) ≡ internal_login q m)
unfolding do_get_rs_commit_lsn quiesce_timeout internal_login
quiesce_lem r term m = (refl, refl, rw (==_self term) refl, refl)

-- With two login polls in a row and no commit, the timeout leaves the first poll's term in place: a
-- write in the replica's own term before the polls, when that is not the first poll's, is refused
-- and changes nothing.
pub quiesce_twice :
    (r : RaftReplica) (first second : ℕ) (hdr : ClientHdr) (dlsn : Lsn) (addr len : ℕ)
    (bytes : Option (List ℕ))
    → hdr.term ≡ r.base.term
    → r.base.term ≢ first
    → let q = quiesce_timeout (poll_for_login (poll_for_login r first) second) in
      (q.base.term ≡ first)
      × ((do_write q.base hdr dlsn addr len bytes).1 ≡ q.base)
      × ((pair : LsnPair) → (do_write q.base hdr dlsn addr len bytes).0 ≢ ok pair)
unfolding do_get_rs_commit_lsn quiesce_timeout
quiesce_twice r first second hdr dlsn addr len bytes own other =
    let q = quiesce_timeout (poll_for_login (poll_for_login r first) second) in
    let kept : q.base.term ≡ first = rw (==_self second) refl in
    let (same, refused, _, _, _, _) =
      stale_term_fence q.base hdr dlsn addr len 0 bytes (λ e. other (sym own ∙ e ∙ kept)) in
    (kept, same, refused)
