-- ===== src/Raft/Tests.antt =====
-- The Raft replica's theorems at concrete inputs: a leader with a hole at 2, one member that holds
-- the slot, and one that is down.
use craft_client.Prelude.{
  ℕ, ◌+◌, ◌/◌, ◌≤◌, ◌<◌, ◌≡◌, ◌≢◌, refl, Bool, true, false, none, some, List, [], ◌∷◌, ◌==◌, leb,
  if◌then◌else◌, ◌⊎◌, arith, subst,
}
use craft_client.Prelude.OrderedMap.{find}
use craft_client.Prelude.Results.{ok}
use craft_client.Types.{Lsn, LsnPair, ClientHdr, LoginResult, no_lsn}
use craft_client.Replica.{MemCraftReplica, fresh, tombstone}
use craft_client.Replica.Ops.{append, write_slot, do_write}
use craft_client.Replica.Read.Spec.{IsValid}
use craft_client.Replica.Read.Spec.Keeps.{fresh-IsValid, append-IsValid}
use craft_client.Raft.{fresh_raft, with_session, quiesce_timeout, internal_login}
use craft_client.Raft.Message.{
  SyncRsCommitLsnMsg, InternalLoginMsg, sync_to_json, sync_from_json, login_to_json,
}
use craft_client.Raft.Catchup.{
  get_missing_slots, missing_from, push_run, judge, decide_lsn, decide_all, collect,
  sync_rs_commit_lsn, resolve_and_apply, apply_sync,
}
use craft_client.PeerCodec.Fetch.{do_fetch}
use craft_client.Raft.Login.{Services, poll, apply_login, commit}
use craft_client.Raft.Missing.{among}
use craft_client.Raft.Verdict.{lacks, Filled}
use craft_client.Raft.Round.{answers, resolve_and_apply_lem}
use craft_client.Raft.Quorum.{from_peers, resolve_and_apply-quorum}
use craft_client.Raft.Sync.{Held, apply_sync_obeys, apply_sync_catches_up}
use craft_client.Raft.Watermark.{poll_from, apply_login_majority}
use craft_client.Raft.Commit.{poll_for_login, commit-to_json, quiesce_twice}

abbrev leader : MemCraftReplica
leader =
    append (append (fresh 1 2) 1 (write_slot 2 0 4 2 (some (8 ∷ 9 ∷ [])))) 3
      (write_slot 2 0 4 4 (some (1 ∷ 2 ∷ 3 ∷ 4 ∷ [])))

leader-IsValid : IsValid leader
leader-IsValid =
    append-IsValid _ 3 _ (append-IsValid (fresh 1 2) 1 _ (fresh-IsValid 1 2) (omega arith))
      (omega arith)

abbrev holder : MemCraftReplica
holder = append (fresh 2 2) 2 (write_slot 2 0 8 2 (some (6 ∷ 7 ∷ [])))

abbrev peer : ℕ → MemCraftReplica
peer p = if p == 5 then fresh 5 2 else holder

abbrev up : ℕ → Bool
up p = leb p 4

abbrev members : List ℕ
members = 1 ∷ 2 ∷ 3 ∷ 4 ∷ 5 ∷ []

abbrev commit_three : SyncRsCommitLsnMsg
commit_three = record { rs_commit_lsn = 3; client_token = 9; empty_slots = [] }

abbrev login_nine : InternalLoginMsg
login_nine = record { client_token = 9; term = 6; rs_commit_lsn = 1 }

abbrev deposed : ClientHdr
deposed = record { term = 0; commit_lsn = 0; all_committed_lsn = 0; client_token = 5 }

-- Two of five lack the slot; one member has it.
resolve_example :
    let g = resolve_and_apply (from_peers peer up) members leader 3 0 in
    ((x : Lsn)
      → among x g.empties ≡ true
      → (0 < x)
        × (x ≤ 3)
        × (find x leader.journal ≡ none)
        × (5 / 2 + 1 ≤ 1 + lacks x (answers (from_peers peer up) members leader 3 0)))
    × (g.stalled_lsn ≡ no_lsn
        → (x : Lsn) → 0 < x
        → x ≤ 3
        → (among x g.empties ≡ true) ⊎ (find x g.replica.journal ≢ none))
    × Filled leader g.replica
resolve_example =
    resolve_and_apply_lem (from_peers peer up) members leader 3 0 leader-IsValid.ordered

resolve_quorum_example :
    among 2 (resolve_and_apply (from_peers peer up) members leader 3 0).empties ≡ false
resolve_quorum_example =
    resolve_and_apply-quorum peer up members leader 3 0 2 leader-IsValid.ordered refl (omega arith)

nothing_voided : (d : Lsn) → among d [] ≡ true → 0 < d
nothing_voided d e = absurd (ground arith)

sync_obeys_example :
    let q = apply_sync (from_peers peer up) members commit_three leader in
    IsValid q
    × (0 ≤ q.commit_lsn)
    × ((d : Lsn) → among d [] ≡ true → find d q.journal ≡ some (tombstone 0))
    × ((d : Lsn)
        → among d [] ≡ false
        → find d leader.journal ≢ none
        → find d q.journal ≡ find d leader.journal)
sync_obeys_example =
    apply_sync_obeys peer up members commit_three leader leader-IsValid nothing_voided

two_is_Held :
    (d : Lsn)
    → 0 < d
    → d ≤ 3
    → among d [] ≡ false
    → find d leader.journal ≡ none
    → Held peer up 1 members d
two_is_Held d lo hi open_slot gone =
    (2, refl, (λ e. omega arith), refl, subst (λ x. find x holder.journal ≢ none) two (λ e. cc))
  where
    two : 2 ≡ d
    two = ground arith

sync_catches_up_example :
    3 ≤ (apply_sync (from_peers peer up) members commit_three leader).commit_lsn
sync_catches_up_example =
    apply_sync_catches_up peer up members commit_three leader leader-IsValid nothing_voided
      two_is_Held

commit_example :
    let fetch = from_peers peer up in
    let r = fresh_raft leader in
    (sync_from_json (sync_to_json commit_three) ≡ ok commit_three)
    × (commit fetch members (sync_to_json commit_three) r
        ≡ record r { base = apply_sync fetch members commit_three leader; rs_commit_lsn = 3 })
    × (commit fetch members (login_to_json login_nine) r ≡ record r {
      base = with_session leader 9 6;
      login_done = true;
      pending_login_timer = none;
    })
commit_example =
    commit-to_json (from_peers peer up) members (fresh_raft leader) commit_three login_nine

quiesce_twice_example :
    let q = quiesce_timeout (poll_for_login (poll_for_login (fresh_raft leader) 6) 7) in
    (q.base.term ≡ 6)
    × ((do_write q.base deposed 4 4 2 none).1 ≡ q.base)
    × ((pair : LsnPair) → (do_write q.base deposed 4 4 2 none).0 ≢ ok pair)
quiesce_twice_example =
    quiesce_twice (fresh_raft leader) 6 7 deposed 4 4 2 none refl (λ e. omega arith)

-- All proposals are taken, and the commit worker runs the login before the wait ends.
abbrev env : Services
env = record {
  is_raft_enabled = true;
  is_leader = true;
  leader_id = 1;
  members = members;
  get_rs_commit_lsn = poll_from peer up;
  fetch_data = from_peers peer up;
  propose_sync = λ m. ok tt;
  propose_login = λ m. ok tt;
  wait_for = λ r. internal_login r login_nine;
}

abbrev login_reply : LoginResult
login_reply = record {
  members = members;
  dlsn = 3;
  term = 0;
  lba_size = 0;
  capacity = 0;
  leader_hint = 0;
  max_tx = 0;
}

granted : (apply_login env 9 6 (fresh_raft leader)).0 ≡ ok login_reply
unfolding apply_login poll sync_rs_commit_lsn resolve_and_apply get_missing_slots missing_from
    push_run decide_all decide_lsn judge collect do_fetch internal_login
granted = refl

login_majority_example : 2 ≤ login_reply.dlsn
login_majority_example =
    apply_login_majority env peer up 9 6 (fresh_raft leader) login_reply 2 refl refl refl refl
      (omega arith) granted
