-- ===== src/Raft/Watermark.antt =====
-- The watermark of a login, `max(quorum.last_append)`.
use craft_client.Prelude.{
  ℕ, ◌+◌, ◌/◌, ◌≤◌, ◌<◌, ◌≡◌, refl, ap, sym, ◌∙◌, Bool, true, false, List, [], ◌∷◌, ◌==◌,
  if◌then◌else◌, inl, inr, Bool-cases, length, arith, leb, max,
}
use craft_client.Prelude.Results.{ok, unexpected}
use craft_client.Types.{Lsn, LsnPair, LoginResult, Result, craft, no_quorum, replica_down}
use craft_client.Replica.{MemCraftReplica}
use craft_client.Replica.Ops.{lsns_of}
use craft_client.Raft.{RaftReplica, with_base}
use craft_client.Raft.Catchup.{sync_rs_commit_lsn}
use craft_client.Raft.Login.{
  Services, poll, push_answer, max_last_append, await_login, propose_login_after, responses,
  apply_login,
}
use craft_client.Raft.Missing.{among}
use craft_client.Raft.Quorum.{others, others_self}

-- The answers of peers in given states, some of which cannot be reached.
abbrev pub poll_from : (ℕ → MemCraftReplica) → (ℕ → Bool) → ℕ → ℕ → Bool → Result LsnPair
poll_from peer up p term is_login =
    if up p then ok (lsns_of (peer p)) else unexpected (craft replica_down)

module _ (env : Services) where
  await_login-watermark :
      (d : Lsn) (p : Result (Unit {0})) (r : RaftReplica) (L : LoginResult)
      → (await_login env d p r).0 ≡ ok L
      → (L.dlsn ≡ d) × ((await_login env d p r).1.login_done ≡ true)
  await_login-watermark d (unexpected e) r L h = absurd (ground arith)
  await_login-watermark d (ok u) r L h = ground arith

  propose_login_after-watermark :
      (token term : ℕ) (d : Lsn) (p : Result (Unit {0})) (r : RaftReplica) (L : LoginResult)
      → (propose_login_after env token term d p r).0 ≡ ok L
      → (L.dlsn ≡ d) × ((propose_login_after env token term d p r).1.login_done ≡ true)
  propose_login_after-watermark token term d (unexpected e) r L h = absurd (ground arith)
  propose_login_after-watermark token term d (ok u) r L h =
      await_login-watermark d _ (record r { login_done = false }) L h

  abbrev synced : ℕ → ℕ → RaftReplica → Result (Unit {0}) × MemCraftReplica
  synced token term r =
      sync_rs_commit_lsn env.fetch_data env.propose_sync env.members r.base
        (max_last_append (responses env term r)) token r.base.term

  -- What is left of a login at a leader.
  apply_login_led :
      (token term : ℕ) (r : RaftReplica)
      → env.is_raft_enabled ≡ true
      → env.is_leader ≡ true
      → apply_login env token term r ≡ (
          if leb (length (responses env term r)) (length env.members / 2)
          then (unexpected (craft no_quorum), r)
          else propose_login_after env token term
              (max_last_append (responses env term r))
              (synced token term r).0
              (with_base r (synced token term r).1))
  unfolding apply_login
  apply_login_led token term r on leads = rw on (rw leads refl)

  -- A login that a leader grants was answered by more than half of the members, counting itself,
  -- returns the highest append watermark among the answers, and saw the commit of its own message.
  pub apply_login_granted :
      (token term : ℕ) (r : RaftReplica) (L : LoginResult)
      → env.is_raft_enabled ≡ true
      → env.is_leader ≡ true
      → (apply_login env token term r).0 ≡ ok L
      → (length env.members / 2 < length (responses env term r))
        × (L.dlsn ≡ max_last_append (responses env term r))
        × ((apply_login env token term r).1.login_done ≡ true)
  apply_login_granted token term r L on leads h =
      elim (Bool-cases (leb (length (responses env term r)) (length env.members / 2))) [
        | inl few ↦ absurd (cc (rw few at (apply_login_led token term r on leads), h))
        | inr enough ↦
            let led = rw enough at (apply_login_led token term r on leads) in
            let (dlsn, done) =
              propose_login_after-watermark token term (max_last_append (responses env term r))
                (synced token term r).0 (with_base r (synced token term r).1) L
                (ap (λ p. p.0) (sym led) ∙ h) in
            (ground arith, dlsn, ap (λ p. p.1.login_done) led ∙ done)
      ]

-- The answers of reachable members are all below a bound: none of them holds the append.
polled_below :
    (env : Services) (peer : ℕ → MemCraftReplica) (up : ℕ → Bool) (self term : ℕ) (d : Lsn)
    (members : List ℕ)
    → env.get_rs_commit_lsn ≡ poll_from peer up
    → max_last_append (poll env self term members) < d
    → length (poll env self term members)
        + others (λ p. leb d (peer p).last_append_lsn) self members
      ≤ others (λ p. true) self members
unfolding poll
polled_below env peer up self term d [] e lt = omega arith
polled_below env peer up self term d (p ∷ members) e lt =
    let rest = polled_below env peer up self term d members e in
    let reply : env.get_rs_commit_lsn p term true ≡ poll_from peer up p term true =
      ap (λ f. f p term true) e in
    elim (Bool-cases (p == self)) [
      | inl own ↦ rw own (omega (arith, rest (rw (own, poll) at lt)))
      | inr other ↦ rw other (elim (Bool-cases (up p)) [
        | inl reached ↦
            let got : env.get_rs_commit_lsn p term true ≡ ok (lsns_of (peer p)) =
              reply ∙ rw reached refl in
            let lower : max (peer p).last_append_lsn (max_last_append (poll env self term members))
                < d =
              rw got at (rw (other, poll) at lt) in
            rw (got, push_answer) (ground (arith, rest (omega (arith, lower))))
        | inr down ↦
            let none_got : env.get_rs_commit_lsn p term true ≡ unexpected (craft replica_down) =
              reply ∙ rw down refl in
            let lower : max_last_append (poll env self term members) < d =
              rw none_got at (rw (other, poll) at lt) in
            rw (none_got, push_answer) (ground (arith, rest lower))
      ])
    ]

module _ (env : Services) (peer : ℕ → MemCraftReplica) (up : ℕ → Bool) (token term : ℕ)
    (r : RaftReplica) (L : LoginResult) (d : Lsn) where
  -- At a leader that is one of the members, with Raft enabled and each reachable member answering
  -- the poll with its watermarks: when more than half of the members have appended a dLSN, the
  -- leader counted too, the watermark that a granted login returns is at or above that dLSN,
  -- whichever of the others were reached.
  pub apply_login_majority :
      env.is_raft_enabled ≡ true
      → env.is_leader ≡ true
      → env.get_rs_commit_lsn ≡ poll_from peer up
      → among r.base.id env.members ≡ true
      → length env.members / 2
        < (if leb d r.base.last_append_lsn then 1 else 0)
          + others (λ p. leb d (peer p).last_append_lsn) r.base.id env.members
      → (apply_login env token term r).0 ≡ ok L
      → d ≤ L.dlsn
  apply_login_majority on leads e member held h =
      let (quorum, dlsn, done) = apply_login_granted env token term r L on leads h in
      elim (Bool-cases (leb d (max_last_append (responses env term r)))) [
        | inl above ↦ ground arith
        | inr below ↦ absurd (
            ground (
              arith,
              quorum,
              others_self r.base.id env.members member,
              polled_below env peer up r.base.id term d env.members e (ground arith),
            ))
      ]
