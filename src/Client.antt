-- ===== src/Client.antt =====
-- The client of a partition (src/client.cpp, src/client_impl.hpp): the session, and the write path
-- over the dLSN tracker and the read router. The replies of the replicas are given: those of a
-- login walk by the target, those of a probe or of a write by the replica's index, with the order
-- in which the legs of the write complete. The probes of a login are a first round and those that
-- follow until the deadline. A leg that throws is given as REPLICA_DOWN. A straggler's leg is a step
-- of its own, `write_leg`, after the write has returned.
pub mod Session
pub mod Serve
pub mod Close
pub mod Outcome
pub mod Tests
use craft_client.Prelude.{
  ℕ, zero, suc, ◌+◌, ◌-◌, ◌/◌, ◌%◌, Bool, true, false, not, ◌&&◌, ◌||◌, Option, none, some, List,
  [], ◌∷◌, leb, ltb, ◌==◌, if◌then◌else◌,
}
use craft_client.Prelude.Results.{ok, unexpected}
use craft_client.Types.{
  Lsn, no_lsn, LsnPair, ClientHdr, LoginResult, CraftError, Errc, ErrorCondition, craft, generic,
  Result,
}
use craft_client.Stream.{StreamTracker}
use craft_client.Stream.Intervals.{IntervalMap}
use craft_client.Tracker.{
  DlsnSlot, DlsnTracker, SlotOutcome, reset_at, reserve, resolve, note_resolution_want,
}
use craft_client.Route.{
  RouteSlot, ReadRouteMap, reset, create, record_completion, fold_to, advance_synced,
  try_begin_resolution,
}
use craft_client.Transport.Rejects.{deterministic_reject}

pub record CraftClient (W V M : Type 0) : Type 0 where
  pub replicas : ℕ
  pub leader : ℕ
  pub term : ℕ
  pub client_token : ℕ
  pub lba_size : ℕ
  pub capacity : ℕ
  pub max_tx : ℕ
  pub tracker : DlsnTracker W
  pub route : ReadRouteMap V M

abbrev pub k_fold_batch : ℕ
k_fold_batch = 512

abbrev pub quorum_of : ℕ → ℕ
quorum_of n = n / 2 + 1

-- `last_err ? last_err : e`.
abbrev pub or_error : Option ErrorCondition → ErrorCondition → ErrorCondition
or_error none e = e
or_error (some last) e = last

abbrev pub is_ack : Result LsnPair → Bool
is_ack (ok p) = true
is_ack (unexpected e) = false

-- The last error, and the number of deterministic rejections, in the order of the replicas.
abbrev pub last_error : Option ErrorCondition → List (Result LsnPair) → Option ErrorCondition
last_error e [] = e
last_error e (ok p ∷ rs) = last_error e rs
last_error e (unexpected x ∷ rs) = last_error (some x) rs

abbrev pub refusals : List (Result LsnPair) → ℕ
refusals [] = 0
refusals (ok p ∷ rs) = refusals rs
refusals (unexpected x ∷ rs) = if deterministic_reject x then suc (refusals rs) else refusals rs

abbrev pub reply_of : List (Result LsnPair) → ℕ → Result LsnPair
reply_of [] i = unexpected (craft CraftError.replica_down)
reply_of (r ∷ rs) zero = r
reply_of (r ∷ rs) (suc i) = reply_of rs i

module _ (st : StreamTracker DlsnSlot) (sr : StreamTracker RouteSlot) (im : IntervalMap) where
  abbrev pub State : Type 0
  State = CraftClient st.Tracker sr.Tracker im.Intervals

  unfoldable pub make_hdr : State → ClientHdr
  make_hdr c = record {
    term = c.term;
    commit_lsn = c.tracker.frontier;
    all_committed_lsn = c.route.all_committed;
    client_token = c.client_token;
  }

  unfoldable pub maybe_fold : State → State
  maybe_fold c =
      if leb k_fold_batch (c.tracker.frontier - c.route.folded)
      then record c { route = fold_to sr im c.tracker.frontier c.route }
      else c

  unfoldable pub precheck : ℕ → ℕ → State → Option ErrorCondition
  precheck addr len c =
      if c.term == 0
      then some (generic Errc.not_connected)
      else (if not (c.lba_size == 0)
            && not (len == 0)
            && addr % c.lba_size == 0
            && len % c.lba_size == 0
          then none
          else some (generic Errc.invalid_argument))

  -- What one probe round tells: the acks, whether a member holds the login dLSN, and the router.
  unfoldable pub probe :
      ℕ
      → Lsn
      → List (Result LsnPair)
      → ℕ
      → Bool
      → ReadRouteMap sr.Tracker im.Intervals
      → ℕ × Bool × ReadRouteMap sr.Tracker im.Intervals
  probe i l [] acked holder r = (acked, holder, r)
  probe i l (unexpected e ∷ acks) acked holder r = probe (i + 1) l acks acked holder r
  probe i l (ok p ∷ acks) acked holder r =
      probe (i + 1) l acks (acked + 1) (leb l p.commit_lsn || holder)
        (advance_synced sr im i p.commit_lsn r)

  unfoldable pub admit :
      Lsn → List (Result LsnPair) → List (List (Result LsnPair)) → State → Result (Unit {0}) × State
  admit l acks [] c =
      let p = probe 0 l acks 0 false c.route in
      if leb (quorum_of c.replicas) p.0 && p.1
      then (ok tt, record c { route = p.2 })
      else (unexpected (craft CraftError.no_quorum), record c { route = p.2 })
  admit l acks (next ∷ later) c =
      let p = probe 0 l acks 0 false c.route in
      elim (leb (quorum_of c.replicas) p.0 && p.1) [
        | true ↦ (ok tt, record c { route = p.2 })
        | false ↦ admit l next later (record c { route = p.2 })
      ]

  -- The session that a leader's reply opens.
  abbrev pub open_session : ℕ → ℕ → LoginResult → State → State
  open_session target client_token lr c = record c {
    leader = target;
    term = lr.term;
    client_token = client_token;
    lba_size = lr.lba_size;
    capacity = lr.capacity;
    max_tx = lr.max_tx;
    tracker = reset_at st lr.dlsn lr.lba_size c.tracker;
    route = reset sr im c.replicas lr.dlsn;
  }

  abbrev pub after_reply :
      ℕ
      → ℕ
      → Result LoginResult
      → List (Result LsnPair)
      → List (List (Result LsnPair))
      → (Option ErrorCondition → Result (Unit {0}) × State)
      → Option ErrorCondition
      → State
      → Result (Unit {0}) × State
  after_reply target token (unexpected e) acks later go_on err c = go_on (some e)
  after_reply target token (ok lr) acks later go_on err c =
      if lr.term == 0 then go_on err else admit lr.dlsn acks later (open_session target token lr c)

  unfoldable pub login_walk :
      ℕ
      → ℕ
      → ℕ
      → (ℕ → Result LoginResult)
      → List (Result LsnPair)
      → List (List (Result LsnPair))
      → Option ErrorCondition
      → State
      → Result (Unit {0}) × State
  login_walk zero hop token replies acks later err c =
      (unexpected (or_error err (craft CraftError.not_leader)), c)
  login_walk (suc n) hop token replies acks later err c =
      let target = (c.leader + hop) % c.replicas in
      after_reply target token (replies target) acks later
        (λ e. login_walk n (hop + 1) token replies acks later e c) err c

  unfoldable pub login :
      ℕ
      → (ℕ → Result LoginResult)
      → List (Result LsnPair)
      → List (List (Result LsnPair))
      → State
      → Result (Unit {0}) × State
  login token replies acks later c = login_walk c.replicas 0 token replies acks later none c

  -- The end of a leg: the router learns of it, acked or not.
  unfoldable pub write_leg : Lsn → ℕ → Result LsnPair → State → State
  write_leg dlsn idx (unexpected e) c = record c {
    route = record_completion sr im dlsn idx false c.route;
  }
  write_leg dlsn idx (ok p) c = record c {
    route = advance_synced sr im idx p.commit_lsn (record_completion sr im dlsn idx true c.route);
  }

  -- The legs in the order they end, up to the quorum (`when_quorum`).
  unfoldable pub broadcast : ℕ → Lsn → List ℕ → List (Result LsnPair) → ℕ → State → ℕ × State
  broadcast q dlsn [] replies acks c = (acks, c)
  broadcast q dlsn (i ∷ order) replies acks c =
      let acks' = if is_ack (reply_of replies i) then suc acks else acks in
      let c' = write_leg dlsn i (reply_of replies i) c in
      elim (leb q acks') [ true ↦ (acks', c') | false ↦ broadcast q dlsn order replies acks' c' ]

  -- The members to which a resolution leg goes out, and the flags they set.
  unfoldable pub begin_legs :
      ℕ → ℕ → ReadRouteMap sr.Tracker im.Intervals → List ℕ × ReadRouteMap sr.Tracker im.Intervals
  begin_legs zero m r = ([], r)
  begin_legs (suc n) m r =
      let p = try_begin_resolution sr im m r in
      let rest = begin_legs n (m + 1) p.1 in (if p.0 then m ∷ rest.0 else rest.0, rest.1)

  unfoldable pub request_resolution_round : Lsn → State → List ℕ × State
  request_resolution_round upto c =
      let p = begin_legs c.replicas 0 c.route in
      (p.0, record c { tracker = note_resolution_want upto c.tracker; route = p.1 })

  abbrev pub resolved : Lsn → SlotOutcome → State → State
  resolved dlsn oc c = maybe_fold (record c { tracker = resolve st dlsn oc c.tracker })

  -- The end of a write below quorum.
  unfoldable pub write_failed : Lsn → List (Result LsnPair) → State → Result ℕ × List ℕ × State
  write_failed dlsn replies c =
      let e = or_error (last_error none replies) (craft CraftError.no_quorum) in
      if refusals replies == c.replicas
      then (unexpected e, [], resolved dlsn SlotOutcome.empty c)
      else (let p = request_resolution_round dlsn (resolved dlsn SlotOutcome.failed c) in
          (unexpected e, p.0, p.1))

  abbrev pub issue : ℕ → ℕ → State → Lsn × State
  issue addr len c =
      let p = reserve st addr len c.tracker in
      (p.0, record c { tracker = p.1; route = create sr im p.0 addr len c.route })

  -- The result, the members that a resolution leg goes out to, and the state.
  unfoldable pub write : ℕ → ℕ → List ℕ → List (Result LsnPair) → State → Result ℕ × List ℕ × State
  write addr len order replies c = elim (precheck addr len c) [
    | some e ↦ (unexpected e, [], c)
    | none ↦
        let p = issue addr len c in
        let b = broadcast (quorum_of c.replicas) p.0 order replies 0 p.1 in
        if leb (quorum_of c.replicas) b.0
        then (ok len, [], resolved p.0 SlotOutcome.acked b.1)
        else write_failed p.0 replies b.1
  ]
