-- ===== src/Client/Tests.antt =====
-- The client on concrete sessions of three replicas.
use craft_client.Prelude.{◌≤◌, ◌<◌, ◌≡◌, ◌⊎◌, refl, none, some, List, [], ◌∷◌, arith, length, All}
use craft_client.Prelude.Results.{ok, unexpected}
use craft_client.Types.{
  Lsn, LsnPair, LoginResult, ResolutionResult, CraftError, Errc, ErrorCondition, craft, generic,
  Result,
}
use craft_client.Stream.{StreamTracker}
use craft_client.Stream.Window.{Window, window}
use craft_client.Stream.Intervals.Bytes.{Bytes, bytes}
use craft_client.Tracker.{
  DlsnSlot, SlotOutcome, reset_at, resolution_want, dlsn_tracker, reserve, resolve,
  note_resolution_want,
}
use craft_client.Route.{
  RouteSlot, fold_to, reset, advance_synced, eligible, holds_all, try_begin_keepalive,
}
use craft_client.Client.{
  CraftClient, quorum_of, probe, admit, login_walk, login, precheck, write, refusals,
}
use craft_client.Client.Serve.{
  Served, Answered, unserved, issue_plan, transport_failure, drive_keepalives, begin_keepalives,
  read_walk, read, read-eligible,
}
use craft_client.Tracker.Plan.{
  ReadSegment, plan_read, planned, compute, add64, stall, one_segment, degraded,
}
use craft_client.Prelude.{Option, ℕ, false, true, ◌==◌, if◌then◌else◌}
use craft_client.Client.Close.{logout, logout_lem, leg_reply, leg_reply_lem, peek}
use craft_client.Tracker.Frontier.{IsValid, reset_at-IsValid, reserve-IsValid}
use craft_client.Tracker.Resolve.{resolve-IsValid}
use craft_client.Tracker.Retire.{open_at}
use craft_client.Client.Session.{login_opens}
use craft_client.Client.Outcome.{acked_in, IsRefusal, write_outcome}

abbrev st : StreamTracker DlsnSlot
st = window

abbrev sr : StreamTracker RouteSlot
sr = window

abbrev Session : Type 0
Session = CraftClient (Window DlsnSlot) (Window RouteSlot) Bytes

abbrev fresh : Session
fresh = record {
  replicas = 3;
  leader = 0;
  term = 0;
  client_token = 0;
  lba_size = 0;
  capacity = 0;
  max_tx = 0;
  tracker = dlsn_tracker 128;
  route = reset sr bytes 0 0;
}

abbrev granted : LoginResult
granted = record {
  members = [];
  dlsn = 0;
  term = 1;
  lba_size = 8;
  capacity = 64;
  leader_hint = 0;
  max_tx = 64;
}

abbrev at_start : Result LsnPair
at_start = ok (record { commit_lsn = 0; last_append_lsn = 0 })

abbrev late : Result LsnPair
late = unexpected (generic Errc.timed_out)

abbrev down : Result LsnPair
down = unexpected (craft CraftError.replica_down)

abbrev no_answers : List (Result LsnPair)
no_answers = down ∷ down ∷ down ∷ []

abbrev refused_login : Result (Unit {0}) × Session
refused_login = login st sr bytes 7 (λ i. ok granted) no_answers [] fresh

-- No replica answers a probe: the login fails, and the session is open all the same.
half_open : refused_login.0 ≡ unexpected (craft CraftError.no_quorum)
unfolding login login_walk admit probe
half_open = refl

login_opens_example :
    (refused_login.1.term ≡ 1)
    × (refused_login.1.client_token ≡ 7)
    × (precheck st sr bytes 8 16 refused_login.1 ≡ none)
login_opens_example =
    login_opens st sr bytes 7 8 16 (λ i. ok granted) no_answers [] fresh granted (omega arith) refl
      (omega arith) (omega arith) (omega arith) refl refl

abbrev session : Session
session = (login st sr bytes 7 (λ i. ok granted) (at_start ∷ at_start ∷ down ∷ []) [] fresh).1

ready : precheck st sr bytes 8 16 session ≡ none
unfolding login login_walk admit probe precheck reset advance_synced
ready = refl

abbrev two_acks : List (Result LsnPair)
two_acks = at_start ∷ late ∷ at_start ∷ []

write_outcome_example :
    (let w = write st sr bytes 8 16 (0 ∷ 1 ∷ 2 ∷ []) two_acks session in
      let p = reserve st 8 16 session.tracker in
      ((quorum_of session.replicas ≤ acked_in (0 ∷ 1 ∷ 2 ∷ []) two_acks)
        × (w.0 ≡ ok 16)
        × (w.2.tracker ≡ resolve st p.0 SlotOutcome.acked p.1))
      ⊎ ((acked_in (0 ∷ 1 ∷ 2 ∷ []) two_acks < quorum_of session.replicas)
          × ((e : ErrorCondition) × (w.0 ≡ unexpected e))
          × (((w.2.tracker ≡ resolve st p.0 SlotOutcome.empty p.1) × All IsRefusal two_acks)
              ⊎ ((w.2.tracker ≡ note_resolution_want p.0 (resolve st p.0 SlotOutcome.failed p.1))
                  × (refusals two_acks < length two_acks)))))
unfolding login login_walk admit probe
write_outcome_example = write_outcome st sr bytes 8 16 (0 ∷ 1 ∷ 2 ∷ []) two_acks session ready refl

-- The first eligible member is down, the next one serves the read.
abbrev fail_over : ℕ → Lsn → ℕ → ℕ → Result LsnPair
fail_over i H addr len = if i == 0 then down else at_start

abbrev by_second : Option (Served st sr bytes) → Served st sr bytes
by_second none = unserved st sr bytes (generic Errc.timed_out) 0 session
by_second (some s) = s

abbrev reply : Served st sr bytes
reply = by_second (read st sr bytes 0 8 0 fail_over session)

returns : read st sr bytes 0 8 0 fail_over session ≡ some reply
unfolding login login_walk admit probe reset advance_synced read precheck plan_read compute stall
    reset_at one_segment degraded
returns = refl

serves : reply.outcome ≡ ok 8
unfolding login login_walk admit probe reset advance_synced read read_walk eligible holds_all
    issue_plan transport_failure drive_keepalives begin_keepalives add64 try_begin_keepalive
    precheck plan_read compute stall reset_at one_segment degraded fold_to
serves = refl

read-eligible_example :
    (segs : List ReadSegment) × (idx : ℕ) × (hmax : Lsn) × ((plan_read st 0 8 session.tracker).0
      ≡ planned segs)
    × All (λ g. g.horizon ≤ hmax) segs
    × (let f = (plan_read st 0 8 session.tracker).1.frontier in
        (f ≤ hmax) × (eligible sr bytes idx 0 8 hmax (fold_to sr bytes f session.route) ≡ true))
    × Answered (fail_over idx) segs 0 8
    × (◌≡◌ {A = ℕ} 8 8)
read-eligible_example = read-eligible st sr bytes 0 8 0 8 fail_over session reply returns serves

-- The first replica is not the leader, the second knows no such session any more.
abbrev not_here : ℕ → Result (Unit {0})
not_here i =
    if i == 0
    then unexpected (craft CraftError.not_leader)
    else unexpected (craft CraftError.stale_term)

logout_example :
    let (reply, q) = logout st sr bytes not_here session in
    ((reply ≡ ok tt) × (precheck st sr bytes 8 16 q ≡ some (generic Errc.not_connected)))
    ⊎ ((e : ErrorCondition) × (reply ≡ unexpected e) × (q ≡ session))
logout_example = logout_lem st sr bytes not_here session 8 16

-- A session in which the write of dLSN 1 has failed.
abbrev pinned : Session
pinned = record session {
  tracker = resolve st 1 SlotOutcome.failed (reserve st 8 16 (reset_at st 0 8 session.tracker)).1;
}

pinned-IsValid : IsValid st pinned.tracker
pinned-IsValid =
    resolve-IsValid st 1 SlotOutcome.failed _
      (reserve-IsValid st 8 16 _ (reset_at-IsValid st 0 8 session.tracker))

abbrev voided : ResolutionResult
voided = record { resolved_upto = 1; empty_slots = 1 ∷ [] }

leg_reply_example :
    let (leg, q) = leg_reply st sr bytes 0 (ok voided) pinned in
    (leg ≡ peek)
    × ((w : Window DlsnSlot) × (q.tracker.tracker ≡ some w)
        × ((j : ℕ)
            → q.tracker.frontier < j
            → j ≤ 1
            → j < pinned.tracker.next_dlsn
            → open_at (st.slot w j) ≡ false))
    × ((want : ℕ) → resolution_want q.tracker ≡ some want → 1 < want)
leg_reply_example = leg_reply_lem st sr bytes 0 voided pinned pinned-IsValid
