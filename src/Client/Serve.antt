-- ===== src/Client/Serve.antt =====
-- The read path of the client, its keep-alives, flush, logout and the resolution leg
-- (src/client.cpp). The replies are given by the index of the replica; `rotor` is the thread's
-- `read_rotor`. A plan that stalls has no result yet: the read is run again after the next resolve.
use craft_client.Prelude.{
  ℕ, zero, suc, ◌+◌, ◌%◌, ◌≡◌, ◌⊎◌, refl, Bool, true, false, not, ◌&&◌, ◌||◌, Option, none, some,
  List, [], ◌∷◌, ◌==◌, if◌then◌else◌, max, inl, inr, Bool-cases, Option-cases, ◌≤◌, ap, ◌∙◌, arith,
  map, All,
}
use craft_client.Prelude.Results.{ok, unexpected, Expected-cases}
use craft_client.Types.{
  Lsn, no_lsn, LsnPair, CraftError, Errc, ErrorCondition, craft, generic, Result,
}
use craft_client.Stream.{StreamTracker}
use craft_client.Stream.Intervals.{IntervalMap}
use craft_client.Tracker.{DlsnSlot}
use craft_client.Tracker.Plan.{ReadSegment, PlanRead, plan_read, planned, no_quorum, stalled}
use craft_client.Route.{
  RouteSlot, ReadRouteMap, fold_to, eligible, advance_synced, try_begin_keepalive, end_keepalive,
}
use craft_client.Client.{State, precheck}

-- The watermarks of a plan's replies: of one segment its own, of several the highest.
abbrev pub highest : LsnPair → List (Result LsnPair) → Result LsnPair
highest best [] = ok best
highest best (unexpected e ∷ rs) = unexpected e
highest best (ok p ∷ rs) =
    highest
      (record {
        commit_lsn = max best.commit_lsn p.commit_lsn;
        last_append_lsn = max best.last_append_lsn p.last_append_lsn;
      })
      rs

-- The reads of a plan at one member, which answers a horizon, an address and a length.
unfoldable pub issue_plan :
    (Lsn → ℕ → ℕ → Result LsnPair) → List ReadSegment → ℕ → ℕ → Result LsnPair
issue_plan send [] addr len = highest (record { commit_lsn = no_lsn; last_append_lsn = no_lsn }) []
issue_plan send (s ∷ []) addr len = send s.horizon addr len
issue_plan send (s ∷ t ∷ segs) addr len =
    highest (record { commit_lsn = no_lsn; last_append_lsn = no_lsn })
      (map (λ g. send g.horizon g.addr g.len) (s ∷ t ∷ segs))

-- Every read of the plan was answered without an error: the only segment for the whole range, and
-- of several each for its own.
abbrev pub Answered : (Lsn → ℕ → ℕ → Result LsnPair) → List ReadSegment → ℕ → ℕ → Type 0
Answered send [] addr len = Unit
Answered send (s ∷ []) addr len = (p : LsnPair) × (send s.horizon addr len ≡ ok p)
Answered send (s ∷ t ∷ segs) addr len =
    All (λ g. (p : LsnPair) × (send g.horizon g.addr g.len ≡ ok p)) (s ∷ t ∷ segs)

highest-All :
    (send : Lsn → ℕ → ℕ → Result LsnPair) (segs : List ReadSegment) (best got : LsnPair)
    → highest best (map (λ g. send g.horizon g.addr g.len) segs) ≡ ok got
    → All (λ g. (p : LsnPair) × (send g.horizon g.addr g.len ≡ ok p)) segs
highest-All send [] best got e = tt
highest-All send (g ∷ segs) best got e = elim (Expected-cases (send g.horizon g.addr g.len)) [
  | inl (p, good) ↦ ((p, good), highest-All send segs _ got (rw good at e))
  | inr (x, bad) ↦ absurd (cc (rw bad at e))
]

issue_plan-Answered :
    (send : Lsn → ℕ → ℕ → Result LsnPair) (segs : List ReadSegment) (addr len : ℕ) (got : LsnPair)
    → issue_plan send segs addr len ≡ ok got
    → Answered send segs addr len
unfolding issue_plan
issue_plan-Answered send [] addr len got e = tt
issue_plan-Answered send (s ∷ []) addr len got e = (got, e)
issue_plan-Answered send (s ∷ t ∷ segs) addr len got e =
    highest-All send (s ∷ t ∷ segs) (record { commit_lsn = no_lsn; last_append_lsn = no_lsn }) got e

unfoldable pub transport_failure : ErrorCondition → Bool
transport_failure (craft CraftError.replica_down) = true
transport_failure (generic Errc.timed_out) = true
transport_failure _ = false

abbrev pub highest_horizon : Lsn → List ReadSegment → Lsn
highest_horizon h [] = h
highest_horizon h (s ∷ segs) = highest_horizon (max h s.horizon) segs

module _ (st : StreamTracker DlsnSlot) (sr : StreamTracker RouteSlot) (im : IntervalMap) where
  abbrev pub Routes : Type 0
  Routes = ReadRouteMap sr.Tracker im.Intervals

  -- The keep-alives that go out, and the flags they set.
  unfoldable pub begin_keepalives : ℕ → ℕ → ℕ → Routes → List ℕ × Routes
  begin_keepalives zero m exclude_idx r = ([], r)
  begin_keepalives (suc n) m exclude_idx r =
      let p = if m == exclude_idx then (false, r) else try_begin_keepalive sr im m r in
      let rest = begin_keepalives n (m + 1) exclude_idx p.1 in
      (if p.0 then m ∷ rest.0 else rest.0, rest.1)

  unfoldable pub drive_keepalives : ℕ → State st sr im → List ℕ × State st sr im
  drive_keepalives exclude_idx c =
      if c.term == 0
      then ([], c)
      else (let p = begin_keepalives c.replicas 0 exclude_idx c.route in
          (p.0, record c { route = p.1 }))

  -- The end of a keep-alive.
  unfoldable pub fire_keepalive : ℕ → Result LsnPair → State st sr im → State st sr im
  fire_keepalive idx (unexpected e) c = record c { route = end_keepalive sr im idx c.route }
  fire_keepalive idx (ok p) c = record c {
    route = end_keepalive sr im idx (advance_synced sr im idx p.commit_lsn c.route);
  }

  -- What a read leaves: its result, the rotor, the keep-alives that go out, and the state.
  pub record Served : Type 0 where
    pub outcome : Result ℕ
    pub rotor : ℕ
    pub fired : List ℕ
    pub client : State st sr im

  abbrev pub served : ℕ → ℕ → ℕ → LsnPair → State st sr im → Served
  served len idx rotor p c =
      let d =
        drive_keepalives idx (record c { route = advance_synced sr im idx p.commit_lsn c.route }) in
      record { outcome = ok len; rotor = rotor; fired = d.0; client = d.1 }

  abbrev pub unserved : ErrorCondition → ℕ → State st sr im → Served
  unserved e rotor c = record { outcome = unexpected e; rotor = rotor; fired = []; client = c }

  -- One eligible member has answered.
  abbrev pub after_read : ℕ → ℕ → ℕ → Result LsnPair → Served → State st sr im → Served
  after_read len idx rotor (ok p) next c = served len idx rotor p c
  after_read len idx rotor (unexpected e) next c =
      if transport_failure e then next else unserved e rotor c

  unfoldable pub read_walk :
      ℕ
      → ℕ
      → ℕ
      → ℕ
      → ℕ
      → List ReadSegment
      → Lsn
      → (ℕ → Lsn → ℕ → ℕ → Result LsnPair)
      → Bool
      → ℕ
      → State st sr im
      → Served
  read_walk zero hop start addr len segs hmax replies any_eligible rotor c =
      unserved (craft (if any_eligible then CraftError.no_quorum else CraftError.not_eligible))
        rotor c
  read_walk (suc n) hop start addr len segs hmax replies any_eligible rotor c =
      let idx = (start + hop) % c.replicas in
      let can = eligible sr im idx addr len hmax c.route in
      let rotor' = if can && not any_eligible then idx + 1 else rotor in
      let next =
        read_walk n (hop + 1) start addr len segs hmax replies (can || any_eligible) rotor' c in
      if can
      then after_read len idx rotor' (issue_plan (replies idx) segs addr len) next c
      else next

  -- `none` where the plan stalls.
  unfoldable pub read :
      ℕ → ℕ → ℕ → (ℕ → Lsn → ℕ → ℕ → Result LsnPair) → State st sr im → Option Served
  read addr len rotor replies c = elim (precheck st sr im addr len c) [
    | some e ↦ some (unserved e rotor c)
    | none ↦
        let p = plan_read st addr len c.tracker in
        let c' = record c { tracker = p.1 } in
        elim p.0 [
          | stalled ↦ none
          | no_quorum ↦ some (unserved (craft CraftError.no_quorum) rotor c')
          | planned segs ↦
              let f = c'.tracker.frontier in
              some (
                read_walk c.replicas 0 (rotor % c.replicas) addr len segs (highest_horizon f segs)
                  replies false rotor (record c' { route = fold_to sr im f c'.route }))
        ]
  ]

  chosen :
      (got : ℕ) (b : Bool) (x y : Served)
      → (if b then x else y).outcome ≡ ok got
      → ((b ≡ true) × (x.outcome ≡ ok got)) ⊎ (y.outcome ≡ ok got)
  chosen got true x y e = inl (refl, e)
  chosen got false x y e = inr e

  answered :
      (len idx rotor got : ℕ) (r : Result LsnPair) (next : Served) (c : State st sr im)
      → (after_read len idx rotor r next c).outcome ≡ ok got
      → ((p : LsnPair) × (r ≡ ok p) × (got ≡ len)) ⊎ (next.outcome ≡ ok got)
  answered len idx rotor got (ok p) next c e = inl (p, refl, cc e)
  answered len idx rotor got (unexpected x) next c e = elim (Bool-cases (transport_failure x)) [
    | inl again ↦ inr (rw again at e)
    | inr surfaced ↦ cc (surfaced, e)
  ]

  read_walk-eligible :
      (n hop start addr len : ℕ) (segs : List ReadSegment) (hmax : Lsn)
      (replies : ℕ → Lsn → ℕ → ℕ → Result LsnPair) (any : Bool) (rotor got : ℕ) (c : State st sr im)
      → (read_walk n hop start addr len segs hmax replies any rotor c).outcome ≡ ok got
      → (idx : ℕ) × (p : LsnPair) × (eligible sr im idx addr len hmax c.route ≡ true)
        × (issue_plan (replies idx) segs addr len ≡ ok p)
        × (got ≡ len)
  unfolding read_walk
  read_walk-eligible zero hop start addr len segs hmax replies any rotor got c e = cc e
  read_walk-eligible (suc n) hop start addr len segs hmax replies any rotor got c e =
      let idx = (start + hop) % c.replicas in
      let can = eligible sr im idx addr len hmax c.route in
      let rotor' = if can && not any then idx + 1 else rotor in
      let next = read_walk n (hop + 1) start addr len segs hmax replies (can || any) rotor' c in
      let go_on =
        read_walk-eligible n (hop + 1) start addr len segs hmax replies (can || any) rotor' got c in
      elim (chosen got can
        (after_read len idx rotor' (issue_plan (replies idx) segs addr len) next c) next e) [
          | inl here ↦
              elim (answered len idx rotor' got (issue_plan (replies idx) segs addr len) next c
                here.1) [
                  | inl done ↦ (idx, done.0, here.0, done.1, done.2)
                  | inr later ↦ go_on later
                ]
          | inr later ↦ go_on later
        ]

  highest_horizon-le : (h : Lsn) (segs : List ReadSegment) → h ≤ highest_horizon h segs
  highest_horizon-le h [] = omega arith
  highest_horizon-le h (s ∷ segs) = omega (arith, highest_horizon-le (max h s.horizon) segs)

  highest_horizon-All :
      (h : Lsn) (segs : List ReadSegment) → All (λ g. g.horizon ≤ highest_horizon h segs) segs
  highest_horizon-All h [] = tt
  highest_horizon-All h (s ∷ segs) = (
    omega (arith, highest_horizon-le (max h s.horizon) segs),
    highest_horizon-All (max h s.horizon) segs,
  )

  -- A read that returns was planned, into segments whose horizons are no higher than the horizon
  -- at which it was routed, and one member served it: the router, folded up to the frontier, holds
  -- the member eligible for the whole range at that horizon, and the member answered every read of
  -- the plan without an error. The read returns the length that was asked for.
  pub read-eligible :
      (addr len rotor got : ℕ) (replies : ℕ → Lsn → ℕ → ℕ → Result LsnPair) (c : State st sr im)
      (s : Served)
      → read addr len rotor replies c ≡ some s
      → s.outcome ≡ ok got
      → (segs : List ReadSegment) × (idx : ℕ) × (hmax : Lsn) × ((plan_read st addr len c.tracker).0
          ≡ planned segs)
        × All (λ g. g.horizon ≤ hmax) segs
        × (let f = (plan_read st addr len c.tracker).1.frontier in
            (f ≤ hmax) × (eligible sr im idx addr len hmax (fold_to sr im f c.route) ≡ true))
        × Answered (replies idx) segs addr len
        × (got ≡ len)
  unfolding read
  read-eligible addr len rotor got replies c s e good =
      elim (Option-cases (precheck st sr im addr len c)) [
        | inr (x, refused) ↦ absurd (fails x rotor c (rw (refused, read) at e))
        | inl pass ↦ elim (plan_cases (plan_read st addr len c.tracker).0) [
          | inl (inl waits) ↦ absurd (cc (rw (pass, waits, read) at e))
          | inl (inr lost) ↦ absurd (fails _ rotor _ (rw (pass, lost, read) at e))
          | inr (segs, plan) ↦ by_plan segs plan (rw (pass, plan, read) at e)
        ]
      ]
    where
      fails : (x : ErrorCondition) (n : ℕ) (q : State st sr im) → some (unserved x n q) ≡ some s → ⊥
      fails x n q same = let eq : unserved x n q ≡ s = cc same in cc (ap (λ u. u.outcome) eq, good)

      plan_cases :
          (p : PlanRead st)
          → ((p ≡ stalled) ⊎ (p ≡ no_quorum)) ⊎ ((segs : List ReadSegment) × (p ≡ planned segs))
      plan_cases stalled = inl (inl refl)
      plan_cases no_quorum = inl (inr refl)
      plan_cases (planned segs) = inr (segs, refl)

      f : Lsn
      f = (plan_read st addr len c.tracker).1.frontier

      routed : State st sr im
      routed = record c {
        tracker = (plan_read st addr len c.tracker).1;
        route = fold_to sr im f c.route;
      }

      by_plan :
          (segs : List ReadSegment)
          → (plan_read st addr len c.tracker).0 ≡ planned segs
          → some (
              read_walk c.replicas 0
                (rotor % c.replicas)
                addr
                len
                segs
                (highest_horizon f segs)
                replies
                false
                rotor
                routed)
            ≡ some s
          → (segs : List ReadSegment) × (idx : ℕ) × (hmax : Lsn) × ((plan_read st addr len
                c.tracker).0
              ≡ planned segs)
            × All (λ g. g.horizon ≤ hmax) segs
            × ((f ≤ hmax) × (eligible sr im idx addr len hmax (fold_to sr im f c.route) ≡ true))
            × Answered (replies idx) segs addr len
            × (got ≡ len)
      by_plan segs plan same =
          let eq : read_walk c.replicas 0 (rotor % c.replicas) addr len segs
                (highest_horizon f segs) replies false rotor routed
              ≡ s =
            cc same in
          let (idx, p, can, answers, all) =
            read_walk-eligible c.replicas 0 (rotor % c.replicas) addr len segs
              (highest_horizon f segs) replies false rotor got routed
              (ap (λ u. u.outcome) eq ∙ good) in
          (
            segs,
            idx,
            highest_horizon f segs,
            plan,
            highest_horizon-All f segs,
            (highest_horizon-le f segs, can),
            issue_plan-Answered (replies idx) segs addr len p answers,
            all,
          )
