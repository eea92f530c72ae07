-- ===== src/Client/Close.antt =====
-- The flush, the logout and the resolution leg of the client (src/client.cpp). The replies are given
-- as elsewhere: those of a flush by the replica's index, those of a logout by the target, and those
-- of a leg one at a time, since other operations run while it waits for each.
use craft_client.Prelude.{
  ℕ, zero, suc, ◌+◌, ◌%◌, ◌≤◌, ◌<◌, ◌∙◌, ◌≡◌, ◌⊎◌, refl, Bool, true, false, Option, none, some,
  List, [], ◌∷◌, ◌==◌, if◌then◌else◌, inl, inr, Bool-cases, if_either, arith, set, get_or, length,
}
use craft_client.Prelude.Results.{ok, unexpected}
use craft_client.Types.{
  Lsn, LsnPair, ResolutionResult, CraftError, Errc, ErrorCondition, craft, generic, Result,
}
use craft_client.Stream.{StreamTracker}
use craft_client.Stream.Intervals.{IntervalMap}
use craft_client.Tracker.{
  DlsnSlot, DlsnTracker, retire_upto, resolution_want, clear_resolution_want,
}
use craft_client.Route.{
  RouteSlot, ReadRouteMap, advance_synced, note_filled, try_begin_resolution, end_resolution,
}
use craft_client.Tracker.Frontier.{IsValid}
use craft_client.Tracker.Retire.{open_at, retire_upto-clears}
use craft_client.Client.{State, or_error, precheck}

-- Where a leg of a resolution round stands: it looks for a want, waits for the reply to one, has
-- given its flag back, or is over.
pub data Leg : Type 0 where
  peek : Leg
  waiting : Lsn → Leg
  released : Leg
  over : Leg

abbrev pub is_stale : ErrorCondition → Bool
is_stale (craft CraftError.stale_term) = true
is_stale _ = false

get_or-set_self : (xs : List Bool) (i : ℕ) → i < length xs → get_or (set xs i true) i false ≡ true
get_or-set_self [] i lt = absurd (omega arith)
get_or-set_self (x ∷ xs) zero lt = refl
get_or-set_self (x ∷ xs) (suc i) lt = get_or-set_self xs i (omega arith)

module _ (st : StreamTracker DlsnSlot) (sr : StreamTracker RouteSlot) (im : IntervalMap) where
  -- The replies in the order of the replicas: whether any answered, the last error, the router.
  unfoldable pub flush_replies :
      ℕ
      → List (Result LsnPair)
      → Bool
      → Option ErrorCondition
      → ReadRouteMap sr.Tracker im.Intervals
      → Bool × Option ErrorCondition × ReadRouteMap sr.Tracker im.Intervals
  flush_replies i [] any err r = (any, err, r)
  flush_replies i (unexpected e ∷ rs) any err r = flush_replies (i + 1) rs any (some e) r
  flush_replies i (ok p ∷ rs) any err r =
      flush_replies (i + 1) rs true err (advance_synced sr im i p.commit_lsn r)

  unfoldable pub flush : List (Result LsnPair) → State st sr im → Result (Unit {0}) × State st sr im
  flush replies c =
      let p = flush_replies 0 replies false none c.route in
      (
        if p.0 then ok tt else unexpected (or_error p.1 (craft CraftError.no_quorum)),
        record c { route = p.2 },
      )

  abbrev pub end_session : State st sr im → State st sr im
  end_session c = record c { term = 0; lba_size = 0; capacity = 0; max_tx = 0 }

  abbrev pub after_logout :
      ℕ
      → Result (Unit {0})
      → (Option ErrorCondition → Result (Unit {0}) × State st sr im)
      → State st sr im
      → Result (Unit {0}) × State st sr im
  after_logout target (ok u) next c = (ok tt, end_session (record c { leader = target }))
  after_logout target (unexpected e) next c =
      if is_stale e then (ok tt, end_session c) else next (some e)

  unfoldable pub logout_walk :
      ℕ
      → ℕ
      → (ℕ → Result (Unit {0}))
      → Option ErrorCondition
      → State st sr im
      → Result (Unit {0}) × State st sr im
  logout_walk zero hop replies err c = (unexpected (or_error err (craft CraftError.not_leader)), c)
  logout_walk (suc n) hop replies err c =
      let target = (c.leader + hop) % c.replicas in
      after_logout target (replies target) (λ e. logout_walk n (hop + 1) replies e c) c

  unfoldable pub logout :
      (ℕ → Result (Unit {0})) → State st sr im → Result (Unit {0}) × State st sr im
  logout replies c = if c.term == 0 then (ok tt, c) else logout_walk c.replicas 0 replies none c

  -- ── the leg of one replica in a resolution round ──

  abbrev pub with_end : ℕ → State st sr im → State st sr im
  with_end idx c = record c { route = end_resolution sr im idx c.route }

  abbrev pub peek_in : Option Lsn → ℕ → State st sr im → Leg × State st sr im
  peek_in none idx c = (released, with_end idx c)
  peek_in (some want) idx c = (waiting want, c)

  unfoldable pub leg_peek : ℕ → State st sr im → Leg × State st sr im
  leg_peek idx c = peek_in (resolution_want c.tracker) idx c

  unfoldable pub leg_reply : ℕ → Result ResolutionResult → State st sr im → Leg × State st sr im
  leg_reply idx (unexpected e) c = (over, with_end idx c)
  leg_reply idx (ok r) c =
      let p =
        retire_upto st r.resolved_upto r.empty_slots (λ d. note_filled sr im d idx) c.tracker
          c.route in
      (peek, record c { tracker = clear_resolution_want r.resolved_upto p.0; route = p.1 })

  -- A want that was noted before the flag was given back would strand without this.
  abbrev pub recheck_in : Option Lsn → ℕ → State st sr im → Leg × State st sr im
  recheck_in none idx c = (over, c)
  recheck_in (some want) idx c =
      let p = try_begin_resolution sr im idx c.route in
      (if p.0 then peek else over, record c { route = p.1 })

  unfoldable pub leg_recheck : ℕ → State st sr im → Leg × State st sr im
  leg_recheck idx c = recheck_in (resolution_want c.tracker) idx c

  abbrev Closes : State st sr im → Result (Unit {0}) × State st sr im → Type 0
  Closes c p =
      ((p.0 ≡ ok tt) × (p.1.term ≡ 0)) ⊎ ((e : ErrorCondition) × (p.0 ≡ unexpected e) × (p.1 ≡ c))

  after_logout-Closes :
      (target : ℕ) (r : Result (Unit {0}))
      (next : Option ErrorCondition → Result (Unit {0}) × State st sr im) (c : State st sr im)
      → ((e : Option ErrorCondition) → Closes c (next e))
      → Closes c (after_logout target r next c)
  after_logout-Closes target (ok u) next c h = inl (refl, refl)
  after_logout-Closes target (unexpected e) next c h =
      if_either (Closes c) (is_stale e) (inl (refl, refl)) (h (some e))

  logout_walk-Closes :
      (n hop : ℕ) (replies : ℕ → Result (Unit {0})) (err : Option ErrorCondition)
      (c : State st sr im)
      → Closes c (logout_walk n hop replies err c)
  unfolding logout_walk
  logout_walk-Closes zero hop replies err c =
      inr (or_error err (craft CraftError.not_leader), refl, refl)
  logout_walk-Closes (suc n) hop replies err c =
      after_logout-Closes _ (replies ((c.leader + hop) % c.replicas)) _ c
        (λ e. logout_walk-Closes n (hop + 1) replies e c)

  disconnected :
      (addr len : ℕ) (q : State st sr im)
      → q.term ≡ 0
      → precheck st sr im addr len q ≡ some (generic Errc.not_connected)
  unfolding precheck
  disconnected addr len q e = ground arith

  -- A logout that succeeds leaves no session, so that any later read or write is refused as not
  -- connected; one that fails leaves the client as it was.
  pub logout_lem :
      (replies : ℕ → Result (Unit {0})) (c : State st sr im) (addr len : ℕ)
      → let (reply, q) = logout replies c in
        ((reply ≡ ok tt) × (precheck st sr im addr len q ≡ some (generic Errc.not_connected)))
        ⊎ ((e : ErrorCondition) × (reply ≡ unexpected e) × (q ≡ c))
  unfolding logout
  logout_lem replies c addr len = elim closes [
    | inl (done, term) ↦ inl (done, disconnected addr len _ term)
    | inr (e, failed, same) ↦ inr (e, failed, same)
  ]
    where
      closes : Closes c (logout replies c)
      closes = elim (Bool-cases (c.term == 0)) [
        | inl off ↦ unfold logout in rw off (inl (refl, ground arith))
        | inr on ↦ unfold logout in rw on (logout_walk-Closes c.replicas 0 replies none c)
      ]

  -- When a leg ends for want of a want, no want is left over: there is none, or the replica's flag
  -- is held, by this leg, which goes on, or by another.
  pub leg_recheck_lem :
      (idx : ℕ) (c : State st sr im)
      → idx < length c.route.rr_inflight
      → let (leg, q) = leg_recheck idx c in
        (q.tracker ≡ c.tracker)
        × ((resolution_want c.tracker ≡ none) ⊎ (get_or q.route.rr_inflight idx false ≡ true))
  unfolding leg_recheck
  leg_recheck_lem idx c lt = held (resolution_want c.tracker)
    where
      held :
          (want : Option Lsn)
          → let (leg, q) = recheck_in want idx c in
            (q.tracker ≡ c.tracker)
            × ((want ≡ none) ⊎ (get_or q.route.rr_inflight idx false ≡ true))
      held none = (refl, inl refl)
      held (some w) = (refl, inr (unfold try_begin_resolution in get_or-set_self _ idx lt))

  cleared :
      (upto : Lsn) (t : DlsnTracker st.Tracker)
      → let q = clear_resolution_want upto t in
        (q.frontier ≡ t.frontier)
        × (q.tracker ≡ t.tracker)
        × ((want : Lsn) → resolution_want q ≡ some want → upto < want)
  unfolding clear_resolution_want resolution_want
  cleared upto t = ground arith

  -- A leg's successful reply, on a valid tracker, leaves no open visible slot above the frontier and
  -- up to the dLSN that the reply resolved, and the want that is left, if any, is beyond it: the
  -- leg does not ask for the same round again.
  pub leg_reply_lem :
      (idx : ℕ) (r : ResolutionResult) (c : State st sr im)
      → IsValid st c.tracker
      → let (leg, q) = leg_reply idx (ok r) c in
        (leg ≡ peek)
        × ((w : st.Tracker) × (q.tracker.tracker ≡ some w)
            × ((j : Lsn)
                → q.tracker.frontier < j
                → j ≤ r.resolved_upto
                → j < c.tracker.next_dlsn
                → open_at (st.slot w j) ≡ false))
        × ((want : Lsn) → resolution_want q.tracker ≡ some want → r.resolved_upto < want)
  unfolding leg_reply
  leg_reply_lem idx r c v =
      let filled : Lsn
          → ReadRouteMap sr.Tracker im.Intervals
          → ReadRouteMap sr.Tracker im.Intervals =
        λ d. note_filled sr im d idx in
      let t = (retire_upto st r.resolved_upto r.empty_slots filled c.tracker c.route).0 in
      let (frontier, tracker, beyond) = cleared r.resolved_upto t in
      let (w, holds, clear) =
        retire_upto-clears st r.resolved_upto r.empty_slots filled c.tracker c.route v in
      (
        refl,
        (
          w,
          tracker ∙ holds.0.session,
          (λ j lo hi made. clear j (omega (arith, lo, frontier)) hi made),
        ),
        beyond,
      )
