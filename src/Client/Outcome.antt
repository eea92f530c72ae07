-- ===== src/Client/Outcome.antt =====
-- How a write ends, by the replies of the replicas.
use craft_client.Prelude.{
  ℕ, suc, ◌+◌, ◌≤◌, ◌<◌, ◌≡◌, ◌⊎◌, refl, sym, ap, ◌∙◌, true, none, List, [], ◌∷◌, leb, ◌==◌,
  if◌then◌else◌, arith, inl, inr, Bool-cases, length, All,
}
use craft_client.Prelude.Results.{ok, unexpected}
use craft_client.Types.{Lsn, LsnPair, CraftError, ErrorCondition, craft, Result}
use craft_client.Stream.{StreamTracker}
use craft_client.Stream.Intervals.{IntervalMap}
use craft_client.Tracker.{DlsnSlot, SlotOutcome, reserve, resolve, note_resolution_want}
use craft_client.Route.{RouteSlot}
use craft_client.Transport.Rejects.{deterministic_reject}
use craft_client.Client.{
  State, quorum_of, or_error, is_ack, last_error, refusals, reply_of, precheck, write_leg,
  broadcast, write, write_failed, issue, resolved, maybe_fold, request_resolution_round,
}

-- The acks among the legs that end.
abbrev pub acked_in : List ℕ → List (Result LsnPair) → ℕ
acked_in [] replies = 0
acked_in (i ∷ order) replies =
    if is_ack (reply_of replies i) then suc (acked_in order replies) else acked_in order replies

-- A reply that proves that the replica did not journal the write.
abbrev pub IsRefusal : Result LsnPair → Type 0
IsRefusal r = (e : ErrorCondition) × (r ≡ unexpected e) × (deterministic_reject e ≡ true)

refusals_bound : (rs : List (Result LsnPair)) → refusals rs ≤ length rs
refusals_bound [] = omega arith
refusals_bound (ok p ∷ rs) = omega (arith, refusals_bound rs)
refusals_bound (unexpected e ∷ rs) = ground (arith, refusals_bound rs)

refusals-All : (rs : List (Result LsnPair)) → refusals rs ≡ length rs → All IsRefusal rs
refusals-All [] e = tt
refusals-All (ok p ∷ rs) e = absurd (omega (arith, refusals_bound rs))
refusals-All (unexpected x ∷ rs) e = elim (Bool-cases (deterministic_reject x)) [
  | inl sure ↦ ((x, refl, sure), refusals-All rs (ground arith))
  | inr unsure ↦ absurd (ground (arith, refusals_bound rs))
]

module _ (st : StreamTracker DlsnSlot) (sr : StreamTracker RouteSlot) (im : IntervalMap) where
  leg-tracker :
      (d : Lsn) (i : ℕ) (r : Result LsnPair) (c : State st sr im)
      → (write_leg st sr im d i r c).tracker ≡ c.tracker
  unfolding write_leg
  leg-tracker d i (ok p) c = refl
  leg-tracker d i (unexpected e) c = refl

  leg-replicas :
      (d : Lsn) (i : ℕ) (r : Result LsnPair) (c : State st sr im)
      → (write_leg st sr im d i r c).replicas ≡ c.replicas
  unfolding write_leg
  leg-replicas d i (ok p) c = refl
  leg-replicas d i (unexpected e) c = refl

  -- The latch counts the acks up to the quorum; the legs leave the tracker alone.
  broadcast_lem :
      (q : ℕ) (d : Lsn) (order : List ℕ) (replies : List (Result LsnPair)) (a : ℕ)
      (c : State st sr im)
      → a < q
      → (leb q (broadcast st sr im q d order replies a c).0 ≡ leb q (a + acked_in order replies))
        × ((broadcast st sr im q d order replies a c).1.tracker ≡ c.tracker)
        × ((broadcast st sr im q d order replies a c).1.replicas ≡ c.replicas)
  unfolding broadcast
  broadcast_lem q d [] replies a c lt = (ground arith, refl, refl)
  broadcast_lem q d (i ∷ order) replies a c lt =
      let a' = if is_ack (reply_of replies i) then suc a else a in
      let c' = write_leg st sr im d i (reply_of replies i) c in
      elim (Bool-cases (leb q a')) [
        | inl full ↦
            rw (full, broadcast)
              (
                ground arith,
                leg-tracker d i (reply_of replies i) c,
                leg-replicas d i (reply_of replies i) c,
              )
        | inr more ↦
            let r = broadcast_lem q d order replies a' c' (ground arith) in
            rw (more, broadcast)
              (
                r.0 ∙ ground arith,
                r.1 ∙ leg-tracker d i (reply_of replies i) c,
                r.2 ∙ leg-replicas d i (reply_of replies i) c,
              )
      ]

  fold-tracker : (c : State st sr im) → (maybe_fold st sr im c).tracker ≡ c.tracker
  unfolding maybe_fold
  fold-tracker c = ground arith

  resolved-tracker :
      (d : Lsn) (oc : SlotOutcome) (c : State st sr im)
      → (resolved st sr im d oc c).tracker ≡ resolve st d oc c.tracker
  resolved-tracker d oc c = fold-tracker (record c { tracker = resolve st d oc c.tracker })

  write_failed-tracker :
      (d : Lsn) (replies : List (Result LsnPair)) (c : State st sr im)
      → length replies ≡ c.replicas
      → (((write_failed st sr im d replies c).2.tracker ≡ resolve st d SlotOutcome.empty c.tracker)
          × All IsRefusal replies)
        ⊎ (((write_failed st sr im d replies c).2.tracker
              ≡ note_resolution_want d (resolve st d SlotOutcome.failed c.tracker))
            × (refusals replies < length replies))
  unfolding write_failed request_resolution_round
  write_failed-tracker d replies c n = elim (Bool-cases (refusals replies == c.replicas)) [
    | inl sure ↦
        rw sure (inl (resolved-tracker d SlotOutcome.empty c, refusals-All replies (ground arith)))
    | inr unsure ↦ rw unsure (
        inr (
          ap (note_resolution_want d) (resolved-tracker d SlotOutcome.failed c),
          ground (arith, refusals_bound replies),
        ))
  ]

  failed_error :
      (d : Lsn) (replies : List (Result LsnPair)) (c : State st sr im)
      → (e : ErrorCondition) × ((write_failed st sr im d replies c).0 ≡ unexpected e)
  unfolding write_failed
  failed_error d replies c =
      (or_error (last_error none replies) (craft CraftError.no_quorum), ground arith)

  -- A write that passes the precheck ends in one of three ways, with the replies of all replicas
  -- and the order in which the legs end. A quorum of the legs acks: the result is the length, and
  -- the write's slot is resolved as acked. Else the result is an error, and every reply proves that
  -- its replica did not journal the write: the slot is resolved as Empty. Or some reply proves
  -- nothing: the slot is resolved as failed, and its dLSN noted for a resolution round.
  pub write_outcome :
      (addr len : ℕ) (order : List ℕ) (replies : List (Result LsnPair)) (c : State st sr im)
      → precheck st sr im addr len c ≡ none
      → length replies ≡ c.replicas
      → (let w = write st sr im addr len order replies c in
          let p = reserve st addr len c.tracker in
          ((quorum_of c.replicas ≤ acked_in order replies)
            × (w.0 ≡ ok len)
            × (w.2.tracker ≡ resolve st p.0 SlotOutcome.acked p.1))
          ⊎ ((acked_in order replies < quorum_of c.replicas)
              × ((e : ErrorCondition) × (w.0 ≡ unexpected e))
              × (((w.2.tracker ≡ resolve st p.0 SlotOutcome.empty p.1) × All IsRefusal replies)
                  ⊎ ((w.2.tracker
                        ≡ note_resolution_want p.0 (resolve st p.0 SlotOutcome.failed p.1))
                      × (refusals replies < length replies)))))
  unfolding write
  write_outcome addr len order replies c pre n =
      let q = quorum_of c.replicas in
      let p = issue st sr im addr len c in
      let b = broadcast st sr im q p.0 order replies 0 p.1 in
      let l = broadcast_lem q p.0 order replies 0 p.1 (omega arith) in
      rw (pre, write)
        (elim (Bool-cases (leb q b.0)) [
          | inl full ↦ rw full (
              inl (
                ground (arith, l.0),
                refl,
                resolved-tracker p.0 SlotOutcome.acked b.1
                    ∙ ap (resolve st p.0 SlotOutcome.acked) (l.1),
              ))
          | inr short ↦ rw short (
              inr (
                ground (arith, l.0),
                failed_error p.0 replies b.1,
                (elim (write_failed-tracker p.0 replies b.1 (n ∙ sym (l.2))) [
                  | inl sure ↦ inl (sure.0 ∙ ap (resolve st p.0 SlotOutcome.empty) (l.1), sure.1)
                  | inr unsure ↦ inr (
                    unsure.0
                        ∙ ap (λ t. note_resolution_want p.0 (resolve st p.0 SlotOutcome.failed t))
                            (l.1),
                    unsure.1,
                  )
                ]),
              ))
        ])
