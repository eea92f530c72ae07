-- ===== src/Raft/Sync.antt =====
-- A replica's catch-up on a committed SyncRSCommitLSN (`apply_sync`).
use craft_client.Prelude.{
  ℕ, ◌+◌, ◌≤◌, ◌<◌, ◌≡◌, ◌≢◌, refl, ap, sym, subst, ◌∙◌, Bool, true, false, ◌&&◌, Option, none,
  some, List, [], ◌∷◌, ◌==◌, ==_iff, if◌then◌else◌, ◌⊎◌, inl, inr, Option-cases, Bool-cases, length,
  arith, ltb, leb,
}
use craft_client.Prelude.OrderedMap.{find, find-assign}
use craft_client.Types.{Lsn}
use craft_client.Replica.{MemCraftReplica, MemJournalSlot, tombstone}
use craft_client.Replica.Apply.{apply_up_to}
use craft_client.Replica.Apply.Frontier.{apply_up_to_frontier, apply_up_to-Applies, Applies-same}
use craft_client.Replica.Ops.{cold_mark_empty}
use craft_client.Replica.Read.Spec.{IsValid}
use craft_client.Replica.Read.Spec.Keeps.{apply_up_to-IsValid}
use craft_client.PeerCodec.{JournalSlot}
use craft_client.PeerCodec.Fetch.{do_fetch}
use craft_client.Raft.Message.{SyncRsCommitLsnMsg}
use craft_client.Raft.Catchup.{get_missing_slots, mark_all, ask_peers, apply_sync}
use craft_client.Raft.Missing.{among, is_none, among-get_missing_slots}
use craft_client.Raft.Quorum.{from_peers, to_answer, find_slot-do_fetch}
use craft_client.Raft.Caught.{
  Caught, Caught-refl, Caught-trans, Takes, take_answer-Takes, cold_mark_empty-Caught,
}

none_left : (d : Lsn) (ds : List Lsn) → (length ds == 0) ≡ true → among d ds ≡ false
none_left d [] e = refl
none_left d (x ∷ ds) e = absurd (ground arith)

still_above :
    {slots : List JournalSlot} {ds : List Lsn} {r : MemCraftReplica}
    {result : List Lsn × MemCraftReplica}
    → Takes slots ds r result
    → ((d : Lsn) → among d ds ≡ true → r.commit_lsn < d)
    → (d : Lsn) → among d result.0 ≡ true
    → result.1.commit_lsn < d
still_above {ds} t above d left = elim (Bool-cases (among d ds)) [
  | inl member ↦ omega (arith, t.caught.commit, above d member)
  | inr gone ↦ absurd (ground (arith, t.fewer d gone))
]

module _ (peer : ℕ → MemCraftReplica) (up : ℕ → Bool) where
  -- Some reachable member, other than the replica itself, has the slot.
  abbrev pub Held : ℕ → List ℕ → Lsn → Type 0
  Held self peers d =
      (p : ℕ) × (among p peers ≡ true)
      × (p ≢ self)
      × (up p ≡ true)
      × (find d (peer p).journal ≢ none)

  -- What asking all peers settles.
  record Asks (self : ℕ) (peers : List ℕ) (ds : List Lsn) (r q : MemCraftReplica) : Type 0 where
    pub caught : Caught ds r q
    pub answered : (d : Lsn) → among d ds ≡ true → Held self peers d → find d q.journal ≢ none

  skipped-Asks :
      (self p : ℕ) (peers : List ℕ) (ds : List Lsn) (r q : MemCraftReplica)
      → (p ≡ self) ⊎ (up p ≡ false)
      → Asks self peers ds r q
      → Asks self (p ∷ peers) ds r q
  skipped-Asks self p peers ds r q why a = record {
    caught = a.caught;
    answered = λ d e h.
        let (i, member, other, reached, has) = h in
        elim (Bool-cases (p == i)) [
          | inl now ↦ absurd (elim why [
            | inl own ↦ other (sym ((==_iff p i).0 now) ∙ own)
            | inr down ↦ cc ((==_iff p i).0 now, reached, down)
          ])
          | inr later ↦ a.answered d e (i, ground arith, other, reached, has)
        ];
  }

  -- What was left over of this answer was not with the peer.
  asked-Asks :
      (self p : ℕ) (peers : List ℕ) (ds : List Lsn) (r : MemCraftReplica)
      (result : List Lsn × MemCraftReplica) (q : MemCraftReplica)
      → Takes (do_fetch (peer p) ds) ds r result
      → Asks self peers result.0 result.1 q
      → Asks self (p ∷ peers) ds r q
  asked-Asks self p peers ds r result q t a = record {
    caught = Caught-trans (λ d e. (e, t.fewer d e)) t.caught a.caught;
    answered = λ d e h. elim (t.taken d e) [
      | inl held ↦ a.caught.held d held
      | inr (left, absent) ↦
          let (i, member, other, reached, has) = h in
          elim (Bool-cases (p == i)) [
            | inl now ↦ absurd (
                subst (λ y. find d (peer y).journal ≢ none) (sym ((==_iff p i).0 now)) has
                  (of_answer d (find d (peer p).journal)
                    (sym (find_slot-do_fetch (peer p) ds d e) ∙ absent)))
            | inr later ↦ a.answered d left (i, ground arith, other, reached, has)
          ]
    ];
  }
    where
      of_answer : (d : Lsn) (o : Option MemJournalSlot) → to_answer d o ≡ none → o ≡ none
      of_answer d none e = refl
      of_answer d (some s) e = cc

  ask_peers-Asks :
      (self term : ℕ) (peers : List ℕ) (ds : List Lsn) (r : MemCraftReplica)
      → r.id ≡ self
      → ((d : Lsn) → among d ds ≡ true → r.commit_lsn < d)
      → Asks self peers ds r (ask_peers (from_peers peer up) term peers ds r).1
  unfolding ask_peers
  ask_peers-Asks self term [] ds r e above = record {
    caught = Caught-refl ds r;
    answered = λ d member h. absurd (ground arith);
  }
  ask_peers-Asks self term (p ∷ peers) ds r e above =
      let rest = ask_peers-Asks self term peers ds r e above in
      let t = take_answer-Takes term (do_fetch (peer p) ds) ds r above in
      elim (Bool-cases (length ds == 0)) [
        | inl done ↦ rw done (record {
          caught = Caught-refl ds r;
          answered = λ d member h. absurd (ground (arith, none_left d ds));
        })
        | inr more ↦ rw more (elim (Bool-cases (p == r.id)) [
          | inl own ↦
              rw own (skipped-Asks self p peers ds r _ (inl ((==_iff p r.id).0 own ∙ e)) rest)
          | inr other ↦ rw other (elim (Bool-cases (up p)) [
            | inl reached ↦ rw reached (
                asked-Asks self p peers ds r _ _ t
                  (ask_peers-Asks self term peers _ _ (t.caught.same_id ∙ e) (still_above t above)))
            | inr down ↦ rw down (skipped-Asks self p peers ds r _ (inr down) rest)
          ])
        ])
      ]

-- The verdicts, marked one after the other.
find-mark_all :
    (ds : List Lsn) (r : MemCraftReplica) (d : Lsn)
    → find d (mark_all ds r).journal
      ≡ (if among d ds then some (tombstone r.term) else find d r.journal)
unfolding cold_mark_empty
find-mark_all [] r d = refl
find-mark_all (x ∷ ds) r d =
    find-mark_all ds (cold_mark_empty r x) d
    ∙ ground (arith, find-assign x (tombstone r.term) r.journal d)

mark_all-same :
    (ds : List Lsn) (r : MemCraftReplica)
    → ((d : Lsn) → among d ds ≡ true → r.commit_lsn < d)
    → IsValid r
    → IsValid (mark_all ds r)
      × ((mark_all ds r).commit_lsn ≡ r.commit_lsn)
      × ((mark_all ds r).id ≡ r.id)
mark_all-same [] r above v = (v, refl, refl)
mark_all-same (x ∷ ds) r above v =
    let c = cold_mark_empty-Caught r x (above x (ground arith)) in
    let (w, commit, same) =
      mark_all-same ds (cold_mark_empty r x)
        (λ d e. omega (arith, c.commit, above d (ground arith))) (c.valid v) in
    (w, commit ∙ c.commit, same ∙ c.same_id)

module _ (peer : ℕ → MemCraftReplica) (up : ℕ → Bool) (peers : List ℕ) (m : SyncRsCommitLsnMsg)
    (r : MemCraftReplica) (v : IsValid r)
    (ahead : (d : Lsn) → among d m.empty_slots ≡ true → r.commit_lsn < d) where
  abbrev marked : MemCraftReplica
  marked = mark_all m.empty_slots r

  abbrev wanted : List Lsn
  wanted = get_missing_slots marked m.rs_commit_lsn

  abbrev filled : MemCraftReplica
  filled = (ask_peers (from_peers peer up) marked.term peers wanted marked).1

  wanted_lem :
      (d : Lsn)
      → among d wanted
        ≡ (ltb r.commit_lsn d && leb d m.rs_commit_lsn && is_none (find d marked.journal))
  wanted_lem d =
      let (w, commit, same) = mark_all-same m.empty_slots r ahead v in
      among-get_missing_slots marked m.rs_commit_lsn d w.ordered
      ∙ ap (λ c. ltb c d && leb d m.rs_commit_lsn && is_none (find d marked.journal)) commit

  filled-Asks : Asks peer up r.id peers wanted marked filled
  filled-Asks =
      let (w, commit, same) = mark_all-same m.empty_slots r ahead v in
      ask_peers-Asks peer up r.id marked.term peers wanted marked same
        (λ d e. ground (arith, wanted_lem d, commit))

  find-filled :
      (d : Lsn) → find d marked.journal ≢ none → find d filled.journal ≡ find d marked.journal
  find-filled d there = filled-Asks.caught.kept d (elim (Bool-cases (among d wanted)) [
    | inl asked ↦ absurd (there (ground (arith, wanted_lem d)))
    | inr other ↦ other
  ])

  voided :
      (d : Lsn) → among d m.empty_slots ≡ true → find d marked.journal ≡ some (tombstone r.term)
  voided d e = find-mark_all m.empty_slots r d ∙ rw e refl

  other : (d : Lsn) → among d m.empty_slots ≡ false → find d marked.journal ≡ find d r.journal
  other d e = find-mark_all m.empty_slots r d ∙ rw e refl

  -- Whatever the peers hold and whichever can be reached, a catch-up of a valid replica on a
  -- message whose verdicts are above its frontier leaves it valid, every verdicted slot is a
  -- tombstone of its term, every other slot that it held is as before, and its frontier does not
  -- move back.
  pub apply_sync_obeys :
      let q = apply_sync (from_peers peer up) peers m r in
      IsValid q
      × (r.commit_lsn ≤ q.commit_lsn)
      × ((d : Lsn) → among d m.empty_slots ≡ true → find d q.journal ≡ some (tombstone r.term))
      × ((d : Lsn)
          → among d m.empty_slots ≡ false
          → find d r.journal ≢ none
          → find d q.journal ≡ find d r.journal)
  unfolding apply_sync
  apply_sync_obeys =
      let (w, commit, same) = mark_all-same m.empty_slots r ahead v in
      let journal = (Applies-same (apply_up_to-Applies filled m.rs_commit_lsn)).journal in
      let caught = filled-Asks.caught in
      (
        apply_up_to-IsValid filled m.rs_commit_lsn (caught.valid w),
        omega (arith, (apply_up_to_frontier filled m.rs_commit_lsn).0, caught.commit, commit),
        (λ d e. ap (find d) journal ∙ find-filled d (λ gone. cc (voided d e, gone)) ∙ voided d e),
        (λ d e there.
            ap (find d) journal
            ∙ find-filled d (λ gone. there (sym (other d e) ∙ gone))
            ∙ other d e),
      )

  module _
      (held : (d : Lsn)
        → r.commit_lsn < d
        → d ≤ m.rs_commit_lsn
        → among d m.empty_slots ≡ false
        → find d r.journal ≡ none
        → Held peer up r.id peers d) where
    present : (d : Lsn) → r.commit_lsn < d → d ≤ m.rs_commit_lsn → find d filled.journal ≢ none
    present d lo hi = elim (Option-cases (find d marked.journal)) [
      | inr (s, e) ↦ λ gone. cc (find-filled d (λ lost. cc (e, lost)), e, gone)
      | inl gone ↦ elim (Bool-cases (among d m.empty_slots)) [
        | inl verdict ↦ absurd (cc (voided d verdict, gone))
        | inr open_slot ↦
            filled-Asks.answered d (ground (arith, wanted_lem d))
              (held d lo hi open_slot (sym (other d open_slot) ∙ gone))
      ]
    ]

    -- When every slot up to the target that the valid replica is missing, and that the message
    -- does not void, is held by some reachable member other than itself, and the verdicts are above
    -- its frontier, the catch-up brings the frontier to the target.
    pub apply_sync_catches_up :
        m.rs_commit_lsn ≤ (apply_sync (from_peers peer up) peers m r).commit_lsn
    unfolding apply_sync
    apply_sync_catches_up =
        let q = apply_up_to filled m.rs_commit_lsn in
        let (w, commit, same) = mark_all-same m.empty_slots r ahead v in
        let (back, most, between, ended) = apply_up_to_frontier filled m.rs_commit_lsn in
        elim ended [
          | inl reached ↦ reached
          | inr hole ↦ elim (Bool-cases (leb (q.commit_lsn + 1) m.rs_commit_lsn)) [
            | inl short ↦ absurd (
                present (q.commit_lsn + 1) (omega (arith, back, commit, filled-Asks.caught.commit))
                  (ground arith) hole)
            | inr done ↦ ground arith
          ]
        ]
