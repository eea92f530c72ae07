-- ===== src/Raft/Caught.antt =====
-- One peer's answer to a catching-up replica: the slots it sets, and those it leaves missing.
use craft_client.Prelude.{
  ℕ, ◌<◌, ◌≡◌, ◌≢◌, refl, subst, ◌∙◌, true, false, none, some, List, [], ◌∷◌, ◌==◌, ==_iff,
  if◌then◌else◌, ◌⊎◌, inl, inr, Option-cases, Bool-cases, arith,
}
use craft_client.Prelude.OrderedMap.{find, find-assign}
use craft_client.Types.{Lsn}
use craft_client.Replica.{MemCraftReplica, MemJournalSlot, tombstone}
use craft_client.Replica.Ops.{cold_install_slot, cold_mark_empty}
use craft_client.Replica.Read.Spec.{IsValid}
use craft_client.Replica.Read.Spec.Keeps.{append-IsValid}
use craft_client.PeerCodec.{JournalSlot}
use craft_client.Raft.Catchup.{find_slot, take_answer}
use craft_client.Raft.Missing.{among}
use craft_client.Raft.Verdict.{cold_install_slot-Filled}

-- Only slots of `ds` are set, and none is lost.
pub record Caught (ds : List Lsn) (r q : MemCraftReplica) : Type 0 where
  pub commit : q.commit_lsn ≡ r.commit_lsn
  pub same_term : q.term ≡ r.term
  pub same_id : q.id ≡ r.id
  pub kept : (d : Lsn) → among d ds ≡ false → find d q.journal ≡ find d r.journal
  pub held : (d : Lsn) → find d r.journal ≢ none → find d q.journal ≢ none
  pub valid : IsValid r → IsValid q

pub Caught-refl : (ds : List Lsn) (r : MemCraftReplica) → Caught ds r r
Caught-refl ds r = record {
  commit = refl;
  same_term = refl;
  same_id = refl;
  kept = λ d e. refl;
  held = λ d e. e;
  valid = λ v. v;
}

-- The second step may set any of the slots of the first.
pub Caught-trans :
    {ds es fs : List Lsn} {r q p : MemCraftReplica}
    → ((d : Lsn) → among d fs ≡ false → (among d ds ≡ false) × (among d es ≡ false))
    → Caught ds r q
    → Caught es q p
    → Caught fs r p
Caught-trans less a b = record {
  commit = b.commit ∙ a.commit;
  same_term = b.same_term ∙ a.same_term;
  same_id = b.same_id ∙ a.same_id;
  kept = λ d e. b.kept d (less d e).1 ∙ a.kept d (less d e).0;
  held = λ d e. b.held d (a.held d e);
  valid = λ v. b.valid (a.valid v);
}

pub cold_mark_empty-Caught :
    (r : MemCraftReplica) (d : Lsn) → r.commit_lsn < d → Caught (d ∷ []) r (cold_mark_empty r d)
unfolding cold_mark_empty
cold_mark_empty-Caught r d lt = record {
  commit = refl;
  same_term = refl;
  same_id = refl;
  kept = λ j e. ground (arith, find-assign d (tombstone r.term) r.journal j);
  held = λ j e. ground (arith, find-assign d (tombstone r.term) r.journal j);
  valid = λ v. append-IsValid r d (tombstone r.term) v lt;
}

pub find-cold_mark_empty :
    (r : MemCraftReplica) (d j : Lsn)
    → find j (cold_mark_empty r d).journal
      ≡ (if d == j then some (tombstone r.term) else find j r.journal)
find-cold_mark_empty r d j = unfold cold_mark_empty in find-assign d (tombstone r.term) r.journal j

-- A missing slot, installed.
cold_install_slot-Caught :
    (r : MemCraftReplica) (d : Lsn) (s : MemJournalSlot)
    → r.commit_lsn < d
    → Caught (d ∷ []) r (cold_install_slot r d s)
unfolding cold_install_slot
cold_install_slot-Caught r d s lt = elim (Option-cases (find d r.journal)) [
  | inl gone ↦
      rw (gone, cold_install_slot)
        (record {
          commit = refl;
          same_term = refl;
          same_id = refl;
          kept = λ j e. ground (arith, find-assign d s r.journal j);
          held = λ j e. ground (arith, find-assign d s r.journal j);
          valid = λ v. append-IsValid r d s v lt;
        })
  | inr (t, old) ↦ rw (old, cold_install_slot) (Caught-refl (d ∷ []) r)
]

-- What one answer settles: a slot that was asked for is held now, or is not in the answer and is
-- asked for again.
pub record Takes (slots : List JournalSlot) (ds : List Lsn) (r : MemCraftReplica)
    (result : List Lsn × MemCraftReplica) : Type 0 where
  pub caught : Caught ds r result.1
  pub fewer : (d : Lsn) → among d ds ≡ false → among d result.0 ≡ false
  pub taken :
      (d : Lsn)
      → among d ds ≡ true
      → (find d result.1.journal ≢ none) ⊎ ((among d result.0 ≡ true) × (find_slot d slots ≡ none))

passed-Takes :
    (slots : List JournalSlot) (d : Lsn) (ds : List Lsn) (r : MemCraftReplica)
    (result : List Lsn × MemCraftReplica)
    → find_slot d slots ≡ none
    → Takes slots ds r result
    → Takes slots (d ∷ ds) r (d ∷ result.0, result.1)
passed-Takes slots d ds r result gone t = record {
  caught = Caught-trans (λ j e. (ground arith, ground arith)) (Caught-refl [] r) t.caught;
  fewer = λ j e. ground (arith, t.fewer j);
  taken = λ j e. elim (Bool-cases (d == j)) [
    | inl now ↦ inr (rw now refl, subst (λ y. find_slot y slots ≡ none) ((==_iff d j).0 now) gone)
    | inr other ↦ elim (t.taken j (ground arith)) [
      | inl held ↦ inl held
      | inr (left, absent) ↦ inr (ground arith, absent)
    ]
  ];
}

filled-Takes :
    (slots : List JournalSlot) (d : Lsn) (ds : List Lsn) (r p : MemCraftReplica)
    (result : List Lsn × MemCraftReplica)
    → Caught (d ∷ []) r p
    → find d p.journal ≢ none
    → Takes slots ds p result
    → Takes slots (d ∷ ds) r result
filled-Takes slots d ds r p result c held t = record {
  caught = Caught-trans (λ j e. (ground arith, ground arith)) c t.caught;
  fewer = λ j e. t.fewer j (ground arith);
  taken = λ j e. elim (Bool-cases (d == j)) [
    | inl now ↦
        inl
          (subst (λ y. find y result.1.journal ≢ none) ((==_iff d j).0 now) (t.caught.held d held))
    | inr other ↦ t.taken j (ground arith)
  ];
}

pub take_answer-Takes :
    (term : ℕ) (slots : List JournalSlot) (ds : List Lsn) (r : MemCraftReplica)
    → ((d : Lsn) → among d ds ≡ true → r.commit_lsn < d)
    → Takes slots ds r (take_answer term slots ds r)
unfolding take_answer
take_answer-Takes term slots [] r above = record {
  caught = Caught-refl [] r;
  fewer = λ d e. refl;
  taken = λ d e. absurd (ground arith);
}
take_answer-Takes term slots (d ∷ ds) r above =
    let lt = above d (ground arith) in
    let step : (p : MemCraftReplica)
        → Caught (d ∷ []) r p
        → find d p.journal ≢ none
        → Takes slots (d ∷ ds) r (take_answer term slots ds p) =
      λ p c held. filled-Takes slots d ds r p _ c held (
        take_answer-Takes term slots ds p
          (λ j f. omega (arith, above j (ground arith), c.commit))) in
    elim (Option-cases (find_slot d slots)) [
      | inl gone ↦
          rw (gone, take_answer)
            (passed-Takes slots d ds r _ gone
              (take_answer-Takes term slots ds r (λ j e. above j (ground arith))))
      | inr (s, e) ↦ elim (Bool-cases s.is_empty) [
        | inl empty ↦
            rw (e, take_answer) (rw empty (step _ (cold_mark_empty-Caught r d lt) (marked d)))
        | inr data_slot ↦
            rw (e, take_answer)
              (rw data_slot
                (step _ (cold_install_slot-Caught r d _ lt) (cold_install_slot-Filled r d _ lt).1))
      ]
    ]
  where
    marked : (d : Lsn) → find d (cold_mark_empty r d).journal ≢ none
    marked d = ground (arith, find-cold_mark_empty r d d)
