-- ===== src/Raft/Round.antt =====
-- The whole round of `resolve_and_apply`, over every missing lsn.
use craft_client.Prelude.{
  ℕ, ◌+◌, ◌/◌, ◌≤◌, ◌<◌, ◌≡◌, ◌≢◌, sym, ◌∙◌, true, false, ◌&&◌, none, List, [], ◌∷◌, ltb, leb, ◌==◌,
  ==_iff, subst, if◌then◌else◌, ◌⊎◌, inl, inr, Option-cases, Bool-cases, length, arith,
}
use craft_client.Prelude.OrderedMap.{find, Above}
use craft_client.Types.{Lsn, no_lsn}
use craft_client.Replica.{MemCraftReplica}
use craft_client.PeerCodec.{JournalSlot}
use craft_client.Raft.Catchup.{
  Fetch, collect, Fate, decide_lsn, decide_all, resolve_and_apply, get_missing_slots,
}
use craft_client.Raft.Missing.{among, is_none, among-get_missing_slots}
use craft_client.Raft.Verdict.{lacks, Filled, Filled-refl, Filled-trans, decide_lsn-Decides}

-- The fates of all the lsns of `ds`.
pub record DecidesAll (members : ℕ) (resps : List (List JournalSlot)) (ds : List Lsn) (f g : Fate)
    : Type 0 where
  pub filled : Filled f.replica g.replica
  pub voided :
      (x : Lsn)
      → among x g.empties ≡ true
      → (among x f.empties ≡ true) ⊎ ((among x ds ≡ true) × (members / 2 + 1 ≤ 1 + lacks x resps))
  pub grows : (x : Lsn) → among x f.empties ≡ true → among x g.empties ≡ true
  pub settled :
      g.stalled_lsn ≡ no_lsn
      → (f.stalled_lsn ≡ no_lsn)
        × ((x : Lsn)
            → among x ds ≡ true
            → (among x g.empties ≡ true) ⊎ (find x g.replica.journal ≢ none))

pub Filled-held :
    {r q : MemCraftReplica} (d : Lsn)
    → Filled r q
    → find d r.journal ≢ none
    → find d q.journal ≢ none
Filled-held {r} d a held = elim (Option-cases (find d r.journal)) [
  | inl gone ↦ absurd (held gone)
  | inr (s, e) ↦ λ lost. cc (a.kept d s e, lost)
]

decide_all-DecidesAll :
    (members term : ℕ) (resps : List (List JournalSlot)) (ds : List Lsn) (f : Fate)
    → ((x : Lsn) → among x ds ≡ true → f.replica.commit_lsn < x)
    → DecidesAll members resps ds f (decide_all members term resps ds f)
unfolding decide_all
decide_all-DecidesAll members term resps [] f above = record {
  filled = Filled-refl f.replica;
  voided = λ x e. inl e;
  grows = λ x e. e;
  settled = λ e. (e, (λ x none_left. absurd (ground arith)));
}
decide_all-DecidesAll members term resps (d ∷ ds) f above =
    let g = decide_lsn members term resps d f in
    let one = decide_lsn-Decides members term resps d f (above d (ground arith)) in
    let rest =
      decide_all-DecidesAll members term resps ds g
        (λ x e. omega (arith, above x (ground arith), one.filled.commit)) in
    let h = decide_all members term resps ds g in
    record {
      filled = Filled-trans f.replica g.replica h.replica one.filled rest.filled;
      voided = λ x e. elim (rest.voided x e) [
        | inl early ↦ elim (one.voided x early) [
          | inl old ↦ inl old
          | inr (same, q) ↦ inr (ground arith, ground arith)
        ]
        | inr (later, q) ↦ inr (ground arith, q)
      ];
      grows = λ x e. rest.grows x (one.grows x e);
      settled = λ e. (
        (one.settled (rest.settled e).0).0,
        (λ x member. elim (Bool-cases (d == x)) [
          | inl now ↦ elim (one.settled (rest.settled e).0).1 [
            | inl verdict ↦ inl (rest.grows x (ground arith))
            | inr held ↦ inr (
                Filled-held x rest.filled
                  (subst (λ y. find y g.replica.journal ≢ none) ((==_iff d x).0 now) held))
          ]
          | inr other ↦ (rest.settled e).1 x (ground arith)
        ]),
      );
    }

module _ (fetch : Fetch) (peers : List ℕ) (r : MemCraftReplica) (watermark : Lsn) (term : ℕ) where
  abbrev pub asked : List Lsn
  asked = get_missing_slots r watermark

  abbrev pub answers : List (List JournalSlot)
  answers = collect fetch r.id peers asked

  abbrev start : Fate
  start = record { empties = []; stalled_lsn = no_lsn; replica = r }

  -- With nothing to ask for, the loop has no round either.
  round-DecidesAll :
      (ds : List Lsn)
      → ((x : Lsn) → among x ds ≡ true → r.commit_lsn < x)
      → DecidesAll
          (length peers)
          answers
          ds
          start
          (if length ds == 0 then start else decide_all (length peers) term answers ds start)
  unfolding decide_all
  round-DecidesAll [] above = decide_all-DecidesAll (length peers) term answers [] start above
  round-DecidesAll (d ∷ ds) above =
      rw asks (decide_all-DecidesAll (length peers) term answers (d ∷ ds) start above)
    where
      asks : (length (d ∷ ds) == 0) ≡ false
      asks = ground arith

  -- A round on an ordered journal voids only lsns that were missing, above the frontier and up to
  -- the watermark, and only with the evidence of a quorum: with the replica itself, more than half
  -- of the members have no data for it. If the round does not stall, every lsn of the range has the
  -- verdict or is in the journal. The frontier and the slots that were present stay as they were,
  -- and a valid replica stays valid.
  pub resolve_and_apply_lem :
      Above 0 r.journal
      → let g = resolve_and_apply fetch peers r watermark term in
        ((x : Lsn)
          → among x g.empties ≡ true
          → (r.commit_lsn < x)
            × (x ≤ watermark)
            × (find x r.journal ≡ none)
            × (length peers / 2 + 1 ≤ 1 + lacks x answers))
        × (g.stalled_lsn ≡ no_lsn
            → (x : Lsn) → r.commit_lsn < x
            → x ≤ watermark
            → (among x g.empties ≡ true) ⊎ (find x g.replica.journal ≢ none))
        × Filled r g.replica
  unfolding resolve_and_apply
  resolve_and_apply_lem ordered = (
    (λ x e. elim (all.voided x e) [
      | inl old ↦ absurd (ground arith)
      | inr (member, q) ↦
          let (lo, hi, gone) = in_range x (sym (reading x) ∙ member) in (lo, hi, gone, q)
    ]),
    (λ e x lo hi. elim (Option-cases (find x r.journal)) [
      | inl gone ↦ (all.settled e).1 x (reading x ∙ out_range x lo hi gone)
      | inr (s, held) ↦ inr (λ lost. cc (all.filled.kept x s held, lost))
    ]),
    all.filled,
  )
    where
      reading :
          (x : Lsn)
          → among x asked ≡ (ltb r.commit_lsn x && leb x watermark && is_none (find x r.journal))
      reading x = among-get_missing_slots r watermark x ordered

      in_range :
          (x : Lsn)
          → (ltb r.commit_lsn x && leb x watermark && is_none (find x r.journal)) ≡ true
          → (r.commit_lsn < x) × (x ≤ watermark) × (find x r.journal ≡ none)
      in_range x e = ground arith

      out_range :
          (x : Lsn)
          → r.commit_lsn < x
          → x ≤ watermark
          → find x r.journal ≡ none
          → (ltb r.commit_lsn x && leb x watermark && is_none (find x r.journal)) ≡ true
      out_range x lo hi gone = ground arith

      all :
          DecidesAll
            (length peers)
            answers
            asked
            start
            (resolve_and_apply fetch peers r watermark term)
      all =
          unfold resolve_and_apply in
          round-DecidesAll asked (λ x e. (in_range x (sym (reading x) ∙ e)).0)
