-- ===== src/Raft/Verdict.antt =====
-- The leader's verdicts of `resolve_and_apply`: their evidence, and what the round leaves behind.
use craft_client.Prelude.{
  ℕ, ◌+◌, ◌/◌, ◌≤◌, ◌<◌, ◌≡◌, ◌≢◌, refl, ap, ◌∙◌, Bool, true, Option, none, some, List, [], ◌∷◌,
  ◌++◌, leb, if◌then◌else◌, ◌⊎◌, inl, inr, Option-cases, Bool-cases, arith,
}
use craft_client.Prelude.OrderedMap.{find, find-assign}
use craft_client.Types.{Lsn, no_lsn}
use craft_client.Replica.{MemCraftReplica, MemJournalSlot}
use craft_client.Replica.Ops.{cold_install_slot}
use craft_client.Replica.Read.Spec.{IsValid}
use craft_client.Replica.Read.Spec.Keeps.{append-IsValid}
use craft_client.PeerCodec.{JournalSlot}
use craft_client.Raft.Catchup.{find_slot, Judged, judge, Fate, stall_at, decide_lsn}
use craft_client.Raft.Missing.{among, among-append}

-- An answer without data for the lsn: the slot is not in it, or has the Empty verdict.
abbrev pub is_lack : Option JournalSlot → Bool
is_lack none = true
is_lack (some s) = s.is_empty

abbrev pub lacks : Lsn → List (List JournalSlot) → ℕ
lacks d [] = 0
lacks d (resp ∷ resps) = (if is_lack (find_slot d resp) then 1 else 0) + lacks d resps

-- The replica, or the replica with a slot of its own at one or more holes above its frontier.
pub record Filled (r q : MemCraftReplica) : Type 0 where
  pub commit : q.commit_lsn ≡ r.commit_lsn
  pub same_term : q.term ≡ r.term
  pub same_id : q.id ≡ r.id
  pub kept : (d : Lsn) (s : MemJournalSlot) → find d r.journal ≡ some s → find d q.journal ≡ some s
  pub valid : IsValid r → IsValid q

pub Filled-refl : (r : MemCraftReplica) → Filled r r
Filled-refl r = record {
  commit = refl;
  same_term = refl;
  same_id = refl;
  kept = λ d s e. e;
  valid = λ v. v;
}

pub Filled-trans : (r q p : MemCraftReplica) → Filled r q → Filled q p → Filled r p
Filled-trans r q p a b = record {
  commit = b.commit ∙ a.commit;
  same_term = b.same_term ∙ a.same_term;
  same_id = b.same_id ∙ a.same_id;
  kept = λ d s e. b.kept d s (a.kept d s e);
  valid = λ v. b.valid (a.valid v);
}

pub cold_install_slot-Filled :
    (r : MemCraftReplica) (d : Lsn) (s : MemJournalSlot)
    → r.commit_lsn < d
    → Filled r (cold_install_slot r d s) × (find d (cold_install_slot r d s).journal ≢ none)
unfolding cold_install_slot
cold_install_slot-Filled r d s lt = elim (Option-cases (find d r.journal)) [
  | inl gone ↦
      rw (gone, cold_install_slot)
        (
          record {
            commit = refl;
            same_term = refl;
            same_id = refl;
            kept = λ j t e. ground (arith, find-assign d s r.journal j);
            valid = λ v. append-IsValid r d s v lt;
          },
          (λ e. ground (arith, find-assign d s r.journal d)),
        )
  | inr (t, held) ↦ rw (held, cold_install_slot) (Filled-refl r, (λ e. cc (e, held)))
]

-- What the loop over the answers establishes.
pub record Judges (d : Lsn) (resps : List (List JournalSlot)) (n : ℕ) (r : MemCraftReplica)
    (j : Judged) : Type 0 where
  pub evidence : j.lacks_count ≤ n + lacks d resps
  pub filled : Filled r j.judged
  pub installed : j.is_data ≡ true → find d j.judged.journal ≢ none

lack-Judges :
    (d : Lsn) (resp : List JournalSlot) (resps : List (List JournalSlot)) (n : ℕ)
    (r : MemCraftReplica) (j : Judged)
    → is_lack (find_slot d resp) ≡ true
    → Judges d resps (n + 1) r j
    → Judges d (resp ∷ resps) n r j
lack-Judges d resp resps n r j e x = record {
  evidence = rw e (omega (arith, x.evidence));
  filled = x.filled;
  installed = x.installed;
}

installed-Judges :
    (d : Lsn) (resps : List (List JournalSlot)) (n : ℕ) (r : MemCraftReplica) (s : MemJournalSlot)
    → r.commit_lsn < d
    → Judges d resps n r
        (record { lacks_count = n; is_data = true; judged = cold_install_slot r d s })
installed-Judges d resps n r s lt = record {
  evidence = omega arith;
  filled = (cold_install_slot-Filled r d s lt).0;
  installed = λ _. (cold_install_slot-Filled r d s lt).1;
}

judge-Judges :
    (term : ℕ) (d : Lsn) (resps : List (List JournalSlot)) (n : ℕ) (r : MemCraftReplica)
    → r.commit_lsn < d
    → Judges d resps n r (judge term d resps n r)
unfolding judge
judge-Judges term d [] n r lt = record {
  evidence = omega arith;
  filled = Filled-refl r;
  installed = λ e. absurd (ground arith);
}
judge-Judges term d (resp ∷ resps) n r lt =
    let lack = lack-Judges d resp resps n r _ in
    let rest = judge-Judges term d resps (n + 1) r lt in
    elim (Option-cases (find_slot d resp)) [
      | inl gone ↦ rw (gone, judge) (lack (ap is_lack gone) rest)
      | inr (s, e) ↦ elim (Bool-cases s.is_empty) [
        | inl empty ↦ rw (e, judge) (rw empty (lack (ap is_lack e ∙ empty) rest))
        | inr held ↦ rw (e, judge) (rw held (installed-Judges d (resp ∷ resps) n r _ lt))
      ]
    ]

-- One lsn, above the frontier, is given a fate.
pub record Decides (members : ℕ) (resps : List (List JournalSlot)) (d : Lsn) (f g : Fate)
    : Type 0 where
  pub filled : Filled f.replica g.replica
  pub voided :
      (x : Lsn)
      → among x g.empties ≡ true
      → (among x f.empties ≡ true) ⊎ ((x ≡ d) × (members / 2 + 1 ≤ 1 + lacks d resps))
  pub grows : (x : Lsn) → among x f.empties ≡ true → among x g.empties ≡ true
  pub settled :
      g.stalled_lsn ≡ no_lsn
      → (f.stalled_lsn ≡ no_lsn) × ((among d g.empties ≡ true) ⊎ (find d g.replica.journal ≢ none))

among-last : (d : Lsn) (xs : List Lsn) → among d (xs ++ d ∷ []) ≡ true
among-last d xs = ground (arith, among-append d xs (d ∷ []))

stall_at-pos : (d stalled : Lsn) → 0 < d → stall_at d stalled ≢ no_lsn
stall_at-pos d stalled pos = ground arith

pub decide_lsn-Decides :
    (members term : ℕ) (resps : List (List JournalSlot)) (d : Lsn) (f : Fate)
    → f.replica.commit_lsn < d
    → Decides members resps d f (decide_lsn members term resps d f)
unfolding decide_lsn
decide_lsn-Decides members term resps d f lt =
    elim (Bool-cases (leb (members / 2 + 1) (judge term d resps 1 f.replica).lacks_count)) [
      | inl quorum ↦ rw quorum (record {
        filled = j.filled;
        voided = λ x e. last x e (ground arith);
        grows = λ x e. ground (arith, among-append x f.empties (d ∷ []));
        settled = λ e. (e, inl (among-last d f.empties));
      })
      | inr few ↦ elim (Bool-cases (judge term d resps 1 f.replica).is_data) [
        | inl found ↦ rw few (
            rw found (record {
              filled = j.filled;
              voided = λ x e. inl e;
              grows = λ x e. e;
              settled = λ e. (e, inr (j.installed found));
            }))
        | inr lost ↦ rw few (
            rw lost (record {
              filled = j.filled;
              voided = λ x e. inl e;
              grows = λ x e. e;
              settled = λ e. absurd (stall_at-pos d f.stalled_lsn (omega arith) e);
            }))
      ]
    ]
  where
    j : Judges d resps 1 f.replica (judge term d resps 1 f.replica)
    j = judge-Judges term d resps 1 f.replica lt

    last :
        (x : Lsn)
        → among x (f.empties ++ d ∷ []) ≡ true
        → members / 2 + 1 ≤ (judge term d resps 1 f.replica).lacks_count
        → (among x f.empties ≡ true) ⊎ ((x ≡ d) × (members / 2 + 1 ≤ 1 + lacks d resps))
    last x e q = elim (Bool-cases (among x f.empties)) [
      | inl old ↦ inl old
      | inr new ↦ inr (ground (arith, among-append x f.empties (d ∷ [])), omega (arith, j.evidence))
    ]
