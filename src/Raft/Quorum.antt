-- ===== src/Raft/Quorum.antt =====
-- A slot that a majority of the members holds is never voided, whichever peers can be reached.
use craft_client.Prelude.{
  ℕ, ◌+◌, ◌/◌, ◌≤◌, ◌<◌, ◌≡◌, refl, ap, sym, ◌∙◌, Bool, true, false, not, Option, none, some, List,
  [], ◌∷◌, ◌==◌, ==_iff, if◌then◌else◌, inl, inr, Option-cases, Bool-cases, length, arith,
}
use craft_client.Prelude.OrderedMap.{find, Above}
use craft_client.Types.{Lsn}
use craft_client.Replica.{MemCraftReplica, MemJournalSlot}
use craft_client.PeerCodec.{JournalSlot}
use craft_client.PeerCodec.Fetch.{do_fetch, to_peer}
use craft_client.Raft.Catchup.{
  Fetch, Fate, find_slot, collect, answer, resolve_and_apply, get_missing_slots,
}
use craft_client.Raft.Missing.{among, among-get_missing_slots}
use craft_client.Raft.Verdict.{is_lack, lacks}
use craft_client.Raft.Round.{resolve_and_apply_lem}

-- The answers of peers in given states, some of which cannot be reached.
abbrev pub from_peers : (ℕ → MemCraftReplica) → (ℕ → Bool) → Fetch
from_peers peer up p lsns = if up p then some (do_fetch (peer p) lsns) else none

-- Whether a slot holds data: it is present without the Empty verdict.
abbrev pub has_data : Option MemJournalSlot → Bool
has_data none = false
has_data (some s) = not s.is_empty

abbrev pub to_answer : Lsn → Option MemJournalSlot → Option JournalSlot
to_answer d none = none
to_answer d (some s) = some (to_peer d s)

found_in :
    (r : MemCraftReplica) (ds : List Lsn) (d : Lsn)
    → find_slot d (do_fetch r ds) ≡ (if among d ds then to_answer d (find d r.journal) else none)
unfolding do_fetch
found_in r [] d = refl
found_in r (x ∷ ds) d = elim (Option-cases (find x r.journal)) [
  | inl gone ↦ rw (gone, do_fetch) (ground (arith, found_in r ds d))
  | inr (s, held) ↦
      rw (held, do_fetch)
        (elim (Bool-cases (x == d)) [
          | inl now ↦ rw now (
              ap (λ y. some (to_peer y s)) (same now)
              ∙ sym (ap (to_answer d) (ap (λ y. find y r.journal) (sym (same now)) ∙ held)))
          | inr other ↦ rw other (found_in r ds d)
        ])
]
  where
    same : (x == d) ≡ true → x ≡ d
    same e = (==_iff x d).0 e

-- What a peer answers for one of the lsns that it was asked for.
pub find_slot-do_fetch :
    (r : MemCraftReplica) (ds : List Lsn) (d : Lsn)
    → among d ds ≡ true
    → find_slot d (do_fetch r ds) ≡ to_answer d (find d r.journal)
find_slot-do_fetch r ds d e = found_in r ds d ∙ rw e refl

is_lack-to_answer :
    (d : Lsn) (o : Option MemJournalSlot)
    → (if is_lack (to_answer d o) then 1 else 0) + (if has_data o then 1 else 0) ≡ 1
is_lack-to_answer d none = refl
is_lack-to_answer d (some s) = ground arith

-- How many members other than `self` satisfy a test.
abbrev pub others : (ℕ → Bool) → ℕ → List ℕ → ℕ
others test self [] = 0
others test self (p ∷ members) =
    (if p == self then 0 else if test p then 1 else 0) + others test self members

lacks-collect :
    (peer : ℕ → MemCraftReplica) (up : ℕ → Bool) (self : ℕ) (members : List ℕ) (ds : List Lsn)
    (d : Lsn)
    → among d ds ≡ true
    → lacks d (collect (from_peers peer up) self members ds)
        + others (λ p. has_data (find d (peer p).journal)) self members
      ≤ others (λ p. true) self members
unfolding collect
lacks-collect peer up self [] ds d e = omega arith
lacks-collect peer up self (p ∷ members) ds d e =
    let rest = lacks-collect peer up self members ds d e in
    elim (Bool-cases (p == self)) [
      | inl own ↦ rw own (ground (arith, rest))
      | inr other ↦ rw other (elim (Bool-cases (up p)) [
        | inl reached ↦
            rw (reached, answer)
              (rw (find_slot-do_fetch (peer p) ds d e)
                (omega (arith, rest, is_lack-to_answer d (find d (peer p).journal))))
        | inr down ↦ rw (down, answer) (ground (arith, rest))
      ])
    ]

others_bound : (self : ℕ) (members : List ℕ) → others (λ p. true) self members ≤ length members
others_bound self [] = omega arith
others_bound self (p ∷ members) = ground (arith, others_bound self members)

pub others_self :
    (self : ℕ) (members : List ℕ)
    → among self members ≡ true
    → others (λ p. true) self members + 1 ≤ length members
others_self self [] e = absurd (ground arith)
others_self self (p ∷ members) e =
    ground (arith, others_self self members, others_bound self members)

module _ (peer : ℕ → MemCraftReplica) (up : ℕ → Bool) where
  -- When the replica is one of the members, its journal is ordered, and the other members that hold
  -- data for an lsn are more than half of all members, no round of the replica voids that lsn,
  -- whichever of them answer.
  pub resolve_and_apply-quorum :
      (members : List ℕ) (r : MemCraftReplica) (watermark : Lsn) (term : ℕ) (d : Lsn)
      → Above 0 r.journal
      → among r.id members ≡ true
      → length members / 2 < others (λ p. has_data (find d (peer p).journal)) r.id members
      → among d (resolve_and_apply (from_peers peer up) members r watermark term).empties ≡ false
  resolve_and_apply-quorum members r watermark term d ordered member held =
      elim (Bool-cases (among d g.empties)) [
        | inl voided ↦
            let (lo, hi, gone, few) =
              (resolve_and_apply_lem (from_peers peer up) members r watermark term ordered).0 d
                voided in
            absurd (
              omega (
                arith,
                few,
                held,
                lacks-collect peer up r.id members missing d (requested lo hi gone),
                others_self r.id members member,
              ))
        | inr kept ↦ kept
      ]
    where
      g : Fate
      g = resolve_and_apply (from_peers peer up) members r watermark term

      missing : List Lsn
      missing = get_missing_slots r watermark

      requested :
          r.commit_lsn < d → d ≤ watermark → find d r.journal ≡ none → among d missing ≡ true
      requested lo hi gone = among-get_missing_slots r watermark d ordered ∙ ground arith
