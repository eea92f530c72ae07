-- ===== src/Replica/Resolve.antt =====
-- The resolution round of a single replica (`do_resolve_local`): every hole up to the target gets
-- the Empty verdict, and the frontier passes the target.
use craft_client.Prelude.{
  ℕ, zero, suc, ◌+◌, ◌-◌, ◌≤◌, ◌<◌, ◌≡◌, ◌≢◌, refl, ap, ◌∙◌, sym, Bool, true, false, not, ◌&&◌,
  Option, none, some, List, [], ◌∷◌, ◌++◌, append_assoc, append-nil, inl, inr, if◌then◌else◌, arith,
  ltb, leb, ◌==◌, Bool-cases, max,
}
use craft_client.Prelude.OrderedMap.{
  OrderedMap, find, find-assign, up_to, up_to-assign, Above, Above-assign,
}
use craft_client.Prelude.Results.{ok}
use craft_client.Types.{Lsn, ClientHdr}
use craft_client.Replica.{MemCraftReplica, MemJournalSlot, tombstone, with_append}
use craft_client.Replica.Apply.{apply_up_to}
use craft_client.Replica.Apply.Frontier.{apply_up_to_frontier, apply_up_to-Applies, Applies-same}
use craft_client.Replica.Ops.{resolve_slot, resolve_rounds, do_resolve_local}
use craft_client.Replica.Read.Spec.{IsValid, last_write, cell_of, or_else}
use craft_client.Replica.Read.Spec.Keeps.{apply_up_to-IsValid}

abbrev State : Type 0
State = OrderedMap MemJournalSlot × List Lsn

-- A slot that the round reports: it is missing, or verdicted before.
abbrev pub is_void : Option MemJournalSlot → Bool
is_void none = true
is_void (some s) = s.is_empty

-- The void slots among the `n` from `d` on.
abbrev pub voids : ℕ → Lsn → OrderedMap MemJournalSlot → List Lsn
voids zero d m = []
voids (suc n) d m = if is_void (find d m) then d ∷ voids n (d + 1) m else voids n (d + 1) m

-- What a round of the scan leaves at each dLSN.
find-resolve_slot :
    (term d : ℕ) (m : OrderedMap MemJournalSlot) (es : List Lsn) (j : Lsn)
    → find j (resolve_slot term d (m, es)).0
      ≡ (if d == j then or_else (find j m) (some (tombstone term)) else find j m)
unfolding resolve_slot
find-resolve_slot term d m es j = ground (arith, find-assign d (tombstone term) m j)

find-resolve_rounds :
    (n term d : ℕ) (p : State) (j : Lsn)
    → find j (resolve_rounds n term d p).0 ≡ (
        if leb d j && ltb j (d + n)
        then or_else (find j p.0) (some (tombstone term))
        else find j p.0)
unfolding resolve_rounds
find-resolve_rounds zero term d p j = ground arith
find-resolve_rounds (suc n) term d p j = ground (
  arith,
  find-resolve_rounds n term (d + 1) (resolve_slot term d p) j,
  find-resolve_slot term d p.0 p.1 j,
)

reported-resolve_slot :
    (term d : ℕ) (m : OrderedMap MemJournalSlot) (es : List Lsn)
    → (resolve_slot term d (m, es)).1 ≡ (if is_void (find d m) then es ++ d ∷ [] else es)
unfolding resolve_slot
reported-resolve_slot term d m es = ground arith

Above-resolve_slot :
    (term d : ℕ) (m : OrderedMap MemJournalSlot) (es : List Lsn)
    → 0 < d
    → Above 0 m
    → Above 0 (resolve_slot term d (m, es)).0
unfolding resolve_slot
Above-resolve_slot term d m es pos a = ground (arith, Above-assign 0 d (tombstone term) m)

up_to-resolve_slot :
    (term d : ℕ) (m : OrderedMap MemJournalSlot) (es : List Lsn) (c : Lsn)
    → c < d
    → up_to c (resolve_slot term d (m, es)).0 ≡ up_to c m
unfolding resolve_slot
up_to-resolve_slot term d m es c lt = ground (arith, up_to-assign d (tombstone term) m c)

voids-same :
    (n : ℕ) (d : Lsn) (m m' : OrderedMap MemJournalSlot)
    → ((j : Lsn) → d ≤ j → find j m' ≡ find j m)
    → voids n d m' ≡ voids n d m
voids-same zero d m m' same = refl
voids-same (suc n) d m m' same =
    rw (same d (omega arith), voids-same n (d + 1) m m' (λ j le. same j (omega arith)))

reported-resolve_rounds :
    (n term d : ℕ) (m : OrderedMap MemJournalSlot) (es : List Lsn)
    → (resolve_rounds n term d (m, es)).1 ≡ es ++ voids n d m
unfolding resolve_rounds
reported-resolve_rounds zero term d m es = sym (append-nil es)
reported-resolve_rounds (suc n) term d m es =
    reported-resolve_rounds n term (d + 1) (resolve_slot term d (m, es)).0 _
    ∙ ap (λ v. (resolve_slot term d (m, es)).1 ++ v)
        (voids-same n (d + 1) m _ (λ j le. ground (arith, find-resolve_slot term d m es j)))
    ∙ rw (reported-resolve_slot term d m es) (elim (Bool-cases (is_void (find d m))) [
      | inl void ↦ rw void (append_assoc es (d ∷ []) (voids n (d + 1) m))
      | inr held ↦ rw held
    ])

Above-resolve_rounds :
    (n term d : ℕ) (p : State) → 0 < d → Above 0 p.0 → Above 0 (resolve_rounds n term d p).0
unfolding resolve_rounds
Above-resolve_rounds zero term d p pos a = a
Above-resolve_rounds (suc n) term d p pos a =
    Above-resolve_rounds n term (d + 1) (resolve_slot term d p) (omega arith)
      (ground (arith, Above-resolve_slot term d p.0 p.1))

up_to-resolve_rounds :
    (n term d : ℕ) (p : State) (c : Lsn)
    → c < d
    → up_to c (resolve_rounds n term d p).0 ≡ up_to c p.0
unfolding resolve_rounds
up_to-resolve_rounds zero term d p c lt = refl
up_to-resolve_rounds (suc n) term d p c lt =
    up_to-resolve_rounds n term (d + 1) (resolve_slot term d p) c (omega arith)
    ∙ up_to-resolve_slot term d p.0 p.1 c lt

module _ (r : MemCraftReplica) (upto : Lsn) where
  abbrev pub scanned : State
  scanned = resolve_rounds (upto - r.commit_lsn) r.term (r.commit_lsn + 1) (r.journal, [])

  abbrev pub marked : MemCraftReplica
  marked = with_append (record r { journal = scanned.0 }) (max r.last_append_lsn upto)

  pub find-scanned :
      (d : Lsn)
      → find d scanned.0 ≡ (
          if ltb r.commit_lsn d && leb d upto
          then or_else (find d r.journal) (some (tombstone r.term))
          else find d r.journal)
  find-scanned d =
      find-resolve_rounds (upto - r.commit_lsn) r.term (r.commit_lsn + 1) (r.journal, []) d
      ∙ ground arith

  marked-IsValid : IsValid r → IsValid marked
  marked-IsValid v = record {
    ordered = Above-resolve_rounds _ r.term _ (r.journal, []) (omega arith) v.ordered;
    contiguous = λ d pos le. ground (arith, find-scanned d, v.contiguous d);
    appended = λ d above. ground (arith, find-scanned d, v.appended d);
    indexed = λ x.
        v.indexed x
        ∙ ap (λ m. cell_of r.page_size x (last_write x m))
            (sym (up_to-resolve_rounds _ r.term _ (r.journal, []) r.commit_lsn (omega arith)));
  }

  -- No hole is left for the apply to stall on.
  passed-marked : upto ≤ (apply_up_to marked upto).commit_lsn
  passed-marked =
      let q = apply_up_to marked upto in
      let (back, ahead, filled, ended) = apply_up_to_frontier marked upto in
      ground
        (arith, find-scanned (q.commit_lsn + 1), or_else_some (find (q.commit_lsn + 1) r.journal))
    where
      or_else_some : (o : Option MemJournalSlot) → or_else o (some (tombstone r.term)) ≢ none
      or_else_some none e = cc
      or_else_some (some s) e = cc

-- A round on a valid replica, in its own term, leaves it valid and its frontier at or past `upto`;
-- it reports, in ascending order, just the slots above the old frontier and up to `upto` that were
-- missing or already had the verdict, and afterwards each of the missing ones is a tombstone of the
-- term, while every other slot of the journal is as before.
pub do_resolve_local_lem :
    (r : MemCraftReplica) (hdr : ClientHdr) (upto : Lsn)
    → IsValid r
    → hdr.term ≡ r.term
    → let (reply, q) = do_resolve_local r hdr upto in
      (reply
        ≡ ok (record {
          resolved_upto = upto;
          empty_slots = voids (upto - r.commit_lsn) (r.commit_lsn + 1) r.journal;
        }))
      × IsValid q
      × (upto ≤ q.commit_lsn)
      × ((d : Lsn)
          → find d q.journal ≡ (
              if ltb r.commit_lsn d && leb d upto
              then or_else (find d r.journal) (some (tombstone r.term))
              else find d r.journal))
unfolding do_resolve_local
do_resolve_local_lem r hdr upto v e = rw current (
  ap (λ es. ok (record { resolved_upto = upto; empty_slots = es }))
      (reported-resolve_rounds _ r.term _ r.journal []),
  apply_up_to-IsValid (marked r upto) upto (marked-IsValid r upto v),
  passed-marked r upto,
  (λ d.
      ap (find d) (Applies-same (apply_up_to-Applies (marked r upto) upto)).journal
      ∙ find-scanned r upto d),
)
  where
    current : not (hdr.term == r.term) ≡ false
    current = ground arith
