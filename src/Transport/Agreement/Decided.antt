-- ===== src/Transport/Agreement/Decided.antt =====
-- What each live replica holds after a resolution round (`run_resolution` in src/mem/cluster.cpp).
use craft_client.Prelude.{
  ℕ, zero, suc, ◌+◌, ◌≤◌, ◌<◌, ◌≡◌, ◌≢◌, refl, ap, ap₂, subst, ◌∙◌, Bool, true, false, Option, none,
  some, List, [], ◌∷◌, map, ◌⊎◌, inl, inr, arith, All, if◌then◌else◌,
}
use craft_client.Prelude.OrderedMap.{find, find-assign}
use craft_client.Types.{Lsn}
use craft_client.Replica.{MemCraftReplica, MemJournalSlot, tombstone}
use craft_client.Replica.Apply.{apply_up_to}
use craft_client.Replica.Apply.Frontier.{apply_up_to-Applies, Applies-same}
use craft_client.Replica.Ops.{cold_install_slot, cold_mark_empty, cold_apply_sync}
use craft_client.Transport.{
  scan_slots, scan_slot, settle, settle_rounds, min_commit, lsn_max, resolve_live,
}
use craft_client.Transport.Agreement.{
  Settled, slot_of, void_slot, void_among, void_of, void_of-scan_slots, slot_of-settle,
  slots-settle, resolve_live-Settled,
}

abbrev or_else : Option MemJournalSlot → Option MemJournalSlot → Option MemJournalSlot
or_else none o = o
or_else (some s) o = some s

-- The slot of the first replica that holds one.
abbrev pub first_held : List (Option MemJournalSlot) → Option MemJournalSlot
first_held [] = none
first_held (o ∷ slots) = or_else o (first_held slots)

-- A void slot becomes a tombstone of the replica's own term; otherwise a slot that is held stays,
-- and a hole takes the copy.
abbrev pub decided : Lsn → Bool → Option MemJournalSlot → MemCraftReplica → Option MemJournalSlot
decided d true copy r = some (tombstone r.term)
decided d false copy r = or_else (slot_of d r) copy

unmet :
    (void : Bool) (copy : Option MemJournalSlot) (rest : Bool × Option MemJournalSlot)
    (o : Option MemJournalSlot)
    → (if void then (true, copy) else rest).0 ≡ false
    → (rest.0 ≡ false → rest.1 ≡ o)
    → (if void then (true, copy) else rest).1 ≡ o
unmet true copy rest o e h = absurd (cc e)
unmet false copy rest o e h = h e

scan_slots-first_held :
    (slots : List (Option MemJournalSlot)) (c : Option MemJournalSlot)
    → (scan_slots slots c).0 ≡ false
    → (scan_slots slots c).1 ≡ or_else c (first_held slots)
unfolding scan_slots
scan_slots-first_held [] none e = refl
scan_slots-first_held [] (some c) e = refl
scan_slots-first_held (none ∷ slots) c e = scan_slots-first_held slots c e
scan_slots-first_held (some s ∷ slots) none e =
    unmet s.is_empty none (scan_slots slots (some s)) _ e (scan_slots-first_held slots (some s))
scan_slots-first_held (some s ∷ slots) (some c) e =
    unmet s.is_empty (some c) (scan_slots slots (some c)) _ e (scan_slots-first_held slots (some c))

slot_of-decided :
    (d : Lsn) (p : Bool × Option MemJournalSlot) (r : MemCraftReplica)
    → slot_of d (settle d p r) ≡ decided d (void_of p) p.1 r
unfolding settle cold_mark_empty cold_install_slot
slot_of-decided d (true, copy) r = ground (arith, find-assign d (tombstone r.term) r.journal d)
slot_of-decided d (false, none) r = ground (arith, find-assign d (tombstone r.term) r.journal d)
slot_of-decided d (false, some s) r = ground (arith, find-assign d s r.journal d)

term-settle :
    (d : Lsn) (p : Bool × Option MemJournalSlot) (r : MemCraftReplica)
    → (settle d p r).term ≡ r.term
unfolding settle cold_mark_empty cold_install_slot
term-settle d (true, copy) r = refl
term-settle d (false, none) r = refl
term-settle d (false, some s) r = ground arith

same_decision :
    (d : Lsn) (p : Bool × Option MemJournalSlot) (b : Bool) (o : Option MemJournalSlot)
    (r : MemCraftReplica)
    → void_of p ≡ b
    → (p.0 ≡ false → p.1 ≡ o)
    → decided d (void_of p) p.1 r ≡ decided d b o r
same_decision d (true, c) b o r e h = ap (λ x. decided d x o r) e
same_decision d (false, c) b o r e h = ap₂ (λ x y. decided d x y r) e (h refl)

decided-settle :
    (d j : Lsn) (p : Bool × Option MemJournalSlot) (b : Bool) (o : Option MemJournalSlot)
    (r : MemCraftReplica)
    → d ≢ j
    → decided j b o (settle d p r) ≡ decided j b o r
decided-settle d j p true o r ne = ap (λ t. some (tombstone t)) (term-settle d p r)
decided-settle d j p false o r ne = ap (λ x. or_else x o) (slot_of-settle d p r j ne)

map_both :
    {A B C : Type 0} (f : B → C) (g : A → B) (h : A → C)
    → ((a : A) → f (g a) ≡ h a)
    → (xs : List A) → map f (map g xs) ≡ map h xs
map_both f g h e [] = refl
map_both f g h e (x ∷ xs) = ap₂ (λ y ys. y ∷ ys) (e x) (map_both f g h e xs)

-- Later rounds leave the slot.
slots-settle_rounds :
    (n : ℕ) (d j : Lsn) (live : List MemCraftReplica)
    → j < d
    → map (slot_of j) (settle_rounds n d live) ≡ map (slot_of j) live
unfolding settle_rounds
slots-settle_rounds zero d j live lt = refl
slots-settle_rounds (suc n) d j live lt =
    slots-settle_rounds n (d + 1) j (map (settle d (scan_slot d live)) live) (omega arith)
    ∙ slots-settle d (scan_slot d live) live j (λ e. absurd (omega (arith, e)))

abbrev ends :
    Lsn → List (Option MemJournalSlot) → List MemCraftReplica → List (Option MemJournalSlot)
ends d slots xs = map (decided d (void_among slots) (first_held slots)) xs

slots-round :
    (d : Lsn) (live : List MemCraftReplica)
    → map (slot_of d) (map (settle d (scan_slot d live)) live) ≡ ends d (map (slot_of d) live) live
slots-round d live =
    map_both (slot_of d) (settle d p) _
      (λ r.
        slot_of-decided d p r
        ∙ same_decision d p (void_slot d live) (first_held (map (slot_of d) live)) r
            (void_of-scan_slots (map (slot_of d) live) none)
            (scan_slots-first_held (map (slot_of d) live) none))
      live
  where
    p : Bool × Option MemJournalSlot
    p = scan_slot d live

slots-ends :
    (n : ℕ) (d : Lsn) (live : List MemCraftReplica) (j : Lsn)
    → d ≤ j
    → j < d + n
    → map (slot_of j) (settle_rounds n d live) ≡ ends j (map (slot_of j) live) live
unfolding settle_rounds
slots-ends zero d live j lo hi = absurd (omega arith)
slots-ends (suc n) d live j lo hi = elim (now_or_later j lo) [
  | inl now ↦
      subst
        (λ k. map (slot_of k) (settle_rounds n (d + 1) next) ≡ ends k (map (slot_of k) live) live)
        now (slots-settle_rounds n (d + 1) d next (omega arith) ∙ slots-round d live)
  | inr later ↦
      let other : d ≢ j = λ e. absurd (omega (arith, e)) in
      slots-ends n (d + 1) next j (omega arith) (omega arith)
      ∙ ap (λ os. ends j os next) (slots-settle d p live j other)
      ∙ map_both _ (settle d p) _ (λ r. decided-settle d j p _ _ r other) live
]
  where
    p : Bool × Option MemJournalSlot
    p = scan_slot d live

    next : List MemCraftReplica
    next = map (settle d p) live

    now_or_later : (j : ℕ) → d ≤ j → (d ≡ j) ⊎ (d + 1 ≤ j)
    now_or_later j lo = ground arith

-- After a resolution round every live replica has the same verdict on every slot between the lowest
-- commit frontier and the target, and none of them is a hole: Empty where some live replica held the
-- verdict or none held the slot, and data where one held data and none the verdict. An Empty slot
-- is a tombstone of the replica's own term; a slot of data that a replica held is the one that it
-- held, and a hole has become the whole slot of the first live replica that held one.
pub resolve_live_agrees :
    (live : List MemCraftReplica) (upto d : Lsn)
    → min_commit live lsn_max < d
    → d ≤ upto
    → All (Settled d (void_slot d live)) (resolve_live live upto)
      × (map (slot_of d) (resolve_live live upto)
          ≡ map (decided d (void_slot d live) (first_held (map (slot_of d) live))) live)
unfolding resolve_live cold_apply_sync
resolve_live_agrees live upto d lo hi = (
  resolve_live-Settled live upto d lo hi,
  map_both (slot_of d) (λ r. apply_up_to r upto) (slot_of d)
        (λ r. ap (find d) (Applies-same (apply_up_to-Applies r upto)).journal) _
      ∙ slots-ends _ (min_commit live lsn_max + 1) live d (omega arith) (omega arith),
)
