-- ===== src/Replica/Read/Spec/Tail.antt =====
-- The journal tail overlays the index: a block's winner is the last write up to the horizon.
use mathlib.Core.List.{reverse, reverse-cons}
use craft_client.Prelude.{
  ℕ, ◌≤◌, ◌<◌, ◌≡◌, refl, Bool, true, false, Option, none, some, [], ◌∷◌, ◌++◌, if◌then◌else◌,
  arith, ap, ◌∙◌, sym, leb,
}
use craft_client.Prelude.OrderedMap.{OrderedMap, up_to, beyond, Above, Above-mono, up_to-Above}
use craft_client.Types.{Lsn}
use craft_client.Replica.{MemCraftReplica, MemJournalSlot}
use craft_client.Replica.Read.{scan_down, highest_slot_le, winner_page, from_tail}
use craft_client.Replica.Read.Spec.{
  Entry, IsValid, last_write, one_write, or_else, cell_of, page_of_write, spec_page, or_else_assoc,
}

abbrev slot_of : Option Entry → Option MemJournalSlot
slot_of none = none
slot_of (some (d, s)) = some s

or_else-none {ℓ} : {A : Type ℓ} (a : Option A) → or_else a none ≡ a
or_else-none none = refl
or_else-none (some a) = refl

slot_of-or_else : (a b : Option Entry) → slot_of (or_else a b) ≡ or_else (slot_of a) (slot_of b)
slot_of-or_else none b = refl
slot_of-or_else (some a) b = refl

-- The entries that the scan down may stop at, in any order: keys above `k`.
abbrev AllAbove : ℕ → OrderedMap MemJournalSlot → Type 0
AllAbove k [] = Unit {0}
AllAbove k ((d, s) ∷ m) = (k < d) × AllAbove k m

AllAbove-append :
    (k : ℕ) (m n : OrderedMap MemJournalSlot) → AllAbove k m → AllAbove k n → AllAbove k (m ++ n)
AllAbove-append k [] n a b = b
AllAbove-append k (e ∷ m) n a b = (a.0, AllAbove-append k m n a.1 b)

AllAbove-reverse :
    (k lo : ℕ) (m : OrderedMap MemJournalSlot) → k ≤ lo → Above lo m → AllAbove k (reverse m)
AllAbove-reverse k lo [] h a = tt
AllAbove-reverse k lo ((d, s) ∷ m) h a = rw (reverse-cons (d, s) m) (
    AllAbove-append k (reverse m) ((d, s) ∷ []) (AllAbove-reverse k d m (omega (arith, a.0)) a.1)
      (omega (arith, a.0), tt))

-- The scan reaches one more, lower entry.
scan_down-snoc :
    (c x d : ℕ) (s : MemJournalSlot) (m : OrderedMap MemJournalSlot)
    → AllAbove d m
    → scan_down c x (m ++ (d, s) ∷ [])
      ≡ or_else (scan_down c x m) (if leb d c then none else slot_of (one_write x (d, s)))
unfolding scan_down
scan_down-snoc c x d s [] a = ground arith
scan_down-snoc c x d s ((k, t) ∷ m) a = ground (arith, scan_down-snoc c x d s m)

-- On an ascending journal the scan finds the last write above the frontier.
scan_down-reverse :
    (c x lo : ℕ) (m : OrderedMap MemJournalSlot)
    → Above lo m
    → scan_down c x (reverse m) ≡ slot_of (last_write x (beyond c m))
scan_down-reverse c x lo [] a = unfold scan_down in refl
scan_down-reverse c x lo ((d, s) ∷ m) a = rw (reverse-cons (d, s) m) (
    scan_down-snoc c x d s (reverse m) (AllAbove-reverse d d m (omega arith) a.1)
    ∙ rw (scan_down-reverse c x d m a.1) (by_bound (leb d c) refl))
  where
    by_bound :
        (b : Bool)
        → leb d c ≡ b
        → or_else
            (slot_of (last_write x (beyond c m)))
            (if leb d c then none else slot_of (one_write x (d, s)))
          ≡ slot_of (last_write x (beyond c ((d, s) ∷ m)))
    by_bound true e = rw e (or_else-none _)
    by_bound false e = rw e (sym (slot_of-or_else (last_write x (beyond c m)) _))

Above-up_to : (lo h : ℕ) (m : OrderedMap MemJournalSlot) → Above lo m → Above lo (up_to h m)
Above-up_to lo h [] a = tt
Above-up_to lo h ((d, s) ∷ m) a = ground (arith, Above-up_to d h m, Above-mono d lo (up_to h m))

-- The writes up to `h` are those up to the frontier and those of the tail.
last_write_split :
    (c h x lo : ℕ) (m : OrderedMap MemJournalSlot)
    → Above lo m
    → c ≤ h
    → last_write x (up_to h m)
      ≡ or_else (last_write x (beyond c (up_to h m))) (last_write x (up_to c m))
last_write_split c h x lo [] a le = refl
last_write_split c h x lo ((d, s) ∷ m) a le = ground (
  arith,
  last_write_split c h x d m,
  up_to-Above d c m,
  or_else-none (last_write x (beyond c (up_to h m))),
  or_else-none (or_else (last_write x (beyond c (up_to h m))) (one_write x (d, s))),
  or_else_assoc (last_write x (beyond c (up_to h m))) (last_write x (up_to c m))
      (one_write x (d, s)),
)

from_tail-or_else :
    (page_size x : ℕ) (a b : Option Entry)
    → from_tail page_size x (slot_of a) (cell_of page_size x b)
      ≡ page_of_write page_size x (or_else a b)
from_tail-or_else page_size x (some (d, s)) b = refl
from_tail-or_else page_size x none none = refl
from_tail-or_else page_size x none (some (d, s)) = ground arith

-- A read at a horizon that the commit frontier has not passed sees, of each block, the last write
-- in dLSN order among those at or below the horizon: its page, or a hole where that write is a zero
-- write or there is none. Verdicted slots and slots above the horizon never show.
pub winner_page_lem :
    (r : MemCraftReplica) (H : Lsn) (x : ℕ)
    → IsValid r
    → r.commit_lsn ≤ H
    → winner_page r H x ≡ spec_page r.page_size r.journal H x
unfolding winner_page highest_slot_le
winner_page_lem r H x v le =
    rw
      (
        scan_down-reverse r.commit_lsn x 0 (up_to H r.journal)
            (Above-up_to 0 H r.journal v.ordered),
        v.indexed x,
      )
      (from_tail-or_else r.page_size x _ _
        ∙ ap (page_of_write r.page_size x)
            (sym (last_write_split r.commit_lsn H x 0 r.journal v.ordered le)))
