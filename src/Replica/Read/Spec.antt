-- ===== src/Replica/Read/Spec.antt =====
-- What a read should see: of the writes up to the horizon, the last that covers the block.
pub mod Tail
pub mod Index
pub mod Keeps
use craft_client.Prelude.{
  ℕ, zero, suc, ◌+◌, ◌-◌, ◌*◌, ◌≤◌, ◌<◌, ◌≡◌, ◌≢◌, refl, Bool, true, false, not, ◌&&◌, Option, none,
  some, List, [], ◌∷◌, ◌++◌, if◌then◌else◌, arith, ap, ◌∙◌, sym,
}
use craft_client.Prelude.OrderedMap.{OrderedMap, find, up_to, Above}
use craft_client.Types.{Lsn}
use craft_client.Replica.{MemCraftReplica, MemJournalSlot, IndexCell}
use craft_client.Replica.Read.{covers, slot_page}

abbrev pub Entry : Type 0
Entry = ℕ × MemJournalSlot

abbrev pub writes : MemJournalSlot → ℕ → Bool
writes s x = not s.is_empty && covers s x

abbrev pub or_else {ℓ} : {A : Type ℓ} → Option A → Option A → Option A
or_else none b = b
or_else (some a) b = some a

abbrev pub one_write : ℕ → Entry → Option Entry
one_write x (d, s) = if writes s x then some (d, s) else none

-- The last entry, in dLSN order, that writes block `x`.
abbrev pub last_write : ℕ → OrderedMap MemJournalSlot → Option Entry
last_write x [] = none
last_write x (e ∷ m) = or_else (last_write x m) (one_write x e)

abbrev pub page_of_write : ℕ → ℕ → Option Entry → Option (List ℕ)
page_of_write page_size x none = none
page_of_write page_size x (some (d, s)) = slot_page page_size s x

-- The content of block `x` at horizon `H`.
abbrev pub spec_page : ℕ → OrderedMap MemJournalSlot → Lsn → ℕ → Option (List ℕ)
spec_page page_size journal H x = page_of_write page_size x (last_write x (up_to H journal))

-- The index cell that a write leaves behind.
abbrev pub cell_of : ℕ → ℕ → Option Entry → Option IndexCell
cell_of page_size x none = none
cell_of page_size x (some (d, s)) =
    if s.all_zeros
    then none
    else some (record { dlsn = d; buf = s.bytes; off = (x - s.lba) * page_size })

pub record IsValid (r : MemCraftReplica) : Type 0 where
  pub ordered : Above 0 r.journal
  pub contiguous : (d : Lsn) → 0 < d → d ≤ r.commit_lsn → find d r.journal ≢ none
  pub appended : (d : Lsn) → r.last_append_lsn < d → find d r.journal ≡ none
  pub indexed :
      (x : ℕ) → find x r.index ≡ cell_of r.page_size x (last_write x (up_to r.commit_lsn r.journal))

pub or_else_assoc {ℓ} :
    {A : Type ℓ} (a b c : Option A) → or_else (or_else a b) c ≡ or_else a (or_else b c)
or_else_assoc none b c = refl
or_else_assoc (some a) b c = refl

pub last_write-append :
    (x : ℕ) (m n : OrderedMap MemJournalSlot)
    → last_write x (m ++ n) ≡ or_else (last_write x n) (last_write x m)
last_write-append x [] n = or_else_none (last_write x n)
  where
    or_else_none : (a : Option Entry) → a ≡ or_else a none
    or_else_none none = refl
    or_else_none (some a) = refl
last_write-append x (e ∷ m) n =
    ap (λ w. or_else w (one_write x e)) (last_write-append x m n)
    ∙ or_else_assoc (last_write x n) (last_write x m) (one_write x e)
