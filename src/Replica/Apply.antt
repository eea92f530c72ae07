-- ===== src/Replica/Apply.antt =====
-- Applying journal slots in dLSN order (`apply_slot`, `apply_up_to`).
pub mod Frontier
use craft_client.Prelude.{
  ℕ, zero, suc, ◌+◌, ◌-◌, ◌*◌, Bool, Option, none, some, List, leb, if◌then◌else◌,
}
use craft_client.Prelude.OrderedMap.{OrderedMap, find, assign, erase}
use craft_client.Types.{Lsn}
use craft_client.Replica.{MemCraftReplica, MemJournalSlot, IndexCell, with_commit}

-- `for (i = 0; i < s.len; ++i) index_.erase(s.lba + i)`, with `n` rounds left.
unfoldable pub unmap_cells : ℕ → ℕ → OrderedMap IndexCell → OrderedMap IndexCell
unmap_cells zero x index = index
unmap_cells (suc n) x index = unmap_cells n (x + 1) (erase x index)

-- The same loop over `index_[s.lba + i] = IndexCell{…}`, at block `x` and byte `off` of the buffer.
unfoldable pub map_cells :
    ℕ → Lsn → Option (List ℕ) → ℕ → ℕ → ℕ → OrderedMap IndexCell → OrderedMap IndexCell
map_cells zero dlsn buf page_size x off index = index
map_cells (suc n) dlsn buf page_size x off index =
    map_cells n dlsn buf page_size (x + 1) (off + page_size)
      (assign x (record { dlsn = dlsn; buf = buf; off = off }) index)

unfoldable pub apply_slot : ℕ → Lsn → MemJournalSlot → OrderedMap IndexCell → OrderedMap IndexCell
apply_slot page_size dlsn s index =
    if s.all_zeros
    then unmap_cells s.len s.lba index
    else map_cells s.len dlsn s.bytes page_size s.lba 0 index

-- One round of the loop: the slot at `next` is present.
unfoldable pub advance : MemCraftReplica → Lsn → MemJournalSlot → MemCraftReplica
advance r next s =
    let applied = if s.is_empty then r.index else apply_slot r.page_size next s r.index in
    with_commit (record r { index = applied }) next

-- The `while` loop with the rounds that it may still take.
unfoldable pub apply_rounds : ℕ → MemCraftReplica → Lsn → MemCraftReplica
apply_rounds zero r target = r
apply_rounds (suc fuel) r target =
    let next = r.commit_lsn + 1 in
    elim (find next r.journal) [
      | none ↦ r
      | some s ↦
          let rest = apply_rounds fuel (advance r next s) target in
          if leb next target then rest else r
    ]

-- Each round moves the frontier by one towards `target`.
unfoldable pub apply_up_to : MemCraftReplica → Lsn → MemCraftReplica
apply_up_to r target = apply_rounds (target - r.commit_lsn) r target
