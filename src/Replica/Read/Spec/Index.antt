-- ===== src/Replica/Read/Spec/Index.antt =====
-- The applied index holds, for each block, the last applied write.
use craft_client.Prelude.{
  ℕ, zero, suc, ◌+◌, ◌-◌, ◌*◌, ◌≤◌, ◌≡◌, Bool, ◌&&◌, Option, none, some, List, [], ◌∷◌,
  if◌then◌else◌, arith, ap, leb, ltb,
}
use craft_client.Prelude.OrderedMap.{
  OrderedMap, find, find-assign, find-erase, erase, assign, up_to, Above, up_to-suc,
}
use craft_client.Types.{Lsn}
use craft_client.Replica.{MemCraftReplica, MemJournalSlot, IndexCell}
use craft_client.Replica.Apply.{unmap_cells, map_cells, apply_slot, advance}
use craft_client.Replica.Read.{covers}
use craft_client.Replica.Read.Spec.{last_write, cell_of, last_write-append}

abbrev within : ℕ → ℕ → ℕ → Bool
within b n x = leb b x && ltb x (b + n)

find-unmap_cells :
    (n b : ℕ) (index : OrderedMap IndexCell) (x : ℕ)
    → find x (unmap_cells n b index) ≡ (if within b n x then none else find x index)
unfolding unmap_cells
find-unmap_cells zero b index x = ground arith
find-unmap_cells (suc n) b index x =
    ground (arith, find-unmap_cells n (b + 1) (erase b index) x, find-erase b index x)

next_off :
    (page_size off b x : ℕ)
    → b + 1 ≤ x
    → off + page_size + (x - (b + 1)) * page_size ≡ off + (x - b) * page_size
next_off page_size off b x h = omega (arith, ap (λ (t : ℕ). t * page_size) (one_less h))
  where
    one_less : b + 1 ≤ x → x - b ≡ x - (b + 1) + 1
    one_less h = omega arith

first_off : (page_size off b x : ℕ) → x ≤ b → off + (x - b) * page_size ≡ off
first_off page_size off b x h = omega (arith, ap (λ (t : ℕ). t * page_size) (zero_blocks h))
  where
    zero_blocks : x ≤ b → x - b ≡ 0
    zero_blocks h = omega arith

find-map_cells :
    (n : ℕ) (d : Lsn) (buf : Option (List ℕ)) (page_size b off : ℕ) (index : OrderedMap IndexCell)
    (x : ℕ)
    → find x (map_cells n d buf page_size b off index) ≡ (
        if within b n x
        then some (record { dlsn = d; buf = buf; off = off + (x - b) * page_size })
        else find x index)
unfolding map_cells
find-map_cells zero d buf ps b off index x = ground arith
find-map_cells (suc n) d buf ps b off index x = ground (
  arith,
  find-map_cells n d buf ps (b + 1) (off + ps)
      (assign b (record { dlsn = d; buf = buf; off = off }) index) x,
  find-assign b (record { dlsn = d; buf = buf; off = off }) index x,
  next_off ps off b x,
  first_off ps off b x,
)

-- `apply_slot` writes the cells that the slot covers, and no other.
find-apply_slot :
    (page_size : ℕ) (d : Lsn) (s : MemJournalSlot) (index : OrderedMap IndexCell) (x : ℕ)
    → find x (apply_slot page_size d s index)
      ≡ (if covers s x then cell_of page_size x (some (d, s)) else find x index)
unfolding apply_slot
find-apply_slot page_size d s index x = ground (
  arith,
  find-unmap_cells s.len s.lba index x,
  find-map_cells s.len d s.bytes page_size s.lba 0 index x,
)

-- One applied slot more, one write more behind the index.
pub advance_indexed :
    (r : MemCraftReplica) (s : MemJournalSlot)
    → Above 0 r.journal
    → find (r.commit_lsn + 1) r.journal ≡ some s
    → ((x : ℕ)
        → find x r.index ≡ cell_of r.page_size x (last_write x (up_to r.commit_lsn r.journal)))
    → (x : ℕ)
    → find x (advance r (r.commit_lsn + 1) s).index
      ≡ cell_of r.page_size x (last_write x (up_to (r.commit_lsn + 1) r.journal))
unfolding advance
advance_indexed r s a e old x = rw (up_to-suc 0 r.commit_lsn s r.journal a e) (
    rw (last_write-append x (up_to r.commit_lsn r.journal) ((r.commit_lsn + 1, s) ∷ []))
      (ground (arith, old x, find-apply_slot r.page_size (r.commit_lsn + 1) s r.index x)))
