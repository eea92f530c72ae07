-- ===== src/Replica/Read.antt =====
-- Serving a read (`highest_slot_le`, `read_range`, `do_read`). The caller's buffer is the sequence
-- of bytes that the scatter writer lays down in order.
pub mod Spec
use craft_client.Prelude.{
  ℕ, zero, suc, ◌+◌, ◌-◌, ◌*◌, ◌/◌, ◌%◌, ◌^◌, Bool, true, false, not, ◌&&◌, ◌||◌, Option, none,
  some, List, [], ◌∷◌, ◌++◌, ◌==◌, ltb, leb, if◌then◌else◌, length, take, drop, replicate,
}
use mathlib.Core.List.{reverse}
use craft_client.Prelude.OrderedMap.{OrderedMap, find, up_to}
use craft_client.Prelude.Results.{ok, unexpected}
use craft_client.Types.{
  Lsn, LsnPair, ClientHdr, IoExtent, ReadResult, Result, craft, generic, stale_term,
  invalid_argument,
}
use craft_client.Replica.{MemCraftReplica, MemJournalSlot, IndexCell}
use craft_client.Replica.Apply.{apply_up_to}
use craft_client.Replica.Ops.{lsns_of, misaligned}

unfoldable pub all_zero : List ℕ → Bool
all_zero [] = true
all_zero (b ∷ bs) = b == 0 && all_zero bs

abbrev pub covers : MemJournalSlot → ℕ → Bool
covers s x = leb s.lba x && ltb x (s.lba + s.len)

-- The loop down from `upper_bound(H)`.
unfoldable pub scan_down : Lsn → ℕ → OrderedMap MemJournalSlot → Option MemJournalSlot
scan_down commit_lsn x [] = none
scan_down commit_lsn x ((d, s) ∷ below) =
    let rest = scan_down commit_lsn x below in
    if leb d commit_lsn
    then none
    else if s.is_empty
    then rest
    else if covers s x
    then some s
    else rest

unfoldable pub highest_slot_le : MemCraftReplica → ℕ → Lsn → Option MemJournalSlot
highest_slot_le r x H = scan_down r.commit_lsn x (reverse (up_to H r.journal))

-- One page of a buffer; a null buffer has none.
abbrev pub page_at : ℕ → Option (List ℕ) → ℕ → List ℕ
page_at page_size none off = []
page_at page_size (some buf) off = take page_size (drop off buf)

abbrev pub slot_page : ℕ → MemJournalSlot → ℕ → Option (List ℕ)
slot_page page_size s x =
    if s.all_zeros then none else some (page_at page_size s.bytes ((x - s.lba) * page_size))

abbrev pub cell_page : ℕ → Option IndexCell → Option (List ℕ)
cell_page page_size none = none
cell_page page_size (some c) = some (page_at page_size c.buf c.off)

abbrev pub from_tail : ℕ → ℕ → Option MemJournalSlot → Option IndexCell → Option (List ℕ)
from_tail page_size x none cell = cell_page page_size cell
from_tail page_size x (some s) cell = slot_page page_size s x

-- The winner's page for block `x`; `none` is a hole.
unfoldable pub winner_page : MemCraftReplica → Lsn → ℕ → Option (List ℕ)
winner_page r H x = from_tail r.page_size x (highest_slot_le r x H) (find x r.index)

-- The read-time scan: an all-zero page reads back as a hole.
abbrev pub thin : Option (List ℕ) → Option (List ℕ)
thin none = none
thin (some page) = if all_zero page then none else some page

abbrev pub is_hole : Option (List ℕ) → Bool
is_hole none = true
is_hole (some page) = false

abbrev pub page_bytes : ℕ → Option (List ℕ) → List ℕ
page_bytes page_size none = replicate page_size 0
page_bytes page_size (some page) = page

abbrev pub same_kind : Bool → Bool → Bool
same_kind true b = b
same_kind false b = not b

-- The layout so far, its last extent first.
unfoldable pub coalesce : ℕ → ℕ → Bool → List IoExtent → List IoExtent
coalesce page_size x_addr hole [] = record { addr = x_addr; len = page_size; hole = hole } ∷ []
coalesce page_size x_addr hole (back ∷ layout) =
    if same_kind back.hole hole && back.addr + back.len == x_addr
    then record back { len = back.len + page_size } ∷ layout
    else record { addr = x_addr; len = page_size; hole = hole } ∷ back ∷ layout

-- The loop over the blocks, with `n` blocks left from block `x` on.
unfoldable pub read_blocks : ℕ → MemCraftReplica → Lsn → ℕ → List IoExtent → List IoExtent × List ℕ
read_blocks zero r H x layout = (reverse layout, [])
read_blocks (suc n) r H x layout =
    let page = thin (winner_page r H x) in
    let (extents, filled) =
      read_blocks n r H (x + 1) (coalesce r.page_size (x * r.page_size) (is_hole page) layout) in
    (extents, page_bytes r.page_size page ++ filled)

unfoldable pub read_range : MemCraftReplica → Lsn → ℕ → ℕ → List IoExtent × List ℕ
read_range r H addr len = read_blocks (len / r.page_size % 2 ^ 32) r H (addr / r.page_size) []

-- `dest_size` is the room in the caller's buffer.
unfoldable pub do_read :
    MemCraftReplica → ClientHdr → Lsn → ℕ → ℕ → ℕ → Result ReadResult × MemCraftReplica
do_read r hdr read_lsn addr len dest_size =
    if misaligned r.page_size addr len
    then (unexpected (generic invalid_argument), r)
    else if ltb dest_size len
    then (unexpected (generic invalid_argument), r)
    else if not (hdr.term == r.term)
    then (unexpected (craft stale_term), r)
    else (let applied = apply_up_to r hdr.commit_lsn in
        let q = record applied { reads_served = applied.reads_served + 1 } in
        let (extents, filled) = read_range q read_lsn addr len in
        (ok (record { extents = extents; lsns = lsns_of q; filled = filled }), q))
