-- ===== src/Server.antt =====
-- The body of a read reply (`handle_read` in src/net/tcp_server.cpp): the extent table and the data
-- of the extents that are no holes, from the buffer that the replica's read has filled.
mod Tests
use Prim.Native.Nat.{◌/◌}
use craft_client.Prelude.{
  ℕ, zero, suc, ◌+◌, ◌-◌, ◌*◌, ◌%◌, ◌^◌, ◌≤◌, ◌<◌, ◌≡◌, refl, ap, subst, sym, Bool, true, false,
  List, [], ◌∷◌, ◌++◌, ◌==◌, not, ltb, ◌&&◌, if◌then◌else◌, arith, length, length-append,
  length-take, take, drop, inl, inr, Bool-cases,
}
use mathlib.Core.List.{reverse, reverse-cons}
use craft_client.Prelude.Results.{ok, unexpected}
use craft_client.Types.{Lsn, ClientHdr, IoExtent, ReadResult}
use craft_client.Wire.Pod.{bytes_of, size_of, length-bytes_of}
use craft_client.Wire.Layout.Io.{ExtentDesc, extent_desc_pod}
use craft_client.Wire.Body.{framed_body_max}
use craft_client.Replica.{MemCraftReplica}
use craft_client.Replica.Apply.{apply_up_to}
use craft_client.Replica.Apply.Frontier.{apply_up_to-Applies, Applies-same}
use craft_client.Replica.Ops.{misaligned, lsns_of}
use craft_client.Replica.Read.{
  do_read, read_range, read_blocks, coalesce, same_kind, thin, is_hole, winner_page,
}

abbrev extent_desc_of : IoExtent → ExtentDesc
extent_desc_of e = record {
  addr = e.addr;
  len = e.len;
  hole = if e.hole then 1 else 0;
  reserved = 0;
}

unfoldable pub put_extents : List IoExtent → List ℕ
put_extents [] = []
put_extents (e ∷ layout) = bytes_of (extent_desc_of e) ++ put_extents layout

unfoldable pub put_data : ℕ → List ℕ → List IoExtent → List ℕ
put_data addr dest_buf [] = []
put_data addr dest_buf (e ∷ layout) =
    let rest = put_data addr dest_buf layout in
    if e.hole then rest else take e.len (drop (e.addr - addr) dest_buf) ++ rest

unfoldable pub read_reply_body : ℕ → ReadResult → List ℕ
read_reply_body addr r = put_extents r.extents ++ put_data addr r.filled r.extents

-- How much data a layout promises.
abbrev data_len : List IoExtent → ℕ
data_len [] = 0
data_len (e ∷ layout) = (if e.hole then 0 else e.len) + data_len layout

length-put_extents : (layout : List IoExtent) → length (put_extents layout) ≡ length layout * 24
unfolding put_extents
length-put_extents [] = refl
length-put_extents (e ∷ layout) = omega (
  arith,
  length-append (bytes_of (extent_desc_of e)) (put_extents layout),
  length-bytes_of (extent_desc_of e),
  length-put_extents layout,
)

length-put_data :
    (addr : ℕ) (dest_buf : List ℕ) (layout : List IoExtent)
    → length (put_data addr dest_buf layout) ≤ data_len layout
unfolding put_data
length-put_data addr dest_buf [] = omega arith
length-put_data addr dest_buf (e ∷ layout) = elim (Bool-cases e.hole) [
  | inl hole ↦ simp hole (omega (arith, length-put_data addr dest_buf layout))
  | inr full ↦
      let piece = take e.len (drop (e.addr - addr) dest_buf) in
      simp full (
        omega (
          arith,
          length-append piece (put_data addr dest_buf layout),
          length-take e.len (drop (e.addr - addr) dest_buf),
          length-put_data addr dest_buf layout,
        ))
]

data_len-append : (xs ys : List IoExtent) → data_len (xs ++ ys) ≡ data_len xs + data_len ys
data_len-append [] ys = omega arith
data_len-append (e ∷ xs) ys = omega (arith, data_len-append xs ys)

data_len-reverse :
    (layout : List IoExtent)
    → (data_len (reverse layout) ≡ data_len layout) × (length (reverse layout) ≡ length layout)
data_len-reverse [] = (refl, refl)
data_len-reverse (e ∷ layout) = rw (reverse-cons e layout) (
    let (sums, count) = data_len-reverse layout in
    (
      omega (arith, sums, data_len-append (reverse layout) (e ∷ [])),
      omega (arith, count, length-append (reverse layout) (e ∷ [])),
    ))

coalesce_bound :
    (page_size x : ℕ) (hole : Bool) (layout : List IoExtent)
    → (length (coalesce page_size x hole layout) ≤ length layout + 1)
      × (data_len (coalesce page_size x hole layout) ≤ data_len layout + page_size)
unfolding coalesce
coalesce_bound page_size x hole [] = ground arith
coalesce_bound page_size x hole (back ∷ layout) = ground arith

-- A loop over `n` blocks adds at most `n` extents and the data of `n` blocks.
read_blocks_bound :
    (n : ℕ) (r : MemCraftReplica) (H : Lsn) (x : ℕ) (layout : List IoExtent)
    → (length (read_blocks n r H x layout).0 ≤ length layout + n)
      × (data_len (read_blocks n r H x layout).0 ≤ data_len layout + n * r.page_size)
unfolding read_blocks
read_blocks_bound zero r H x layout =
    (omega (arith, (data_len-reverse layout).1), omega (arith, (data_len-reverse layout).0))
read_blocks_bound (suc n) r H x layout =
    let hole = is_hole (thin (winner_page r H x)) in
    let one = coalesce_bound r.page_size (x * r.page_size) hole layout in
    let rest =
      read_blocks_bound n r H (x + 1) (coalesce r.page_size (x * r.page_size) hole layout) in
    (omega (arith, one.0, rest.0), grind (arith, one.1, rest.1))

length-read_reply_body :
    (addr : ℕ) (r : ReadResult)
    → length (read_reply_body addr r) ≤ length r.extents * 24 + data_len r.extents
unfolding read_reply_body
length-read_reply_body addr r = omega (
  arith,
  length-append (put_extents r.extents) (put_data addr r.filled r.extents),
  length-put_extents r.extents,
  length-put_data addr r.filled r.extents,
)

-- What a read that succeeds has laid out.
laid_out :
    (r : MemCraftReplica) (hdr : ClientHdr) (read_lsn : Lsn) (addr len dest_size : ℕ)
    (result : ReadResult)
    → (do_read r hdr read_lsn addr len dest_size).0 ≡ ok result
    → (q : MemCraftReplica) × (q.page_size ≡ r.page_size)
      × (result.extents ≡ (read_range q read_lsn addr len).0)
unfolding do_read
laid_out r hdr read_lsn addr len dest_size result e =
    elim (Bool-cases (misaligned r.page_size addr len)) [
      | inl bad ↦ absurd (cc (rw (bad, do_read) at e))
      | inr whole ↦ elim (Bool-cases (ltb dest_size len)) [
        | inl bad ↦ absurd (cc (rw (whole, bad, do_read) at e))
        | inr room ↦ elim (Bool-cases (not (hdr.term == r.term))) [
          | inl bad ↦ absurd (cc (rw (whole, room, bad, do_read) at e))
          | inr current ↦
              let same : answer ≡ result = cc (rw (whole, room, current, do_read) at e) in
              (
                q,
                (Applies-same (apply_up_to-Applies r hdr.commit_lsn)).page_size,
                sym (ap (λ a. a.extents) same),
              )
        ]
      ]
    ]
  where
    q : MemCraftReplica
    q =
        let applied = apply_up_to r hdr.commit_lsn in
        record applied { reads_served = applied.reads_served + 1 }

    answer : ReadResult
    answer = record {
      extents = (read_range q read_lsn addr len).0;
      lsns = lsns_of q;
      filled = (read_range q read_lsn addr len).1;
    }

whole_blocks : (len lba : ℕ) → 0 < lba → len / lba * lba ≤ len
whole_blocks len lba h = grind arith

rounded_up : (blocks len lba : ℕ) → 0 < lba → blocks * lba ≤ len → blocks ≤ (len + lba - 1) / lba
rounded_up blocks len lba h fits = grind arith

scaled : (a b c : ℕ) → a ≤ b → a * c ≤ b * c
scaled a b c h = grind arith

read_range_bound :
    (q : MemCraftReplica) (H : Lsn) (addr len : ℕ)
    → 0 < q.page_size
    → (length (read_range q H addr len).0 * q.page_size ≤ len)
      × (data_len (read_range q H addr len).0 ≤ len)
unfolding read_range
read_range_bound q H addr len pos =
    let n = len / q.page_size % 2 ^ 32 in
    let loop = read_blocks_bound n q H (addr / q.page_size) [] in
    let whole : n * q.page_size ≤ len = omega (
      arith,
      scaled n (len / q.page_size) q.page_size (omega arith),
      whole_blocks len q.page_size pos,
    ) in
    (
      omega (
        arith,
        scaled (length (read_range q H addr len).0) n q.page_size (omega (arith, loop.0)),
        whole,
      ),
      omega (arith, loop.1, whole),
    )

-- The body of the reply to a read that the replica serves, of at most the payload agreed at login,
-- whatever its extents are, stays within the parse bound that the peers derive from that payload
-- and the block size, as long as the bound fits 32 bits.
pub read_reply_body_bound :
    (r : MemCraftReplica) (hdr : ClientHdr) (read_lsn : Lsn) (addr len payload : ℕ)
    (result : ReadResult)
    → 0 < r.page_size
    → len ≤ payload
    → payload + r.page_size + (payload + r.page_size - 1) / r.page_size * 24 < 2 ^ 32
    → (do_read r hdr read_lsn addr len len).0 ≡ ok result
    → length (read_reply_body addr result) ≤ framed_body_max payload r.page_size
unfolding framed_body_max
read_reply_body_bound r hdr read_lsn addr len payload result pos small fits e =
    let (q, page, extents) = laid_out r hdr read_lsn addr len len result e in
    let bounds = read_range_bound q read_lsn addr len (subst (λ n. 0 < n) (sym page) pos) in
    let fit : length result.extents * r.page_size ≤ payload = rw extents (
      omega (
        arith,
        small,
        subst (λ n. length (read_range q read_lsn addr len).0 * n ≤ len) page bounds.0,
      )) in
    let count = rounded_up (length result.extents) payload r.page_size pos fit in
    let data_fits : data_len result.extents ≤ len = rw extents bounds.1 in
    rw (nonzero, no_wrap) (omega (arith, length-read_reply_body addr result, count, data_fits))
  where
    nonzero : (r.page_size == 0) ≡ false
    nonzero = ground arith

    no_wrap : (payload + r.page_size - 1) % 2 ^ 32 ≡ payload + r.page_size - 1
    no_wrap = omega arith
