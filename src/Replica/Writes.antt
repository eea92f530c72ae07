-- ===== src/Replica/Writes.antt =====
-- What a write leaves behind, and what it cannot undo.
use craft_client.Prelude.{
  ℕ, ◌≤◌, ◌<◌, ◌≡◌, ◌≢◌, refl, ap, ◌∙◌, true, false, not, Option, some, List, [], ◌∷◌, arith, ◌==◌,
}
use craft_client.Prelude.OrderedMap.{
  OrderedMap, find, assign, find-assign, up_to, Above, up_to-Above,
}
use craft_client.Prelude.Results.{ok, unexpected}
use craft_client.Types.{LsnPair, ReadResult, Lsn, ClientHdr, craft, stale_term}
use craft_client.Replica.{MemCraftReplica, MemJournalSlot}
use craft_client.Replica.Apply.{apply_up_to}
use craft_client.Replica.Apply.Frontier.{Applies, apply_up_to-Applies, Applies-same, Applies-bounds}
use craft_client.Replica.Ops.{
  do_write, do_keep_alive, do_resolve_local, append, write_slot, lsns_of, misaligned, wrong_size,
  holds_verdict,
}
use craft_client.Replica.Read.{do_read, winner_page, covers, slot_page}
use craft_client.Replica.Read.Spec.{IsValid, last_write, writes, page_of_write}
use craft_client.Replica.Read.Spec.Keeps.{append-IsValid, apply_up_to-IsValid}
use craft_client.Replica.Read.Spec.Tail.{winner_page_lem}

-- No key above `d`, and `d` assigned last: its entry is the last one up to `d`.
last_write-assign :
    (x lo d : ℕ) (s : MemJournalSlot) (m : OrderedMap MemJournalSlot)
    → Above lo m
    → writes s x ≡ true
    → last_write x (up_to d (assign d s m)) ≡ some (d, s)
last_write-assign x lo d s [] a w = ground arith
last_write-assign x lo d s ((j, t) ∷ m) a w =
    ground (arith, last_write-assign x j d s m, up_to-Above j d m, up_to-Above d d m)

-- What the journal, the watermark and a read show of a slot that was set above the frontier.
module _ (r : MemCraftReplica) (d c : Lsn) (s : MemJournalSlot) where
  abbrev set : MemCraftReplica
  set = apply_up_to (append r d s) c

  set-Applies : Applies c (append r d s) set
  set-Applies = apply_up_to-Applies (append r d s) c

  set_journal : find d set.journal ≡ some s
  set_journal =
      ap (find d) (Applies-same set-Applies).journal ∙ find-assign d s r.journal d ∙ ground arith

  set_appended : d ≤ set.last_append_lsn
  set_appended = omega (arith, (Applies-same set-Applies).last_append)

  set_seen :
      (x : ℕ)
      → IsValid r
      → r.commit_lsn < d
      → c ≤ d
      → writes s x ≡ true
      → winner_page set d x ≡ slot_page r.page_size s x
  set_seen x v lt carried w =
      winner_page_lem set d x (apply_up_to-IsValid _ c (append-IsValid r d s v lt))
        (omega (arith, (Applies-bounds set-Applies).1))
      ∙ rw ((Applies-same set-Applies).page_size, (Applies-same set-Applies).journal)
          (ap (page_of_write r.page_size x) (last_write-assign x 0 d s r.journal v.ordered w))

-- A write in the replica's term, block-aligned, of the size that it says, and to a slot above the
-- commit frontier without the Empty verdict is accepted. The reply carries the watermarks after it,
-- the slot is in the journal, `last_append_lsn` has reached it, and a read at its dLSN sees its
-- page, or a hole for a zero write, in each of its blocks; the commit that it carries is at most its
-- own dLSN.
pub do_write_accepted :
    (r : MemCraftReplica) (hdr : ClientHdr) (dlsn : Lsn) (addr len : ℕ) (bytes : Option (List ℕ))
    → IsValid r
    → r.commit_lsn < dlsn
    → hdr.commit_lsn ≤ dlsn
    → hdr.term ≡ r.term
    → misaligned r.page_size addr len ≡ false
    → wrong_size bytes len ≡ false
    → holds_verdict (find dlsn r.journal) ≡ false
    → let (reply, q) = do_write r hdr dlsn addr len bytes in
      let slot = write_slot r.page_size hdr.term addr len bytes in
      (reply ≡ ok (lsns_of q))
      × (find dlsn q.journal ≡ some slot)
      × (dlsn ≤ q.last_append_lsn)
      × ((x : ℕ) → covers slot x ≡ true → winner_page q dlsn x ≡ slot_page r.page_size slot x)
unfolding do_write
do_write_accepted r hdr dlsn addr len bytes v lt carried e a w h =
    rw (a, w, current, h)
      (
        refl,
        set_journal r dlsn hdr.commit_lsn slot,
        set_appended r dlsn hdr.commit_lsn slot,
        (λ x c. set_seen r dlsn hdr.commit_lsn slot x v lt carried c),
      )
  where
    current : not (hdr.term == r.term) ≡ false
    current = ground arith

    slot : MemJournalSlot
    slot = write_slot r.page_size hdr.term addr len bytes

-- A slot with the Empty verdict stays void: a write to it is refused, whatever its term and its
-- payload, and the replica is as before.
pub do_write_verdict :
    (r : MemCraftReplica) (hdr : ClientHdr) (dlsn : Lsn) (addr len : ℕ) (bytes : Option (List ℕ))
    → holds_verdict (find dlsn r.journal) ≡ true
    → let (reply, q) = do_write r hdr dlsn addr len bytes in
      (q ≡ r) × ((pair : LsnPair) → reply ≢ ok pair)
unfolding do_write
do_write_verdict r hdr dlsn addr len bytes h = ground arith

-- A replica in another term than the header's refuses a write, a read, a keep_alive and a
-- resolution, whatever their arguments, and is as before.
pub stale_term_fence :
    (r : MemCraftReplica) (hdr : ClientHdr) (d : Lsn) (addr len size : ℕ) (bytes : Option (List ℕ))
    → hdr.term ≢ r.term
    → ((do_write r hdr d addr len bytes).1 ≡ r)
      × ((pair : LsnPair) → (do_write r hdr d addr len bytes).0 ≢ ok pair)
      × ((do_read r hdr d addr len size).1 ≡ r)
      × ((result : ReadResult) → (do_read r hdr d addr len size).0 ≢ ok result)
      × (do_keep_alive r hdr ≡ (unexpected (craft stale_term), r))
      × (do_resolve_local r hdr d ≡ (unexpected (craft stale_term), r))
unfolding do_write do_read do_keep_alive do_resolve_local
stale_term_fence r hdr d addr len size bytes stale = rw fenced (ground arith)
  where
    fenced : not (hdr.term == r.term) ≡ true
    fenced = ground arith
