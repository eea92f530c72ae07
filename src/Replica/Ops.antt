-- ===== src/Replica/Ops.antt =====
-- The synchronous cores of a replica, and the hooks of the cold path.
-- An operation returns its result and the new state; the mutex makes it one step.
use craft_client.Prelude.{
  ℕ, zero, suc, ◌+◌, ◌-◌, ◌/◌, ◌%◌, ◌^◌, Bool, true, false, not, ◌||◌, Option, none, some, List, [],
  ◌∷◌, ◌++◌, ◌==◌, ltb, if◌then◌else◌, length, min, max,
}
use craft_client.Prelude.OrderedMap.{OrderedMap, find, assign, up_to}
use craft_client.Prelude.Results.{ok, unexpected}
use craft_client.Types.{
  Lsn, LsnPair, ClientHdr, ResolutionResult, Result, craft, generic, stale_term, invalid_argument,
  replica_down,
}
use craft_client.Replica.{MemCraftReplica, MemJournalSlot, with_append, tombstone}
use craft_client.Replica.Apply.{apply_up_to}

abbrev pub lsns_of : MemCraftReplica → LsnPair
lsns_of r = record { commit_lsn = r.commit_lsn; last_append_lsn = r.last_append_lsn }

-- `journal_.find(d) != end() && it->second.is_empty`.
abbrev pub holds_verdict : Option MemJournalSlot → Bool
holds_verdict none = false
holds_verdict (some s) = s.is_empty

abbrev pub is_null : Option (List ℕ) → Bool
is_null none = true
is_null (some bytes) = false

abbrev pub wrong_size : Option (List ℕ) → ℕ → Bool
wrong_size none len = false
wrong_size (some bytes) len = not (length bytes == len)

abbrev pub misaligned : ℕ → ℕ → ℕ → Bool
misaligned page_size addr len =
    not (addr % page_size == 0) || not (len % page_size == 0) || len == 0

-- `lba_count_t` is a uint32_t.
abbrev pub write_slot : ℕ → ℕ → ℕ → ℕ → Option (List ℕ) → MemJournalSlot
write_slot page_size term addr len bytes = record {
  term = term;
  lba = addr / page_size;
  len = len / page_size % 2 ^ 32;
  all_zeros = is_null bytes;
  is_empty = false;
  bytes = bytes;
}

-- `journal_[d] = slot; last_append_lsn = max(last_append_lsn, d)`.
abbrev pub append : MemCraftReplica → Lsn → MemJournalSlot → MemCraftReplica
append r d slot =
    with_append (record r { journal = assign d slot r.journal }) (max r.last_append_lsn d)

unfoldable pub do_write :
    MemCraftReplica → ClientHdr → Lsn → ℕ → ℕ → Option (List ℕ) → Result LsnPair × MemCraftReplica
do_write r hdr dlsn addr len bytes =
    if misaligned r.page_size addr len
    then (unexpected (generic invalid_argument), r)
    else if wrong_size bytes len
    then (unexpected (generic invalid_argument), r)
    else if not (hdr.term == r.term)
    then (unexpected (craft stale_term), r)
    else if holds_verdict (find dlsn r.journal)
    then (unexpected (generic invalid_argument), r)
    else (let slot = write_slot r.page_size hdr.term addr len bytes in
        let q = apply_up_to (append r dlsn slot) hdr.commit_lsn in (ok (lsns_of q), q))

unfoldable pub do_keep_alive : MemCraftReplica → ClientHdr → Result LsnPair × MemCraftReplica
do_keep_alive r hdr =
    if not (hdr.term == r.term)
    then (unexpected (craft stale_term), r)
    else (let q =
          apply_up_to (record r { keepalives_served = r.keepalives_served + 1 }) hdr.commit_lsn in
        (ok (lsns_of q), q))

-- `net_up` is the transport's word for this replica; a replica without a transport is up.
unfoldable pub do_lsns : MemCraftReplica → Bool → Result LsnPair × MemCraftReplica
do_lsns r net_up = if not net_up then (unexpected (craft replica_down), r) else (ok (lsns_of r), r)

unfoldable pub do_truncate : MemCraftReplica → Lsn → MemCraftReplica
do_truncate r lsn =
    with_append (record r { journal = up_to lsn r.journal }) (min r.last_append_lsn lsn)

-- One round of the scan: the new journal and the verdicts so far.
unfoldable pub resolve_slot :
    ℕ → Lsn → OrderedMap MemJournalSlot × List Lsn → OrderedMap MemJournalSlot × List Lsn
resolve_slot term d (journal, empties) = elim (find d journal) [
  | none ↦ (assign d (tombstone term) journal, empties ++ d ∷ [])
  | some s ↦ if s.is_empty then (journal, empties ++ d ∷ []) else (journal, empties)
]

-- `for (d = first; d <= upto; ++d)`, with `n` rounds left.
unfoldable pub resolve_rounds :
    ℕ → ℕ → Lsn → OrderedMap MemJournalSlot × List Lsn → OrderedMap MemJournalSlot × List Lsn
resolve_rounds zero term d acc = acc
resolve_rounds (suc n) term d acc = resolve_rounds n term (d + 1) (resolve_slot term d acc)

unfoldable pub do_resolve_local :
    MemCraftReplica → ClientHdr → Lsn → Result ResolutionResult × MemCraftReplica
do_resolve_local r hdr upto =
    if not (hdr.term == r.term)
    then (unexpected (craft stale_term), r)
    else (let (journal, empties) =
          resolve_rounds (upto - r.commit_lsn) r.term (r.commit_lsn + 1) (r.journal, []) in
        let marked = with_append (record r { journal = journal }) (max r.last_append_lsn upto) in
        (ok (record { resolved_upto = upto; empty_slots = empties }), apply_up_to marked upto))

-- ── the hooks of the cold path ──

abbrev pub peek_lsns : MemCraftReplica → LsnPair
peek_lsns r = lsns_of r

unfoldable pub cold_apply_sync : MemCraftReplica → Lsn → MemCraftReplica
cold_apply_sync r rs_commit_lsn = apply_up_to r rs_commit_lsn

unfoldable pub cold_apply_login : MemCraftReplica → ℕ → ℕ → MemCraftReplica
cold_apply_login r client_token term = record r {
  state = record (r.state) { client_token = client_token; term = term };
}

unfoldable pub cold_apply_logout : MemCraftReplica → MemCraftReplica
cold_apply_logout r = record r { state = record (r.state) { client_token = 0; term = 0 } }

unfoldable pub cold_truncate_above : MemCraftReplica → Lsn → MemCraftReplica
cold_truncate_above r rs_commit_lsn =
    with_append (record r { journal = up_to rs_commit_lsn r.journal })
      (min r.last_append_lsn rs_commit_lsn)

abbrev pub peek_slot : MemCraftReplica → Lsn → Option MemJournalSlot
peek_slot r d = find d r.journal

unfoldable pub cold_install_slot : MemCraftReplica → Lsn → MemJournalSlot → MemCraftReplica
cold_install_slot r d s = elim (find d r.journal) [ some _ ↦ r | none ↦ append r d s ]

unfoldable pub cold_mark_empty : MemCraftReplica → Lsn → MemCraftReplica
cold_mark_empty r d = append r d (tombstone r.term)

-- The loop over the ordered journal, which ends at the first key above `upto`.
unfoldable pub peek_empties : OrderedMap MemJournalSlot → Lsn → List Lsn
peek_empties [] upto = []
peek_empties ((d, s) ∷ m) upto =
    let rest = peek_empties m upto in
    if ltb upto d then [] else if s.is_empty then d ∷ rest else rest
