-- ===== src/Replica/Read/Spec/Keeps.antt =====
-- Every operation of a replica keeps its state valid.
use craft_client.Prelude.{
  ℕ, ◌+◌, ◌≤◌, ◌<◌, ◌≡◌, ◌≢◌, refl, not, Option, none, some, List, arith, ap, ◌∙◌, sym, ltb, ◌==◌,
  ◌⊎◌, inl, inr, Option-cases, if_either,
}
use craft_client.Prelude.OrderedMap.{find, find-assign, up_to-assign, Above-assign}
use craft_client.Types.{Lsn, ClientHdr}
use craft_client.Replica.{MemCraftReplica, MemJournalSlot, fresh}
use craft_client.Replica.Apply.{advance, apply_up_to}
use craft_client.Replica.Apply.Frontier.{Applies, stalled, stepped, apply_up_to-Applies}
use craft_client.Replica.Ops.{
  append, misaligned, wrong_size, holds_verdict, do_write, do_keep_alive, cold_apply_sync,
  cold_install_slot, cold_mark_empty,
}
use craft_client.Replica.Read.{do_read}
use craft_client.Replica.Read.Spec.{IsValid, last_write, cell_of}
use craft_client.Replica.Read.Spec.Index.{advance_indexed}

pub fresh-IsValid : (id page_size : ℕ) → IsValid (fresh id page_size)
fresh-IsValid id page_size = record {
  ordered = tt;
  contiguous = λ d pos le. absurd (omega arith);
  appended = λ d lt. refl;
  indexed = λ x. refl;
}

advance-IsValid :
    (r : MemCraftReplica) (s : MemJournalSlot)
    → IsValid r
    → find (r.commit_lsn + 1) r.journal ≡ some s
    → IsValid (advance r (r.commit_lsn + 1) s)
unfolding advance
advance-IsValid r s v e = record {
  ordered = v.ordered;
  contiguous = λ d pos le. present d pos le;
  appended = v.appended;
  indexed = advance_indexed r s v.ordered e v.indexed;
}
  where
    present : (d : Lsn) → 0 < d → d ≤ r.commit_lsn + 1 → find d r.journal ≢ none
    present d pos le = elim (at_or_below d le) [
      | inl now ↦ λ gone. cc (now, e, gone)
      | inr earlier ↦ v.contiguous d pos earlier
    ]
      where
        at_or_below : (d : ℕ) → d ≤ r.commit_lsn + 1 → (d ≡ r.commit_lsn + 1) ⊎ (d ≤ r.commit_lsn)
        at_or_below d le = ground arith

Applies-IsValid :
    {target : Lsn} {r q : MemCraftReplica} → Applies target r q → IsValid r → IsValid q
Applies-IsValid (stalled r h) v = v
Applies-IsValid (stepped r q s h e a) v = Applies-IsValid a (advance-IsValid r s v e)

pub apply_up_to-IsValid :
    (r : MemCraftReplica) (target : Lsn) → IsValid r → IsValid (apply_up_to r target)
apply_up_to-IsValid r target v = Applies-IsValid (apply_up_to-Applies r target) v

-- A slot above the frontier may be set, or set anew.
pub append-IsValid :
    (r : MemCraftReplica) (d : Lsn) (s : MemJournalSlot)
    → IsValid r
    → r.commit_lsn < d
    → IsValid (append r d s)
append-IsValid r d s v lt = record {
  ordered = Above-assign 0 d s r.journal (omega arith) v.ordered;
  contiguous = λ j pos le. ground (arith, find-assign d s r.journal j, v.contiguous j);
  appended = λ j above. ground (arith, find-assign d s r.journal j, v.appended j);
  indexed = λ x.
      v.indexed x
      ∙ ap (λ m. cell_of r.page_size x (last_write x m)) (sym (up_to-assign d s r.journal _ lt));
}

-- Shut, so that a proof can be split by the branches of an operation.
Kept : {A : Type 0} → A × MemCraftReplica → Type 0
Kept p = IsValid p.1

module _ {A : Type 0} where
  kept : (a : A) {q : MemCraftReplica} → IsValid q → Kept (a, q)
  unfolding Kept
  kept a v = v

  of_Kept : (p : A × MemCraftReplica) → Kept p → IsValid p.1
  unfolding Kept
  of_Kept p k = k

-- A write to a slot above the commit frontier keeps the replica's state valid, accepted or refused.
pub do_write-IsValid :
    (r : MemCraftReplica) (hdr : ClientHdr) (dlsn : Lsn) (addr len : ℕ) (bytes : Option (List ℕ))
    → IsValid r
    → r.commit_lsn < dlsn
    → IsValid (do_write r hdr dlsn addr len bytes).1
unfolding do_write
do_write-IsValid r hdr dlsn addr len bytes v lt = of_Kept (do_write r hdr dlsn addr len bytes) (
    if_either Kept (misaligned r.page_size addr len) (kept _ v) (
      if_either Kept (wrong_size bytes len) (kept _ v) (
        if_either Kept (not (hdr.term == r.term)) (kept _ v) (
          if_either Kept (holds_verdict (find dlsn r.journal)) (kept _ v)
            (kept _ (apply_up_to-IsValid _ hdr.commit_lsn (append-IsValid r dlsn _ v lt)))))))

-- A read keeps the replica's state valid, served or refused.
pub do_read-IsValid :
    (r : MemCraftReplica) (hdr : ClientHdr) (H : Lsn) (addr len dest_size : ℕ)
    → IsValid r
    → IsValid (do_read r hdr H addr len dest_size).1
unfolding do_read
do_read-IsValid r hdr H addr len dest_size v = of_Kept (do_read r hdr H addr len dest_size) (
    if_either Kept (misaligned r.page_size addr len) (kept _ v) (
      if_either Kept (ltb dest_size len) (kept _ v) (
        if_either Kept (not (hdr.term == r.term)) (kept _ v)
          (kept _ (counted (apply_up_to-IsValid r hdr.commit_lsn v))))))
  where
    counted :
        {q : MemCraftReplica} → IsValid q → IsValid (record q { reads_served = q.reads_served + 1 })
    counted w = record {
      ordered = w.ordered;
      contiguous = w.contiguous;
      appended = w.appended;
      indexed = w.indexed;
    }

-- So does a keep_alive.
pub do_keep_alive-IsValid :
    (r : MemCraftReplica) (hdr : ClientHdr) → IsValid r → IsValid (do_keep_alive r hdr).1
unfolding do_keep_alive
do_keep_alive-IsValid r hdr v = of_Kept (do_keep_alive r hdr) (
    if_either Kept (not (hdr.term == r.term)) (kept _ v) (
      kept _ (
        apply_up_to-IsValid _ hdr.commit_lsn (record {
          ordered = v.ordered;
          contiguous = v.contiguous;
          appended = v.appended;
          indexed = v.indexed;
        }))))

-- So does the commit of a synchronisation.
pub cold_apply_sync-IsValid :
    (r : MemCraftReplica) (rs : Lsn) → IsValid r → IsValid (cold_apply_sync r rs)
unfolding cold_apply_sync
cold_apply_sync-IsValid r rs v = apply_up_to-IsValid r rs v

-- Installing a slot keeps the replica's state valid, whichever slot it is: where the slot is held it
-- is left alone, and a missing one is above the frontier.
pub cold_install_slot-IsValid :
    (r : MemCraftReplica) (d : Lsn) (s : MemJournalSlot)
    → IsValid r
    → 0 < d
    → IsValid (cold_install_slot r d s)
unfolding cold_install_slot
cold_install_slot-IsValid r d s v pos = elim (Option-cases (find d r.journal)) [
  | inl gone ↦
      rw (gone, cold_install_slot)
        (append-IsValid r d s v (above_frontier (r.commit_lsn) gone refl))
  | inr (t, held) ↦ rw (held, cold_install_slot) v
]
  where
    above_frontier : (c : ℕ) → find d r.journal ≡ none → c ≡ r.commit_lsn → r.commit_lsn < d
    above_frontier c gone e = ground (arith, v.contiguous d pos)

-- A verdict above the frontier keeps it valid.
pub cold_mark_empty-IsValid :
    (r : MemCraftReplica) (d : Lsn) → IsValid r → r.commit_lsn < d → IsValid (cold_mark_empty r d)
unfolding cold_mark_empty
cold_mark_empty-IsValid r d v lt = append-IsValid r d _ v lt
