-- ===== src/Replica/Reach.antt =====
-- What holds of a replica after any sequence of requests: the states that are reached from a fresh
-- one by the synchronous cores and the hooks of the cold path.
use craft_client.Prelude.{
  ℕ, ◌≤◌, ◌<◌, ◌≡◌, ◌≢◌, ◌==◌, Option, none, List, arith, min, ap, sym, ◌∙◌, inl, inr, Bool-cases,
}
use craft_client.Prelude.OrderedMap.{find, up_to, find-up_to, Above-up_to, up_to-up_to}
use craft_client.Types.{Lsn, ClientHdr}
use craft_client.Replica.{MemCraftReplica, MemJournalSlot, fresh, with_append}
use craft_client.Replica.Ops.{
  do_write, do_keep_alive, do_resolve_local, cold_apply_sync, cold_apply_login, cold_apply_logout,
  cold_install_slot, cold_mark_empty, do_truncate, cold_truncate_above,
}
use craft_client.Replica.Read.{do_read, winner_page}
use craft_client.Replica.Read.Spec.{IsValid, spec_page, cell_of, last_write}
use craft_client.Replica.Read.Spec.Keeps.{
  fresh-IsValid, do_write-IsValid, do_read-IsValid, do_keep_alive-IsValid, cold_apply_sync-IsValid,
  cold_install_slot-IsValid, cold_mark_empty-IsValid,
}
use craft_client.Replica.Read.Spec.Tail.{winner_page_lem}
use craft_client.Replica.Resolve.{do_resolve_local_lem}

-- One request, whatever its arguments are; it may be refused.
pub data Step (r : MemCraftReplica) : MemCraftReplica → Type 0 where
  written :
      (hdr : ClientHdr) (dlsn : Lsn) (addr len : ℕ) (bytes : Option (List ℕ))
      → Step r (do_write r hdr dlsn addr len bytes).1
  was_read :
      (hdr : ClientHdr) (read_lsn : Lsn) (addr len dest_size : ℕ)
      → Step r (do_read r hdr read_lsn addr len dest_size).1
  kept_alive : (hdr : ClientHdr) → Step r (do_keep_alive r hdr).1
  resolved : (hdr : ClientHdr) (upto : Lsn) → Step r (do_resolve_local r hdr upto).1
  synced : (rs : Lsn) → Step r (cold_apply_sync r rs)
  logged_in : (client_token term : ℕ) → Step r (cold_apply_login r client_token term)
  logged_out : Step r (cold_apply_logout r)
  installed : (d : Lsn) (s : MemJournalSlot) → Step r (cold_install_slot r d s)
  voided : (d : Lsn) → Step r (cold_mark_empty r d)
  truncated : (lsn : Lsn) → Step r (do_truncate r lsn)
  truncated_above : (rs : Lsn) → Step r (cold_truncate_above r rs)

-- What the code does not check: a write and a verdict are for a dLSN above the commit frontier, a
-- slot is installed at a dLSN, and a truncation is not below the frontier.
abbrev pub Orderly : {r q : MemCraftReplica} → Step r q → Type 0
Orderly {r} (written hdr dlsn addr len bytes) = r.commit_lsn < dlsn
Orderly {r} (installed d s) = 0 < d
Orderly {r} (voided d) = r.commit_lsn < d
Orderly {r} (truncated lsn) = r.commit_lsn ≤ lsn
Orderly {r} (truncated_above rs) = r.commit_lsn ≤ rs
Orderly _ = Unit {0}

pub data Reach (id page_size : ℕ) : MemCraftReplica → Type 0 where
  started : Reach id page_size (fresh id page_size)
  step :
      (r q : MemCraftReplica)
      → Reach id page_size r
      → (s : Step r q) → Orderly s
      → Reach id page_size q

truncate-IsValid :
    (r : MemCraftReplica) (lsn : Lsn)
    → IsValid r
    → r.commit_lsn ≤ lsn
    → IsValid (with_append (record r { journal = up_to lsn r.journal }) (min r.last_append_lsn lsn))
truncate-IsValid r lsn v le = record {
  ordered = Above-up_to 0 lsn r.journal v.ordered;
  contiguous = λ d pos at. ground (arith, find-up_to lsn r.journal d, v.contiguous d);
  appended = λ d above. ground (arith, find-up_to lsn r.journal d, v.appended d);
  indexed = λ x.
      v.indexed x
      ∙ ap (λ m. cell_of r.page_size x (last_write x m))
          (sym (up_to-up_to r.commit_lsn lsn r.journal le));
}

do_resolve_local-IsValid :
    (r : MemCraftReplica) (hdr : ClientHdr) (upto : Lsn)
    → IsValid r
    → IsValid (do_resolve_local r hdr upto).1
do_resolve_local-IsValid r hdr upto v = elim (Bool-cases (hdr.term == r.term)) [
  | inl current ↦ (do_resolve_local_lem r hdr upto v (ground arith)).1
  | inr stale ↦ unfold do_resolve_local in rw stale v
]

-- Another session does not touch what the journal and the index hold.
session-IsValid :
    (r : MemCraftReplica) (client_token term : ℕ)
    → IsValid r
    → IsValid (record r { state = record (r.state) { client_token = client_token; term = term } })
session-IsValid r client_token term v = record {
  ordered = v.ordered;
  contiguous = v.contiguous;
  appended = v.appended;
  indexed = v.indexed;
}

Step-IsValid : (r q : MemCraftReplica) (s : Step r q) → Orderly s → IsValid r → IsValid q
unfolding cold_apply_login cold_apply_logout do_truncate cold_truncate_above
Step-IsValid r _ (written hdr dlsn addr len bytes) lt v =
    do_write-IsValid r hdr dlsn addr len bytes v lt
Step-IsValid r _ (was_read hdr read_lsn addr len dest_size) o v =
    do_read-IsValid r hdr read_lsn addr len dest_size v
Step-IsValid r _ (kept_alive hdr) o v = do_keep_alive-IsValid r hdr v
Step-IsValid r _ (resolved hdr upto) o v = do_resolve_local-IsValid r hdr upto v
Step-IsValid r _ (synced rs) o v = cold_apply_sync-IsValid r rs v
Step-IsValid r _ (logged_in client_token term) o v = session-IsValid r client_token term v
Step-IsValid r _ logged_out o v = session-IsValid r 0 0 v
Step-IsValid r _ (installed d s) pos v = cold_install_slot-IsValid r d s v pos
Step-IsValid r _ (voided d) lt v = cold_mark_empty-IsValid r d v lt
Step-IsValid r _ (truncated lsn) le v = truncate-IsValid r lsn v le
Step-IsValid r _ (truncated_above rs) le v = truncate-IsValid r rs v le

pub Reach-IsValid : {id page_size : ℕ} (r : MemCraftReplica) → Reach id page_size r → IsValid r
Reach-IsValid {id} {page_size} _ started = fresh-IsValid id page_size
Reach-IsValid _ (step r q reached s o) = Step-IsValid r q s o (Reach-IsValid r reached)

-- In every state that is reached from a fresh replica by requests, of which each write and each
-- verdict is for a dLSN above the commit frontier of its time, each installed slot is at a dLSN and
-- no truncation is below the frontier, a read at a horizon that the frontier has not passed sees of
-- each block the last write up to that horizon, every slot up to the frontier is present, and none
-- is above `last_append_lsn`.
pub Reach_lem :
    (id page_size : ℕ) (r : MemCraftReplica)
    → Reach id page_size r
    → ((H : Lsn) (x : ℕ)
        → r.commit_lsn ≤ H
        → winner_page r H x ≡ spec_page r.page_size r.journal H x)
      × ((d : Lsn) → 0 < d → d ≤ r.commit_lsn → find d r.journal ≢ none)
      × ((d : Lsn) → r.last_append_lsn < d → find d r.journal ≡ none)
Reach_lem id page_size r reached =
    let v = Reach-IsValid r reached in
    ((λ H x le. winner_page_lem r H x v le), v.contiguous, v.appended)
