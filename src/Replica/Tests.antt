-- ===== src/Replica/Tests.antt =====
-- The replica's theorems at concrete inputs.
use craft_client.Prelude.{ℕ, ◌+◌, ◌≤◌, ◌<◌, ◌≡◌, ◌≢◌, refl, true, none, some, [], ◌∷◌, arith, ◌⊎◌}
use craft_client.Prelude.OrderedMap.{find}
use craft_client.Prelude.Results.{ok}
use craft_client.Types.{ClientHdr}
use craft_client.Replica.{MemCraftReplica, fresh, tombstone}
use craft_client.Replica.Apply.{apply_up_to}
use craft_client.Replica.Apply.Frontier.{apply_up_to_frontier}
use craft_client.Replica.Ops.{
  holds_verdict, do_write, do_resolve_local, append, write_slot, lsns_of,
}
use craft_client.Replica.Read.{winner_page, covers, slot_page}
use craft_client.Replica.Read.Spec.{IsValid, spec_page}
use craft_client.Replica.Read.Spec.Keeps.{fresh-IsValid, append-IsValid}
use craft_client.Replica.Read.Spec.Tail.{winner_page_lem}
use craft_client.Replica.Resolve.{voids}
use craft_client.Replica.Reach.{started, step, written, resolved, Reach_lem}
use craft_client.Replica.Forward.{cuts, Step_forward}
use craft_client.Replica.Writes.{do_write_accepted}

-- A replica of two-byte blocks, and requests of its own term and of another.
abbrev empty : MemCraftReplica
empty = fresh 7 2

abbrev current : ClientHdr
current = record { term = 0; commit_lsn = 0; all_committed_lsn = 0; client_token = 5 }

abbrev deposed : ClientHdr
deposed = record { term = 3; commit_lsn = 0; all_committed_lsn = 0; client_token = 5 }

-- A slot at dLSN 1 and one at dLSN 3, which leaves a hole at 2.
abbrev gapped : MemCraftReplica
gapped =
    append (append empty 1 (write_slot 2 0 4 2 (some (8 ∷ 9 ∷ [])))) 3
      (write_slot 2 0 4 4 (some (1 ∷ 2 ∷ 3 ∷ 4 ∷ [])))

abbrev voided : MemCraftReplica
voided = append empty 2 (tombstone 0)

gapped-IsValid : IsValid gapped
gapped-IsValid =
    append-IsValid _ 3 _ (append-IsValid empty 1 _ (fresh-IsValid 7 2) (omega arith)) (omega arith)

winner_page_example : winner_page gapped 3 2 ≡ spec_page 2 gapped.journal 3 2
winner_page_example = winner_page_lem gapped 3 2 gapped-IsValid (omega arith)

apply_up_to_example :
    let q = apply_up_to gapped 3 in
    (0 ≤ q.commit_lsn)
    × (q.commit_lsn ≤ 3)
    × ((d : ℕ) → 0 < d → d ≤ q.commit_lsn → find d gapped.journal ≢ none)
    × ((3 ≤ q.commit_lsn) ⊎ (find (q.commit_lsn + 1) gapped.journal ≡ none))
apply_up_to_example = apply_up_to_frontier gapped 3

do_write_example :
    let (reply, q) = do_write gapped current 4 4 2 (some (6 ∷ 7 ∷ [])) in
    let slot = write_slot 2 0 4 2 (some (6 ∷ 7 ∷ [])) in
    (reply ≡ ok (lsns_of q))
    × (find 4 q.journal ≡ some slot)
    × (4 ≤ q.last_append_lsn)
    × ((x : ℕ) → covers slot x ≡ true → winner_page q 4 x ≡ slot_page 2 slot x)
do_write_example =
    do_write_accepted gapped current 4 4 2 (some (6 ∷ 7 ∷ [])) gapped-IsValid (omega arith)
      (omega arith) refl refl refl refl

-- The hole at 2 is what the round reports.
voids_gapped : voids 3 1 gapped.journal ≡ 2 ∷ []
voids_gapped = refl

reach_example :
    let r = (do_write empty current 1 4 2 none).1 in
    ((H : ℕ) (x : ℕ) → r.commit_lsn ≤ H → winner_page r H x ≡ spec_page r.page_size r.journal H x)
    × ((d : ℕ) → 0 < d → d ≤ r.commit_lsn → find d r.journal ≢ none)
    × ((d : ℕ) → r.last_append_lsn < d → find d r.journal ≡ none)
reach_example =
    Reach_lem 7 2 (do_write empty current 1 4 2 none).1
      (step empty _ started (written current 1 4 2 none) (omega arith))

step_forward_example :
    let q = (do_resolve_local voided current 3).1 in
    (0 ≤ q.commit_lsn)
    × (holds_verdict (find 2 voided.journal) ≡ true
        → (holds_verdict (find 2 q.journal) ≡ true)
          ⊎ (cuts {r = voided} {q = q} 2 (resolved current 3) ≡ true))
step_forward_example =
    Step_forward voided (do_resolve_local voided current 3).1 2 (resolved current 3)
