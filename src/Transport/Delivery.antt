-- ===== src/Transport/Delivery.antt =====
-- What the wire does with a request (`plan_delivery`, and the branches of `send_write`).
-- Times are in milliseconds; a delay below zero stands for none.
use craft_client.Prelude.{
  ℕ, Bool, true, false, not, ◌&&◌, Option, List, ltb, leb, ◌==◌, if◌then◌else◌,
}
use craft_client.Prelude.Results.{unexpected}
use craft_client.Types.{
  Lsn, LsnPair, ReadResult, ClientHdr, Result, craft, generic, replica_down, timed_out,
}
use craft_client.Replica.{MemCraftReplica, ReplicaFaults}
use craft_client.Replica.Ops.{do_write, do_keep_alive}
use craft_client.Replica.Read.{do_read}

pub record Delivery : Type 0 where
  pub wait : ℕ
  pub deliver : ℕ
  pub abandoned : Bool

unfoldable pub plan_delivery : ℕ → ℕ → Delivery
plan_delivery delay op_timeout =
    if delay == 0
    then record { wait = 0; deliver = 0; abandoned = false }
    else if ltb 0 op_timeout && leb op_timeout delay
    then record { wait = op_timeout; deliver = delay; abandoned = true }
    else record { wait = delay; deliver = 0; abandoned = false }

abbrev pub reachable : ReplicaFaults → Bool
reachable f = f.up && f.write_ok

-- `deliver_write` is the detached closure of an abandoned write, run when its delay has passed.
unfoldable pub deliver_write :
    MemCraftReplica → ClientHdr → Lsn → ℕ → ℕ → Option (List ℕ) → MemCraftReplica
deliver_write r hdr dlsn addr len bytes =
    if not (reachable r.faults) then r else (do_write r hdr dlsn addr len bytes).1

-- `send_write`: the knobs are `at_issue` when it is sent, and those of the replica `r` when the wait
-- is over. The detached closure is not part of this step.
unfoldable pub send_write :
    ReplicaFaults
    → ℕ
    → MemCraftReplica
    → ClientHdr
    → Lsn
    → ℕ
    → ℕ
    → Option (List ℕ)
    → Result LsnPair × MemCraftReplica
send_write at_issue op_timeout r hdr dlsn addr len bytes =
    if not (reachable at_issue)
    then (unexpected (craft replica_down), r)
    else if (plan_delivery at_issue.delay op_timeout).abandoned
    then (unexpected (generic timed_out), r)
    else if not (reachable r.faults)
    then (unexpected (craft replica_down), r)
    else do_write r hdr dlsn addr len bytes

-- `send_read`: a replica that drops writes still serves reads.
unfoldable pub send_read :
    ReplicaFaults
    → ℕ
    → MemCraftReplica
    → ClientHdr
    → Lsn
    → ℕ
    → ℕ
    → ℕ
    → Result ReadResult × MemCraftReplica
send_read at_issue op_timeout r hdr read_lsn addr len dest_size =
    if not at_issue.up
    then (unexpected (craft replica_down), r)
    else if (plan_delivery at_issue.delay op_timeout).abandoned
    then (unexpected (generic timed_out), r)
    else if not r.faults.up
    then (unexpected (craft replica_down), r)
    else do_read r hdr read_lsn addr len dest_size

unfoldable pub send_keep_alive :
    ReplicaFaults → ℕ → MemCraftReplica → ClientHdr → Result LsnPair × MemCraftReplica
send_keep_alive at_issue op_timeout r hdr =
    if not at_issue.up
    then (unexpected (craft replica_down), r)
    else if (plan_delivery at_issue.delay op_timeout).abandoned
    then (unexpected (generic timed_out), r)
    else if not r.faults.up
    then (unexpected (craft replica_down), r)
    else do_keep_alive r hdr
