-- ===== src/Transport/Rejects.antt =====
-- What the client may conclude from a failed write.
use craft_client.Prelude.{ℕ, ◌≡◌, ◌≢◌, ◌⊎◌, Bool, true, false, Option, List, arith}
use craft_client.Prelude.Results.{unexpected}
use craft_client.Types.{Lsn, ClientHdr, ErrorCondition, CraftError, Errc, craft, generic}
use craft_client.Types.Status.{Status, to_wire_status, status_to_error}
use craft_client.Replica.{MemCraftReplica, ReplicaFaults}
use craft_client.Replica.Ops.{do_write}
use craft_client.Transport.Delivery.{plan_delivery, send_write, reachable}

-- The lambda of the write path in src/client.cpp.
unfoldable pub deterministic_reject : ErrorCondition → Bool
deterministic_reject (generic Errc.invalid_argument) = true
deterministic_reject (craft CraftError.replica_down) = true
deterministic_reject _ = false

-- The error that a peer's reply is for a client behind the wire.
abbrev pub over_the_wire : ErrorCondition → ErrorCondition
over_the_wire e = status_to_error (to_wire_status e)

do_write_refused :
    (r : MemCraftReplica) (hdr : ClientHdr) (dlsn : Lsn) (addr len : ℕ) (bytes : Option (List ℕ))
    (e : ErrorCondition)
    → (do_write r hdr dlsn addr len bytes).0 ≡ unexpected e
    → (do_write r hdr dlsn addr len bytes).1 ≡ r
unfolding do_write
do_write_refused r hdr dlsn addr len bytes e h = ground arith

-- A write whose reply is a deterministic rejection has not changed the replica, and no late delivery
-- of it is under way: the wire did not abandon it.
pub send_write_rejected :
    (at_issue : ReplicaFaults) (op_timeout : ℕ) (r : MemCraftReplica) (hdr : ClientHdr) (dlsn : Lsn)
    (addr len : ℕ) (bytes : Option (List ℕ)) (e : ErrorCondition)
    → (send_write at_issue op_timeout r hdr dlsn addr len bytes).0 ≡ unexpected e
    → deterministic_reject e ≡ true
    → ((send_write at_issue op_timeout r hdr dlsn addr len bytes).1 ≡ r)
      × ((reachable at_issue ≡ false)
          ⊎ ((plan_delivery at_issue.delay op_timeout).abandoned ≡ false))
unfolding send_write deterministic_reject
send_write_rejected at_issue op_timeout r hdr dlsn addr len bytes e h rejected =
    ground (arith, do_write_refused r hdr dlsn addr len bytes e)

-- Over the wire every deterministic rejection is read back as itself, and so is every other error
-- that has a status byte of its own. An error without one is read back as REPLICA_DOWN, which the
-- client counts as a deterministic rejection.
pub over_the_wire_lem :
    (e : ErrorCondition)
    → (to_wire_status e ≢ Status.internal → over_the_wire e ≡ e)
      × (to_wire_status e ≡ Status.internal
          → (deterministic_reject e ≡ false) × (deterministic_reject (over_the_wire e) ≡ true))
unfolding deterministic_reject to_wire_status status_to_error
over_the_wire_lem e = ground arith
