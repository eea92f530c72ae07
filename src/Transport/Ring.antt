-- ===== src/Transport/Ring.antt =====
-- A replica's client-facing verbs (`MemCraftReplica::write`, `read`, `keep_alive`, `login`, `logout`,
-- `request_resolution` in src/mem/replica.cpp): on a ring they plan their delivery themselves.
-- As in Delivery, the knobs are those at issue and, in the replica, those after the wait.
use craft_client.Prelude.{
  ℕ, ◌≡◌, ◌≢◌, Bool, not, ◌&&◌, Option, List, ltb, leb, ◌==◌, if◌then◌else◌, arith,
}
use craft_client.Prelude.Results.{ok, unexpected}
use craft_client.Types.{
  Lsn, LsnPair, ReadResult, LoginResult, ResolutionResult, ClientHdr, Result, craft, generic,
  replica_down, timed_out, stale_term,
}
use craft_client.Replica.{MemCraftReplica, ReplicaFaults}
use craft_client.Replica.Ops.{do_write, do_keep_alive}
use craft_client.Replica.Read.{do_read}
use craft_client.Transport.{Between, MemTransport, run_login, run_logout, run_resolution}
use craft_client.Transport.Delivery.{
  send_write, send_read, send_keep_alive, plan_delivery, deliver_write,
}

abbrev pub past_deadline : ℕ → ℕ → Bool
past_deadline delay op_to = ltb 0 delay && ltb 0 op_to && leb op_to delay

unfoldable pub ring_write :
    ReplicaFaults
    → ℕ
    → MemCraftReplica
    → ClientHdr
    → Lsn
    → ℕ
    → ℕ
    → Option (List ℕ)
    → Result LsnPair × MemCraftReplica
ring_write rf op_to r hdr dlsn addr len bytes =
    if not (rf.up && rf.write_ok)
    then (unexpected (craft replica_down), r)
    else if past_deadline rf.delay op_to
    then (unexpected (generic timed_out), r)
    else if not (r.faults.up && r.faults.write_ok)
    then (unexpected (craft replica_down), r)
    else do_write r hdr dlsn addr len bytes

-- The detached leg of a write past its deadline, when its own timer has run.
unfoldable pub late_write :
    MemCraftReplica → ClientHdr → Lsn → ℕ → ℕ → Option (List ℕ) → MemCraftReplica
late_write r hdr dlsn addr len bytes =
    if r.faults.up && r.faults.write_ok then (do_write r hdr dlsn addr len bytes).1 else r

unfoldable pub ring_read :
    ReplicaFaults
    → ℕ
    → MemCraftReplica
    → ClientHdr
    → Lsn
    → ℕ
    → ℕ
    → ℕ
    → Result ReadResult × MemCraftReplica
ring_read rf op_to r hdr read_lsn addr len dest_size =
    if not rf.up
    then (unexpected (craft replica_down), r)
    else if past_deadline rf.delay op_to
    then (unexpected (generic timed_out), r)
    else if not r.faults.up
    then (unexpected (craft replica_down), r)
    else do_read r hdr read_lsn addr len dest_size

unfoldable pub ring_keep_alive :
    ReplicaFaults → ℕ → MemCraftReplica → ClientHdr → Result LsnPair × MemCraftReplica
ring_keep_alive rf op_to r hdr =
    if not rf.up
    then (unexpected (craft replica_down), r)
    else if past_deadline rf.delay op_to
    then (unexpected (generic timed_out), r)
    else if not r.faults.up
    then (unexpected (craft replica_down), r)
    else do_keep_alive r hdr

-- The replica has a transport.
unfoldable pub login :
    Between → MemTransport → MemCraftReplica → ℕ → Result LoginResult × MemTransport
login between net r client_token =
    if not r.faults.up
    then (unexpected (craft replica_down), net)
    else run_login between net r client_token

unfoldable pub logout :
    MemTransport → MemCraftReplica → ClientHdr → Result (Unit {0}) × MemTransport
logout net r hdr =
    if not r.faults.up
    then (unexpected (craft replica_down), net)
    else if not (hdr.term == r.term)
    then (unexpected (craft stale_term), net)
    else run_logout net r hdr.term

unfoldable pub request_resolution :
    MemTransport → MemCraftReplica → ClientHdr → Lsn → Result ResolutionResult × MemTransport
request_resolution net r hdr upto =
    if not r.faults.up
    then (unexpected (craft replica_down), net)
    else if not (hdr.term == r.term)
    then (unexpected (craft stale_term), net)
    else run_resolution net r hdr.term upto

-- A verb on a ring and the same verb over the transport's threads give the same result and leave the
-- same state, whatever the knobs at issue and after the wait; so does a write that lands late.
pub ring_verbs :
    (rf : ReplicaFaults) (op_to : ℕ) (r : MemCraftReplica) (hdr : ClientHdr) (d : Lsn)
    (addr len size : ℕ) (bytes : Option (List ℕ))
    → (ring_write rf op_to r hdr d addr len bytes ≡ send_write rf op_to r hdr d addr len bytes)
      × (ring_read rf op_to r hdr d addr len size ≡ send_read rf op_to r hdr d addr len size)
      × (ring_keep_alive rf op_to r hdr ≡ send_keep_alive rf op_to r hdr)
      × (late_write r hdr d addr len bytes ≡ deliver_write r hdr d addr len bytes)
unfolding ring_write ring_read ring_keep_alive late_write send_write send_read send_keep_alive
    deliver_write plan_delivery
ring_verbs rf op_to r hdr d addr len size bytes =
    (ground arith, ground arith, ground arith, ground arith)

-- A logout and a resolution round with another term than the replica's are refused, and nothing in
-- the set changes.
pub cold_path_fence :
    (net : MemTransport) (r : MemCraftReplica) (hdr : ClientHdr) (upto : Lsn)
    → hdr.term ≢ r.term
    → ((logout net r hdr).1 ≡ net)
      × ((logout net r hdr).0 ≢ ok tt)
      × ((request_resolution net r hdr upto).1 ≡ net)
      × ((result : ResolutionResult) → (request_resolution net r hdr upto).0 ≢ ok result)
unfolding logout request_resolution
cold_path_fence net r hdr upto stale = ground arith
