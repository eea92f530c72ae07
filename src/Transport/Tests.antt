-- ===== src/Transport/Tests.antt =====
-- The cold path's theorems at concrete inputs.
use craft_client.Prelude.{
  ℕ, ◌≤◌, ◌≡◌, ◌≢◌, ◌⊎◌, refl, true, false, none, some, List, [], ◌∷◌, map, arith, All,
}
use craft_client.Types.{ClientHdr, craft, internal, replica_down}
use craft_client.Types.Status.{Status, to_wire_status}
use craft_client.Replica.{MemCraftReplica, ReplicaFaults, fresh, tombstone}
use craft_client.Replica.Ops.{append, write_slot, do_write}
use craft_client.Replica.Writes.{stale_term_fence}
use craft_client.Transport.{Between, MemTransport, login_phases, resolve_live}
use craft_client.Transport.Agreement.{slot_of, Settled, resolve_live_reaches}
use craft_client.Transport.Agreement.Decided.{first_held, decided, resolve_live_agrees}
use craft_client.Transport.Login.{LoggedIn, unfenced, login_phases_lem}
use craft_client.Transport.Delivery.{
  send_write, send_read, send_keep_alive, deliver_write, plan_delivery, reachable,
}
use craft_client.Transport.Ring.{ring_write, ring_read, ring_keep_alive, late_write, ring_verbs}
use craft_client.Transport.Rejects.{
  deterministic_reject, over_the_wire, over_the_wire_lem, send_write_rejected,
}

-- Three replicas: one holds data at dLSN 1, one a verdict at 2, one nothing.
abbrev first : MemCraftReplica
first = append (fresh 1 2) 1 (write_slot 2 0 4 2 (some (8 ∷ 9 ∷ [])))

abbrev second : MemCraftReplica
second = append (fresh 2 2) 2 (tombstone 0)

abbrev third : MemCraftReplica
third = fresh 3 2

abbrev three : List MemCraftReplica
three = first ∷ second ∷ third ∷ []

abbrev net : MemTransport
net = record {
  members = 1 ∷ 2 ∷ 3 ∷ [];
  by_id = (1, first) ∷ (2, second) ∷ (3, third) ∷ [];
  leader = 1;
  term = 4;
  lba_size = 2;
  capacity = 64;
  max_tx = 8;
}

abbrev hdr : ClientHdr
hdr = record { term = 0; commit_lsn = 0; all_committed_lsn = 0; client_token = 5 }

abbrev unreachable : ReplicaFaults
unreachable = record { up = false; write_ok = true; delay = 0 }

-- Data beats the holes at 1.
resolve_live_agrees_example :
    All (Settled 1 false) (resolve_live three 2)
    × (map (slot_of 1) (resolve_live three 2)
        ≡ map (decided 1 false (first_held (map (slot_of 1) three))) three)
resolve_live_agrees_example = resolve_live_agrees three 2 1 (omega arith) (omega arith)

resolve_live_reaches_example : All (λ q. 2 ≤ q.commit_lsn) (resolve_live three 2)
resolve_live_reaches_example = resolve_live_reaches three 2

-- A write of the session before, sent again and again while a login goes on: the first ones are
-- accepted at dLSN 9, above the commit point 2.
abbrev late_writes : Between
late_writes k r = (do_write r hdr 9 4 2 none).1

login_phases_example :
    let (phased, rs) = login_phases late_writes three 5 9 in
    All (λ r. r.last_append_lsn ≤ rs) three
    × All (LoggedIn 5 9 rs) phased
    × ((d : ℕ)
        → d ≤ rs
        → map (slot_of d) phased ≡ map (λ r. slot_of d (unfenced late_writes rs r)) three)
login_phases_example =
    login_phases_lem late_writes 5 9
      (λ k r le e. (stale_term_fence r hdr 9 4 2 2 none (omega (arith, e))).0) three

send_write_rejected_example :
    ((send_write unreachable 0 first hdr 2 4 2 none).1 ≡ first)
    × ((reachable unreachable ≡ false) ⊎ ((plan_delivery 0 0).abandoned ≡ false))
unfolding send_write deterministic_reject
send_write_rejected_example =
    send_write_rejected unreachable 0 first hdr 2 4 2 none (craft replica_down) refl refl

over_the_wire_example :
    (to_wire_status (craft internal) ≢ Status.internal
      → over_the_wire (craft internal) ≡ craft internal)
    × (to_wire_status (craft internal) ≡ Status.internal
        → (deterministic_reject (craft internal) ≡ false)
          × (deterministic_reject (over_the_wire (craft internal)) ≡ true))
over_the_wire_example = over_the_wire_lem (craft internal)

abbrev slow : ReplicaFaults
slow = record { up = true; write_ok = true; delay = 30 }

abbrev other_term : ClientHdr
other_term = record { term = 6; commit_lsn = 0; all_committed_lsn = 0; client_token = 5 }

-- A replica that is slow to answer: the delay 6 is past the deadline 4.
abbrev past_due : ReplicaFaults
past_due = record { up = true; write_ok = true; delay = 6 }

ring_verbs_example :
    (ring_write past_due 4 first hdr 2 4 2 none ≡ send_write past_due 4 first hdr 2 4 2 none)
    × (ring_read past_due 4 first hdr 2 4 2 2 ≡ send_read past_due 4 first hdr 2 4 2 2)
    × (ring_keep_alive past_due 4 first hdr ≡ send_keep_alive past_due 4 first hdr)
    × (late_write first hdr 2 4 2 none ≡ deliver_write first hdr 2 4 2 none)
ring_verbs_example = ring_verbs past_due 4 first hdr 2 4 2 2 none
