-- ===== src/Transport.antt =====
-- The leader's cold path over a group of replicas (src/mem/cluster.hpp, src/mem/cluster.cpp): login,
-- the resolution round and logout.
-- The live set is the list of the replicas that its pointers name, in member order; a round changes
-- them together and `store_all` puts them back under their ids. Each operation is one step: what a
-- round reads of a replica is not changed by another request before it ends.
pub mod Delivery
pub mod Agreement
pub mod Login
pub mod Rejects
pub mod Ring
pub mod Faults
mod Tests
use craft_client.Prelude.{
  ℕ, zero, suc, ◌+◌, ◌-◌, ◌/◌, ◌^◌, Bool, true, false, not, Option, none, some, List, [], ◌∷◌, map,
  ◌==◌, ltb, if◌then◌else◌, length, min, max,
}
use craft_client.Prelude.OrderedMap.{OrderedMap, find, assign}
use craft_client.Prelude.Results.{ok, unexpected}
use craft_client.Types.{
  Lsn, no_lsn, LoginResult, ResolutionResult, Result, craft, replica_down, not_leader, no_quorum,
  stale_term,
}
use craft_client.Replica.{MemCraftReplica, MemJournalSlot}
use craft_client.Replica.Ops.{
  peek_lsns, peek_slot, peek_empties, cold_apply_sync, cold_apply_login, cold_apply_logout,
  cold_truncate_above, cold_install_slot, cold_mark_empty,
}

pub record MemTransport : Type 0 where
  pub members : List ℕ
  pub by_id : OrderedMap MemCraftReplica
  pub leader : ℕ
  pub term : ℕ
  pub lba_size : ℕ
  pub capacity : ℕ
  pub max_tx : ℕ

abbrev pub quorum : ℕ → ℕ
quorum n = n / 2 + 1

-- A member without a registered replica, and one that is down, are passed over.
abbrev pub live_from : OrderedMap MemCraftReplica → List ℕ → List MemCraftReplica
live_from by_id [] = []
live_from by_id (i ∷ members) =
    let rest = live_from by_id members in
    elim (find i by_id) [ none ↦ rest | some r ↦ if r.faults.up then r ∷ rest else rest ]

abbrev pub live_replicas : MemTransport → List MemCraftReplica
live_replicas net = live_from net.by_id net.members

abbrev pub store_all :
    List MemCraftReplica → OrderedMap MemCraftReplica → OrderedMap MemCraftReplica
store_all [] m = m
store_all (r ∷ live) m = store_all live (assign r.id r m)

abbrev pub max_append : List MemCraftReplica → Lsn → Lsn
max_append [] rs = rs
max_append (r ∷ live) rs = max_append live (max rs (peek_lsns r).last_append_lsn)

-- What the other requests make of a replica after each of the four visits of a login, which take
-- only its own lock: the peek of phase 1, phase 2, phase 3, and the peek of phase 4.
abbrev pub Between : Type 0
Between = ℕ → MemCraftReplica → MemCraftReplica

abbrev pub truncate_tail : Between → Lsn → MemCraftReplica → MemCraftReplica
truncate_tail between rs r =
    if ltb rs (peek_lsns r).last_append_lsn
    then cold_truncate_above (between 4 r) rs
    else between 4 r

-- The four phases of a login over the live set: the new replicas and `rs_commit_lsn`.
unfoldable pub login_phases : Between → List MemCraftReplica → ℕ → ℕ → List MemCraftReplica × Lsn
login_phases between live client_token nt =
    let rs = max_append live no_lsn in
    let synced = map (λ r. cold_apply_sync (between 1 r) rs) live in
    let logged_in = map (λ r. cold_apply_login (between 2 r) client_token nt) synced in
    (map (λ r. truncate_tail between rs (between 3 r)) logged_in, rs)

unfoldable pub run_login :
    Between → MemTransport → MemCraftReplica → ℕ → Result LoginResult × MemTransport
run_login between net caller client_token =
    let live = live_replicas net in
    if not caller.faults.up
    then (unexpected (craft replica_down), net)
    else if not (caller.id == net.leader)
    then (
      ok (record {
        members = [];
        dlsn = no_lsn;
        term = 0;
        lba_size = 0;
        capacity = 0;
        leader_hint = net.leader;
        max_tx = 0;
      }),
      net,
    )
    else if ltb (length live) (quorum (length net.members))
    then (unexpected (craft no_quorum), net)
    else (let nt = net.term + 1 in
        let (phased, rs) = login_phases between live client_token nt in
        (
          ok (record {
            members = net.members;
            dlsn = rs;
            term = nt;
            lba_size = net.lba_size;
            capacity = net.capacity;
            leader_hint = 0;
            max_tx = net.max_tx;
          }),
          record net { by_id = store_all phased net.by_id; term = nt },
        ))

abbrev pub min_commit : List MemCraftReplica → Lsn → Lsn
min_commit [] floor = floor
min_commit (r ∷ live) floor = min_commit live (min floor (peek_lsns r).commit_lsn)

abbrev pub first_of : Option MemJournalSlot → MemJournalSlot → Option MemJournalSlot
first_of none s = some s
first_of (some c) s = some c

-- One pass over the live set: whether a verdict was met, and the copy that was held by then.
unfoldable pub scan_slots :
    List (Option MemJournalSlot) → Option MemJournalSlot → Bool × Option MemJournalSlot
scan_slots [] copy = (false, copy)
scan_slots (none ∷ slots) copy = scan_slots slots copy
scan_slots (some s ∷ slots) copy =
    if s.is_empty then (true, copy) else scan_slots slots (first_of copy s)

abbrev pub scan_slot : Lsn → List MemCraftReplica → Bool × Option MemJournalSlot
scan_slot d live = scan_slots (map (λ r. peek_slot r d) live) none

abbrev pub fill : Lsn → MemJournalSlot → MemCraftReplica → MemCraftReplica
fill d s r = elim (peek_slot r d) [ none ↦ cold_install_slot r d s | some _ ↦ r ]

-- What the pass decides for each replica.
unfoldable pub settle : Lsn → Bool × Option MemJournalSlot → MemCraftReplica → MemCraftReplica
settle d (true, copy) r = cold_mark_empty r d
settle d (false, none) r = cold_mark_empty r d
settle d (false, some s) r = fill d s r

-- `for (d = floor + 1; d <= upto; ++d)`, with `n` rounds left.
unfoldable pub settle_rounds : ℕ → Lsn → List MemCraftReplica → List MemCraftReplica
settle_rounds zero d live = live
settle_rounds (suc n) d live = settle_rounds n (d + 1) (map (settle d (scan_slot d live)) live)

-- The largest `int64_t`, as an lsn.
abbrev pub lsn_max : Lsn
lsn_max = 2 ^ 63

unfoldable pub resolve_live : List MemCraftReplica → Lsn → List MemCraftReplica
resolve_live live upto =
    let floor = min_commit live lsn_max in
    map (λ r. cold_apply_sync r upto) (settle_rounds (upto - floor) (floor + 1) live)

-- The caller's journal, read again after the round through its pointer.
abbrev pub empties_of : Option MemCraftReplica → Lsn → List Lsn
empties_of none upto = []
empties_of (some r) upto = peek_empties r.journal upto

unfoldable pub run_resolution :
    MemTransport → MemCraftReplica → ℕ → Lsn → Result ResolutionResult × MemTransport
run_resolution net caller term upto =
    let live = live_replicas net in
    if not caller.faults.up
    then (unexpected (craft replica_down), net)
    else if not (caller.id == net.leader)
    then (unexpected (craft not_leader), net)
    else if not (term == net.term)
    then (unexpected (craft stale_term), net)
    else if ltb (length live) (quorum (length net.members))
    then (unexpected (craft no_quorum), net)
    else (let by_id = store_all (resolve_live live upto) net.by_id in
        (
          ok (record {
            resolved_upto = upto;
            empty_slots = empties_of (find caller.id by_id) upto;
          }),
          record net { by_id = by_id },
        ))

unfoldable pub run_logout : MemTransport → MemCraftReplica → ℕ → Result (Unit {0}) × MemTransport
run_logout net caller term =
    if not caller.faults.up
    then (unexpected (craft replica_down), net)
    else if not (caller.id == net.leader)
    then (unexpected (craft not_leader), net)
    else (
      ok tt,
      record net { by_id = store_all (map cold_apply_logout (live_replicas net)) net.by_id },
    )
