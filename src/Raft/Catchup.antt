-- ===== src/Raft/Catchup.antt =====
-- Filling the holes below a watermark (src/raft/raft_replica.cpp): what is missing, the leader's
-- verdicts on it from the peers' answers, and the followers' catch-up on a committed
-- SyncRSCommitLSN. A peer is known by its id; `fetch` is the blocking call of its client's
-- `fetch_data`, with `none` for an error.
use craft_client.Prelude.{
  ℕ, zero, suc, ◌+◌, ◌-◌, ◌/◌, Bool, true, false, not, Option, none, some, List, [], ◌∷◌, ◌++◌,
  ◌==◌, leb, if◌then◌else◌, length, min,
}
use craft_client.Prelude.OrderedMap.{OrderedMap, beyond}
use craft_client.Prelude.Results.{unexpected}
use craft_client.Types.{Lsn, no_lsn, Result, craft, internal}
use craft_client.Replica.{MemCraftReplica, MemJournalSlot}
use craft_client.Replica.Apply.{apply_up_to}
use craft_client.Replica.Ops.{cold_install_slot, cold_mark_empty}
use craft_client.PeerCodec.{JournalSlot}
use craft_client.Raft.Message.{SyncRsCommitLsnMsg}

abbrev pub Fetch : Type 0
Fetch = ℕ → List Lsn → Option (List JournalSlot)

abbrev pub take_payload : List (List ℕ) → List ℕ
take_payload [] = []
take_payload (iov ∷ iovs) = iov ++ take_payload iovs

-- `j.data.size > 0`; a slot that comes from a peer's answer owns no buffer of its own.
abbrev pub payload_of : List (List ℕ) → Option (List ℕ)
payload_of iovs = let bytes = take_payload iovs in if length bytes == 0 then none else some bytes

unfoldable pub to_mem_journal_slot : JournalSlot → ℕ → MemJournalSlot
to_mem_journal_slot j term = record {
  term = term;
  lba = j.lba;
  len = j.len;
  all_zeros = j.all_zeros;
  is_empty = j.is_empty;
  bytes = payload_of j.iovs;
}

-- `for (; expect < bound; ++expect) missing.push_back(expect)`, with bound - expect rounds left.
unfoldable pub push_run : ℕ → Lsn → List Lsn
push_run zero expect = []
push_run (suc n) expect = expect ∷ push_run n (expect + 1)

-- The loop over the entries from `lower_bound` on, with the trailing gap at its end.
unfoldable pub missing_from : Lsn → OrderedMap MemJournalSlot → Lsn → List Lsn
missing_from expect [] watermark = push_run (watermark + 1 - expect) expect
missing_from expect ((d, s) ∷ m) watermark =
    let rest = missing_from (d + 1) m watermark in
    if leb d watermark
    then push_run (d - expect) expect ++ rest
    else push_run (watermark + 1 - expect) expect

unfoldable pub get_missing_slots : MemCraftReplica → Lsn → List Lsn
get_missing_slots r watermark =
    missing_from (r.commit_lsn + 1) (beyond r.commit_lsn r.journal) watermark

-- `std::ranges::find_if(resp, [&](auto const& s) { return s.lsn == lsn; })`.
abbrev pub find_slot : Lsn → List JournalSlot → Option JournalSlot
find_slot d [] = none
find_slot d (s ∷ slots) = let rest = find_slot d slots in if s.lsn == d then some s else rest

-- Every answer but those of this replica, and none of an unreachable peer.
abbrev pub answer : Option (List JournalSlot) → List (List JournalSlot) → List (List JournalSlot)
answer none rest = rest
answer (some r) rest = r ∷ rest

unfoldable pub collect : Fetch → ℕ → List ℕ → List Lsn → List (List JournalSlot)
collect fetch self [] lsns = []
collect fetch self (p ∷ peers) lsns =
    let rest = collect fetch self peers lsns in
    if p == self then rest else answer (fetch p lsns) rest

pub record Judged : Type 0 where
  pub lacks_count : ℕ
  pub is_data : Bool
  pub judged : MemCraftReplica

-- The loop over the answers, which ends at the first that holds data; that data is installed.
unfoldable pub judge : ℕ → Lsn → List (List JournalSlot) → ℕ → MemCraftReplica → Judged
judge term d [] lacks r = record { lacks_count = lacks; is_data = false; judged = r }
judge term d (resp ∷ resps) lacks r = elim (find_slot d resp) [
  | none ↦ judge term d resps (lacks + 1) r
  | some s ↦
      let next = judge term d resps (lacks + 1) r in
      if s.is_empty then next else record {
        lacks_count = lacks;
        is_data = true;
        judged = cold_install_slot r d (to_mem_journal_slot s term);
      }
]

pub record Fate : Type 0 where
  pub empties : List Lsn
  pub stalled_lsn : Lsn
  pub replica : MemCraftReplica

abbrev pub stall_at : Lsn → Lsn → Lsn
stall_at d stalled = if stalled == no_lsn then d else min d stalled

-- The fate of one lsn, by the quorum of the members.
unfoldable pub decide_lsn : ℕ → ℕ → List (List JournalSlot) → Lsn → Fate → Fate
decide_lsn members term resps d f =
    let j = judge term d resps 1 f.replica in
    if leb (members / 2 + 1) j.lacks_count
    then record { empties = f.empties ++ d ∷ []; stalled_lsn = f.stalled_lsn; replica = j.judged }
    else if not j.is_data
    then record { empties = f.empties; stalled_lsn = stall_at d f.stalled_lsn; replica = j.judged }
    else record { empties = f.empties; stalled_lsn = f.stalled_lsn; replica = j.judged }

unfoldable pub decide_all : ℕ → ℕ → List (List JournalSlot) → List Lsn → Fate → Fate
decide_all members term resps [] f = f
decide_all members term resps (d ∷ ds) f =
    decide_all members term resps ds (decide_lsn members term resps d f)

-- With nothing missing no peer is asked, and the code's return is that of the loop over no lsn.
unfoldable pub resolve_and_apply : Fetch → List ℕ → MemCraftReplica → Lsn → ℕ → Fate
resolve_and_apply fetch peers r watermark term =
    let missing = get_missing_slots r watermark in
    let start : Fate = record { empties = []; stalled_lsn = no_lsn; replica = r } in
    if length missing == 0
    then start
    else decide_all (length peers) term (collect fetch r.id peers missing) missing start

-- `propose` is the Raft service's; its commit comes later, as a step of its own.
unfoldable pub sync_rs_commit_lsn :
    Fetch
    → (SyncRsCommitLsnMsg → Result (Unit {0}))
    → List ℕ
    → MemCraftReplica
    → Lsn
    → ℕ
    → ℕ
    → Result (Unit {0}) × MemCraftReplica
sync_rs_commit_lsn fetch propose peers r rs_commit_lsn client_token term =
    let f = resolve_and_apply fetch peers r rs_commit_lsn term in
    let m : SyncRsCommitLsnMsg = record {
      rs_commit_lsn = rs_commit_lsn;
      client_token = client_token;
      empty_slots = f.empties;
    } in
    if not (f.stalled_lsn == no_lsn)
    then (unexpected (craft internal), f.replica)
    else (propose m, f.replica)

abbrev pub mark_all : List Lsn → MemCraftReplica → MemCraftReplica
mark_all [] r = r
mark_all (d ∷ ds) r = mark_all ds (cold_mark_empty r d)

-- `std::erase_if`: each lsn that the answer has goes into the journal and leaves the list.
unfoldable pub take_answer :
    ℕ → List JournalSlot → List Lsn → MemCraftReplica → List Lsn × MemCraftReplica
take_answer term slots [] r = ([], r)
take_answer term slots (d ∷ ds) r = elim (find_slot d slots) [
  | none ↦ let (left, q) = take_answer term slots ds r in (d ∷ left, q)
  | some s ↦
      let filled =
        if s.is_empty
        then cold_mark_empty r d
        else cold_install_slot r d (to_mem_journal_slot s term) in
      take_answer term slots ds filled
]

-- The peers in turn, until nothing is missing; one that cannot be reached is passed over.
unfoldable pub ask_peers :
    Fetch → ℕ → List ℕ → List Lsn → MemCraftReplica → List Lsn × MemCraftReplica
ask_peers fetch term [] missing r = (missing, r)
ask_peers fetch term (p ∷ peers) missing r =
    let skipped = ask_peers fetch term peers missing r in
    let asked : List Lsn × MemCraftReplica = elim (fetch p missing) [
      | none ↦ skipped
      | some slots ↦
          let (left, q) = take_answer term slots missing r in ask_peers fetch term peers left q
    ] in
    if length missing == 0 then (missing, r) else if p == r.id then skipped else asked

-- The replica after the commit of a SyncRSCommitLSN.
unfoldable pub apply_sync : Fetch → List ℕ → SyncRsCommitLsnMsg → MemCraftReplica → MemCraftReplica
apply_sync fetch peers m r =
    let marked = mark_all m.empty_slots r in
    let missing = get_missing_slots marked m.rs_commit_lsn in
    apply_up_to (ask_peers fetch marked.term peers missing marked).1 m.rs_commit_lsn
