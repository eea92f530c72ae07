-- ===== src/Replica.antt =====
-- One in-memory replica (src/mem/replica.hpp, src/mem/replica.cpp): the journal, the applied index
-- and the watermarks. The per-replica mutex makes each operation one step on this state.
pub mod Apply
pub mod Ops
pub mod Read
pub mod Resolve
mod Tests
pub mod Writes
pub mod Faults
pub mod Reach
pub mod Forward
pub mod Stats
use craft_client.Prelude.{ℕ, Bool, true, false, List, [], Option}
use craft_client.Prelude.OrderedMap.{OrderedMap}
use craft_client.Types.{Lsn, no_lsn}

pub record CraftPartitionState : Type 0 where
  pub commit_lsn : Lsn
  pub last_append_lsn : Lsn
  pub client_token : ℕ
  pub term : ℕ

-- `bytes` is `none` for the null pointer. A buffer is immutable once a slot holds it.
pub record MemJournalSlot : Type 0 where
  pub term : ℕ
  pub lba : ℕ
  pub len : ℕ
  pub all_zeros : Bool
  pub is_empty : Bool
  pub bytes : Option (List ℕ)

pub record IndexCell : Type 0 where
  pub dlsn : Lsn
  pub buf : Option (List ℕ)
  pub off : ℕ

-- The latency in milliseconds.
pub record ReplicaFaults : Type 0 where
  pub up : Bool
  pub write_ok : Bool
  pub delay : ℕ

pub record MemCraftReplica : Type 0 where
  pub id : ℕ
  pub page_size : ℕ
  pub state : CraftPartitionState
  pub open state use *
  pub journal : OrderedMap MemJournalSlot
  pub index : OrderedMap IndexCell
  pub reads_served : ℕ
  pub keepalives_served : ℕ
  pub faults : ReplicaFaults

abbrev pub healthy : ReplicaFaults
healthy = record { up = true; write_ok = true; delay = 0 }

abbrev pub fresh : ℕ → ℕ → MemCraftReplica
fresh id page_size = record {
  id = id;
  page_size = page_size;
  state = record { commit_lsn = no_lsn; last_append_lsn = no_lsn; client_token = 0; term = 0 };
  journal = [];
  index = [];
  reads_served = 0;
  keepalives_served = 0;
  faults = healthy;
}

abbrev pub with_commit : MemCraftReplica → Lsn → MemCraftReplica
with_commit r d = record r { state = record (r.state) { commit_lsn = d } }

abbrev pub with_append : MemCraftReplica → Lsn → MemCraftReplica
with_append r d = record r { state = record (r.state) { last_append_lsn = d } }

-- A null slot of the current term with the Empty verdict.
abbrev pub tombstone : ℕ → MemJournalSlot
tombstone term = record {
  term = term;
  lba = 0;
  len = 0;
  all_zeros = false;
  is_empty = true;
  bytes = Option.none;
}
