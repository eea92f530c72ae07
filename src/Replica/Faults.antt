-- ===== src/Replica/Faults.antt =====
-- The fault and latency knobs of a replica (src/mem/replica.cpp). A change publishes a new snapshot;
-- one that a request holds is not changed by it.
use craft_client.Prelude.{ℕ, Bool, not}
use craft_client.Replica.{MemCraftReplica, ReplicaFaults, healthy}

abbrev pub mutate_faults : (ReplicaFaults → ReplicaFaults) → MemCraftReplica → MemCraftReplica
mutate_faults f r = record r { faults = f (r.faults) }

unfoldable pub set_up : Bool → MemCraftReplica → MemCraftReplica
set_up up = mutate_faults (λ s. record s { up = up })

-- A delay below zero stands for 0.
unfoldable pub set_delay : ℕ → MemCraftReplica → MemCraftReplica
set_delay d = mutate_faults (λ s. record s { delay = d })

unfoldable pub drop_writes : Bool → MemCraftReplica → MemCraftReplica
drop_writes drop = mutate_faults (λ s. record s { write_ok = not drop })

unfoldable pub clear_faults : MemCraftReplica → MemCraftReplica
clear_faults = mutate_faults (λ s. healthy)
