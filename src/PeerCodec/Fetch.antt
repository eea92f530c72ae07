-- ===== src/PeerCodec/Fetch.antt =====
-- The slots that a replica hands to a peer (`MemCraftReplica::do_fetch` in src/mem/replica.cpp).
use craft_client.Prelude.{ℕ, not, ◌&&◌, Option, none, some, List, [], ◌∷◌, if◌then◌else◌}
use craft_client.Prelude.OrderedMap.{find}
use craft_client.Types.{Lsn}
use craft_client.Replica.{MemCraftReplica, MemJournalSlot}
use craft_client.PeerCodec.{JournalSlot}

abbrev pub iovs_of : Option (List ℕ) → List (List ℕ)
iovs_of none = []
iovs_of (some bytes) = bytes ∷ []

-- A buffer goes along only where the slot holds data.
abbrev pub to_peer : Lsn → MemJournalSlot → JournalSlot
to_peer lsn s = record {
  lsn = lsn;
  is_empty = s.is_empty;
  all_zeros = s.all_zeros;
  lba = s.lba;
  len = s.len;
  iovs = if not s.all_zeros && not s.is_empty then iovs_of s.bytes else [];
}

unfoldable pub do_fetch : MemCraftReplica → List Lsn → List JournalSlot
do_fetch r [] = []
do_fetch r (lsn ∷ lsns) = elim (find lsn r.journal) [
  | none ↦ do_fetch r lsns
  | some s ↦ to_peer lsn s ∷ do_fetch r lsns
]
