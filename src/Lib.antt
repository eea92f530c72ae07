-- ===== src/Lib.antt =====
-- A verification library for craft_client: the client, the wire and the replicas of the CRAFT
-- protocol.
--
-- The program's parts. A client logs in to the leader of a group of replicas, gives each write a
-- dLSN, and sends it to all of them; a replica journals it, and applies the journal in dLSN order
-- to an index up to the commit frontier that the requests carry. A read names a horizon, and sees
-- the writes up to it. The leader's cold path (login, the resolution round, logout) visits the
-- live replicas and fills, or declares Empty, the slots that are missing. The requests cross the
-- wire as framed messages, and a Raft group keeps its log in memory.
--
-- The files.
--   Prelude: Boolean tests, lists, `Expected` (a result or an error), `OrderedMap` (`std::map`).
--   Types: include/craft/types.hpp; Types/Status: include/craft/status.hpp.
--   Wire: include/craft/wire.hpp and src/wire.cpp. Pod and Layout have the packed structs, Ops the
--     tables by op code, Crc the CRC32C, Frame `parse_message` and `frame_message`, Body the
--     variable-length bodies.
--   Replica: src/mem/replica.hpp and src/mem/replica.cpp. Apply has `apply_slot` and `apply_up_to`,
--     Ops the synchronous cores and the hooks of the cold path, Read the read path, Read/Spec the
--     content that a read should see and the validity of a replica's state, Resolve and Writes what
--     a resolution round and a write leave behind, Reach and Forward
--     what a sequence of requests keeps, the truncations included, Faults and Stats the knobs and the statistics.
--   Transport: src/mem/cluster.hpp and src/mem/cluster.cpp. Delivery has the delivery plan and the
--     sends, Agreement the resolution round, Login the login, Rejects what the client's write path
--     in src/client.cpp may conclude from an error.
--     Agreement/Decided has what the live replicas hold after the round.
--     Ring has the verbs of a replica, Faults the forwarders of its knobs.
--   Server: the body of a read reply in src/net/tcp_server.cpp.
--   PeerCodec: include/craft/peer.hpp and src/peer_codec.cpp, and `do_fetch` of src/mem/replica.cpp.
--   ReplicaMgr: src/replica_mgr.hpp and src/replica_mgr.cpp.
--   LogStore: src/raft/in_memory_log_store.hpp and src/raft/in_memory_log_store.cpp.
--   Stream: what the client asks of `sisl::StreamTracker`, as an interface, and a window that meets it.
--     Intervals does the same for `boost::icl::interval_map`.
--   Tracker: src/dlsn_tracker.hpp and src/dlsn_tracker.cpp. Frontier has the validity of the
--     counters, Resolve the resolution of a slot, Retire `retire_upto`; Plan has the plan of a read,
--     with Gaps for the scan of `compute`, Winner and Horizons for `split`, Segments for the
--     segments it cuts, and Reads for the plan as a whole.
--   Route: src/read_route_map.hpp. Hint has the pending misses and the fold, Eligible `eligible`,
--     Synced `advance_synced`.
--   Client: src/client.cpp and src/client_impl.hpp. Session has the login, Outcome the write path,
--     Serve the read path and the keep-alives, Close the resolution leg, the flush and the logout.
--   Raft: src/raft/raft_replica.hpp, src/raft/raft_replica.cpp and src/raft/raft_state_machine.hpp.
--     Message has the logged messages, Catchup the missing slots, the leader's verdicts and the
--     catch-up, Login the login and the commits; Service has src/raft/raft_service.hpp,
--     src/raft/raft_service.cpp and the creation of a volume. Missing, Verdict, Round, Quorum,
--     Caught, Sync, Watermark and Commit have what is proved of them.
--   Watchdog: src/watchdog.hpp and src/watchdog.cpp. Step has the service as a step relation, Count
--     and Valid its validity, Keeps and Fires what every run keeps and when a callback runs.
--
-- The model.
--   An operation is a function from the state and its arguments to the result and the new state;
--   the mutex of a replica makes each operation one step. The cold path does not hold a lock over
--   its visits of the replicas: a login leaves open what other requests make of a replica between
--   its four visits, and a resolution round is modelled as one step.
--   An lsn is a natural number, one more than the code's `int64_t`, whose -1 is 0; values below -1
--   are not modelled, and neither is an lsn at the end of the type's range. A 16-byte id is the
--   number that its bytes spell. A buffer is the list of its bytes, and a pointer to it that may be
--   null is an `Option`; a journal slot shares its buffer with the index, and no one writes it.
--   A read returns the bytes that it put into the caller's buffer. The wrap-around of the struct
--   fields, of the lengths in the codec and of the log's indices is written out; a block address
--   does not wrap.
--   In the client the replies of the replicas are given, and so is the order in which the legs of a
--   write end; a leg of a resolution round is modelled reply by reply.
--   `apply_rounds` is given target - commit rounds, and the theorems on it say that these are
--   enough; the other loops are structural or have their number of rounds from their bounds.
--   In the tracker and the router each atomic operation is one step and a compare-exchange loop succeeds at its
--   first attempt; its scans have as many rounds as the dLSNs they range over, which is enough
--   since each round moves past one.
--   The map from ids to replicas is an `OrderedMap`; the replicas that a round changes are put back
--   under their ids, so that the aliasing through pointers is that of the code as long as the ids
--   of the members differ.
--
--   In the Raft replica the Raft service, the peers' answers and the wait for a commit are given; a
--   JSON object has the keys and the values of the two messages. The poll of a login drops the lock
--   while the watchdog takes its timer, and is one step here.
--   The watchdog's heap is a list in the order of the deadlines; its worker takes two steps a round,
--   one up to the callback and one from it on, with any requests in between.
--
-- What is not modelled: sockets, coroutines, rings and the timers of a replica, the service threads,
-- the TCP server but for the body of a read reply, the TCP client, the wait of a stalled read, the start of the Raft service and the
-- state managers that it hands to NuRaft. NuRaft's log entries are a parameter, and the replica
-- manager's configuration file is given as the members that it holds.
pub mod Prelude
pub mod Types
pub mod Stream
pub mod Tracker
pub mod Route
pub mod Watchdog
pub mod Wire
pub mod Raft
pub mod Replica
pub mod Transport
pub mod Client
pub mod LogStore
pub mod PeerCodec
pub mod ReplicaMgr
pub mod Server
