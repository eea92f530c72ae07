-- ===== src/Server/Tests.antt =====
-- The body of a read reply at a concrete read: block 1 of a replica of two-byte blocks was written.
use craft_client.Prelude.{◌≤◌, ◌≡◌, refl, some, [], ◌∷◌, length, arith}
use craft_client.Prelude.Results.{ok, unexpected}
use craft_client.Types.{ClientHdr, ReadResult, Result}
use craft_client.Wire.Body.{framed_body_max}
use craft_client.Replica.{MemCraftReplica, fresh}
use craft_client.Replica.Apply.{apply_up_to}
use craft_client.Replica.Ops.{append, write_slot}
use craft_client.Replica.Read.{do_read}
use craft_client.Server.{read_reply_body, read_reply_body_bound}

abbrev holder : MemCraftReplica
holder = append (fresh 1 2) 1 (write_slot 2 0 2 2 (some (8 ∷ 9 ∷ [])))

abbrev hdr : ClientHdr
hdr = record { term = 0; commit_lsn = 0; all_committed_lsn = 0; client_token = 5 }

abbrev answer_of : Result ReadResult → ReadResult
answer_of (ok r) = r
answer_of (unexpected e) = record {
  extents = [];
  lsns = record { commit_lsn = 0; last_append_lsn = 0 };
  filled = [];
}

abbrev answer : ReadResult
answer = answer_of (do_read holder hdr 1 0 6 6).0

served : (do_read holder hdr 1 0 6 6).0 ≡ ok answer
unfolding do_read apply_up_to
served = refl

read_reply_body_example : length (read_reply_body 0 answer) ≤ framed_body_max 6 2
read_reply_body_example =
    read_reply_body_bound holder hdr 1 0 6 6 answer (omega arith) (omega arith) (omega arith) served
