-- ===== src/Raft/Message.antt =====
-- The payloads of the Raft log (src/raft/raft_state_machine.hpp): each goes into the log as a JSON
-- object and comes out of it at the commit. `nlohmann::json` is third-party: of it the model has the
-- object with its keys, the values that the payloads hold, `at`, which fails on a missing key, and
-- `get_to`, which fails on a value of another type.
use craft_client.Prelude.{ℕ, List, [], ◌∷◌, ◌==◌, if◌then◌else◌}
use craft_client.Prelude.Results.{Expected, ok, unexpected, ◌>>=◌}
use craft_client.Types.{Lsn, no_lsn}

pub data Key : Type 0 where
  op rs_commit_lsn client_token empty_slots term : Key

pub data Json : Type 0 where
  number : ℕ → Json
  lsn : Lsn → Json
  array : List Lsn → Json

-- `nlohmann::json::exception`.
pub data JsonException : Type 0 where
  missing_key wrong_type : JsonException

abbrev pub Object : Type 0
Object = List (Key × Json)

abbrev pub key_code : Key → ℕ
key_code op = 0
key_code rs_commit_lsn = 1
key_code client_token = 2
key_code empty_slots = 3
key_code term = 4

abbrev pub at : Key → Object → Expected JsonException Json
at k [] = unexpected missing_key
at k ((j, v) ∷ o) = let rest = at k o in if key_code j == key_code k then ok v else rest

abbrev pub get_number : Json → Expected JsonException ℕ
get_number (number n) = ok n
get_number _ = unexpected wrong_type

abbrev pub get_lsn : Json → Expected JsonException Lsn
get_lsn (lsn d) = ok d
get_lsn _ = unexpected wrong_type

abbrev pub get_array : Json → Expected JsonException (List Lsn)
get_array (array ds) = ok ds
get_array _ = unexpected wrong_type

pub data Operation : Type 0 where
  sync_rs_commit_lsn internal_login : Operation

abbrev pub operation_code : Operation → ℕ
operation_code sync_rs_commit_lsn = 0
operation_code internal_login = 1

pub record SyncRsCommitLsnMsg : Type 0 where
  pub rs_commit_lsn : Lsn
  pub client_token : ℕ
  pub empty_slots : List Lsn

pub record InternalLoginMsg : Type 0 where
  pub client_token : ℕ
  pub term : ℕ
  pub rs_commit_lsn : Lsn

unfoldable pub sync_to_json : SyncRsCommitLsnMsg → Object
sync_to_json m =
    (op, number (operation_code sync_rs_commit_lsn))
    ∷ (rs_commit_lsn, lsn m.rs_commit_lsn)
    ∷ (client_token, number m.client_token)
    ∷ (empty_slots, array m.empty_slots)
    ∷ []

unfoldable pub sync_from_json : Object → Expected JsonException SyncRsCommitLsnMsg
sync_from_json j = do
  d ← at rs_commit_lsn j >>= get_lsn
  t ← at client_token j >>= get_number
  ds ← at empty_slots j >>= get_array
  ok (record { rs_commit_lsn = d; client_token = t; empty_slots = ds })

unfoldable pub login_to_json : InternalLoginMsg → Object
login_to_json m =
    (op, number (operation_code internal_login))
    ∷ (client_token, number m.client_token)
    ∷ (term, number m.term)
    ∷ []

-- The member that is not read keeps its initial value.
unfoldable pub login_from_json : Object → Expected JsonException InternalLoginMsg
login_from_json j = do
  t ← at client_token j >>= get_number
  e ← at term j >>= get_number
  ok (record { client_token = t; term = e; rs_commit_lsn = no_lsn })
