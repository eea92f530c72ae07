-- ===== src/Types/Status.antt =====
-- The status byte and the error conditions (`to_wire_status`, `status_to_error`).
use craft_client.Types.{CraftError, Errc, ErrorCondition, craft, generic}

pub data Status : Type 0 where
  ok stale_term not_leader no_quorum wrong_token not_eligible replica_down : Status
  invalid_argument internal : Status

unfoldable pub to_wire_status : ErrorCondition → Status
to_wire_status (craft CraftError.stale_term) = Status.stale_term
to_wire_status (craft CraftError.not_leader) = Status.not_leader
to_wire_status (craft CraftError.no_quorum) = Status.no_quorum
to_wire_status (craft CraftError.wrong_token) = Status.wrong_token
to_wire_status (craft CraftError.not_eligible) = Status.not_eligible
to_wire_status (craft CraftError.replica_down) = Status.replica_down
to_wire_status (generic Errc.invalid_argument) = Status.invalid_argument
to_wire_status _ = Status.internal

unfoldable pub status_to_error : Status → ErrorCondition
status_to_error Status.stale_term = craft CraftError.stale_term
status_to_error Status.not_leader = craft CraftError.not_leader
status_to_error Status.no_quorum = craft CraftError.no_quorum
status_to_error Status.wrong_token = craft CraftError.wrong_token
status_to_error Status.not_eligible = craft CraftError.not_eligible
status_to_error Status.replica_down = craft CraftError.replica_down
status_to_error Status.invalid_argument = generic Errc.invalid_argument
status_to_error _ = craft CraftError.replica_down
