-- ===== src/Types.antt =====
-- The domain vocabulary (include/craft/types.hpp) and the wire status bridge
-- (include/craft/status.hpp).
-- An lsn is one more than the code's `int64_t`: 0 stands for -1, and 1 for the first dLSN, 0.
-- Order, maximum, minimum and `+ 1` are those of the code.
pub mod Status
use craft_client.Prelude.{ℕ, Bool, List}
use craft_client.Prelude.Results.{Expected}

abbrev pub Lsn : Type 0
Lsn = ℕ

-- The code's -1.
abbrev pub no_lsn : Lsn
no_lsn = 0

pub record LsnPair : Type 0 where
  pub commit_lsn : Lsn
  pub last_append_lsn : Lsn

pub record ClientHdr : Type 0 where
  pub term : ℕ
  pub commit_lsn : Lsn
  pub all_committed_lsn : Lsn
  pub client_token : ℕ

pub record IoExtent : Type 0 where
  pub addr : ℕ
  pub len : ℕ
  pub hole : Bool

-- `data` is what the read wrote into the caller's buffer, in order.
pub record ReadResult : Type 0 where
  pub extents : List IoExtent
  pub lsns : LsnPair
  pub filled : List ℕ

pub record ResolutionResult : Type 0 where
  pub resolved_upto : Lsn
  pub empty_slots : List Lsn

pub record LoginResult : Type 0 where
  pub members : List ℕ
  pub dlsn : Lsn
  pub term : ℕ
  pub lba_size : ℕ
  pub capacity : ℕ
  pub leader_hint : ℕ
  pub max_tx : ℕ

pub data CraftError : Type 0 where
  stale_term not_leader no_quorum wrong_token not_eligible replica_down internal : CraftError
  not_implemented : CraftError

-- `std::errc`; `errno` is any of the others, by its number.
pub data Errc : Type 0 where
  invalid_argument timed_out not_connected : Errc
  errno : ℕ → Errc

pub data ErrorCondition : Type 0 where
  craft : CraftError → ErrorCondition
  generic : Errc → ErrorCondition

abbrev pub Result : Type 0 → Type 0
Result A = Expected ErrorCondition A
