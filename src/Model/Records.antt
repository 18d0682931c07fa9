-- ===== src/Model/Records.antt =====
-- The runner lock, run events and the ledger of recovery commands (src/mergetrain/models.py).
use Prim.Native.Nat.{ℕ}
use Prim.Native.String.{String}
use mathlib.Core.Bool.{Bool}
use mathlib.Core.Option.{Option}
use mergetrain.Model.Statuses.{Stamp}

pub data Liveness : Type 0 where
  alive dead unknown : Liveness

pub record RunnerLock : Type 0 where
  pub owner : String
  pub worktree_path : String
  pub head_sha : String
  pub acquired_at : Stamp
  pub heartbeat_at : Stamp
  pub expires_at : Stamp
  pub token : String

-- The message, which is text for the reader, is not kept.
pub record RunEvent : Type 0 where
  pub id : ℕ
  pub phase : String
  pub state : String
  pub created_at : Stamp
  pub job_id : Option ℕ
  pub detail : String
  pub claim_token : String

pub data Operation : Type 0 where
  tracking reconcile recover : Operation

pub data OperationState : Type 0 where
  started success conflict lock_held remote_unreachable error : OperationState

pub record OperationEvent : Type 0 where
  pub id : ℕ
  pub invocation_id : String
  pub operation : Operation
  pub state : OperationState
  pub applied : Bool
  pub detail : String
  pub created_at : Stamp
