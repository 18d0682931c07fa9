-- ===== src/Model/Row.antt =====
-- A row of `deploy_queue` (src/mergetrain/models.py, class Job). Columns that are written together
-- are records of their own.
use Prim.Native.Nat.{ℕ}
use Prim.Native.String.{String}
use mathlib.Core.Bool.{Bool, false, ◌&&◌}
use mathlib.Core.Option.{none}
use mergetrain.Prelude.{◌==◌, nonempty}
use mergetrain.Model.Statuses.{Status, PushStatus, VerifyStatus, Stamp, status_column, blocked}

-- The recorded approval of an unattended deploy.
pub record Approval : Type 0 where
  pub auto_deploy : Bool
  pub approval_destination_sha : String
  pub approval_execution_policy_sha : String

-- The train that a job was validated in.
pub record Validation : Type 0 where
  pub train_id : String
  pub train_size : ℕ
  pub validated_at : Stamp
  pub validation_base_sha : String
  pub validation_sha : String
  pub validated_head_sha : String
  pub validation_tree_sha : String
  pub validation_gate_policy_sha : String
  pub validation_environment_sha : String
  pub validation_train_sha : String
  pub reused_validation_sha : String

-- The pending-push marker: the push that may have landed.
pub record Marker : Type 0 where
  pub pending_deploy_sha : String
  pub pending_deploy_remote : String
  pub pending_deploy_refs : String
  pub pending_deploy_destination_sha : String

-- The deployment that a pending push belongs to.
pub record Deployment : Type 0 where
  pub deployment_id : String
  pub deployment_destination_sha : String
  pub verification_policy_sha : String

pub record Job : Type 0 where
  pub id : ℕ
  pub task : String
  pub branch : String
  pub worktree_path : String
  pub status : Status
  pub base_sha : String
  pub head_sha : String
  pub deploy_sha : String
  pub requested_at : Stamp
  pub started_at : Stamp
  pub finished_at : Stamp
  pub log_path : String
  pub note : String
  pub push_status : PushStatus
  pub verify_status : VerifyStatus
  pub approval : Approval
  pub open approval use *
  pub validation : Validation
  pub open validation use *
  pub claim_token : String
  pub cancel_requested_at : Stamp
  pub marker : Marker
  pub open marker use *
  pub conflict_with : String
  pub deployment : Deployment
  pub open deployment use *
  pub supersession_id : String
  pub supersedes_train_id : String
  pub queue_order : ℕ

abbrev pub no_approval : Approval
no_approval = record {
  auto_deploy = false;
  approval_destination_sha = "";
  approval_execution_policy_sha = "";
}

abbrev pub no_validation : Validation
no_validation = record {
  train_id = "";
  train_size = 0;
  validated_at = none;
  validation_base_sha = "";
  validation_sha = "";
  validated_head_sha = "";
  validation_tree_sha = "";
  validation_gate_policy_sha = "";
  validation_environment_sha = "";
  validation_train_sha = "";
  reused_validation_sha = "";
}

abbrev pub no_marker : Marker
no_marker = record {
  pending_deploy_sha = "";
  pending_deploy_remote = "";
  pending_deploy_refs = "";
  pending_deploy_destination_sha = "";
}

abbrev pub no_deployment : Deployment
no_deployment = record {
  deployment_id = "";
  deployment_destination_sha = "";
  verification_policy_sha = "";
}

-- `pending_deploy_sha != ''`
abbrev pub has_marker : Job → Bool
has_marker j = nonempty j.pending_deploy_sha

-- A blocked job that kept its push marker: its push may have landed.
unfoldable pub is_reconcile_conflict : Job → Bool
is_reconcile_conflict j = j.status == blocked && has_marker j
