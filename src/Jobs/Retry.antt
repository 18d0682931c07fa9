-- ===== src/Jobs/Retry.antt =====
-- The retry of a blocked or failed job (src/mergetrain/persistence/jobs.py, retry_job).
use mergetrain.Prelude.{
  ℕ, Bool, true, false, not, ◌&&◌, ◌||◌, Option, none, some, String, ltb, if◌then◌else◌, nonempty,
  keep, ◌<>◌, is_some, first, ◌==◌, nat_column, text_column, strip, decimal,
}
use mergetrain.Model.{Job, Approval, status_column, canceled, no_marker, no_deployment, no_approval}
use mergetrain.Store.{
  Store, Env, M, ◌>>=◌, ◌>>◌, return, reads, require, immediate, queue_error, insert_job,
  update_counted, by_id, get_job, find_job, or_raise, utc_now, has_status,
}
use mergetrain.Jobs.Reads.{active_on, refuse_reconcile_conflict, is_dismissable}
use mergetrain.Jobs.Enqueue.{fresh_job, refuse_duplicate, set_queue_order}

pub record Retry : Type 0 where
  pub base_sha : String
  pub head_sha : String
  pub current_approval_destination_sha : Option String
  pub current_approval_execution_policy_sha : Option String
  pub preserve_order : Bool
  pub branch : Option String
  pub worktree_path : Option String
  pub renew_auto : Bool
  pub force : Bool

-- Python's truth value of an optional string.
abbrev pub given : Option String → Bool
given none = false
given (some text) = nonempty text

abbrev matches : String → Option String → Bool
matches recorded none = false
matches recorded (some current) = recorded == current

abbrev pub replacement_branch : Retry → Job → String
replacement_branch r original = elim r.branch [ none ↦ original.branch | some b ↦ strip b ]

abbrev pub replacement_worktree : Retry → Job → String
replacement_worktree r original = keep r.worktree_path original.worktree_path

abbrev pub approval_matches : Retry → Job → Bool
approval_matches r original =
    nonempty original.approval_destination_sha
    && nonempty original.approval_execution_policy_sha
    && matches original.approval_destination_sha r.current_approval_destination_sha
    && matches original.approval_execution_policy_sha r.current_approval_execution_policy_sha

abbrev pub inherits_auto : Retry → Job → Bool
inherits_auto r original =
    original.auto_deploy
    && approval_matches r original
    && replacement_branch r original == original.branch

abbrev pub retried_approval : Retry → Job → Approval
retried_approval r original =
    if inherits_auto r original || r.renew_auto
    then record {
      auto_deploy = true;
      approval_destination_sha = keep r.current_approval_destination_sha "";
      approval_execution_policy_sha = keep r.current_approval_execution_policy_sha "";
    }
    else no_approval

abbrev pub retried_job : Env → Retry → Job → ℕ → Job
retried_job env r original k = record (fresh_job env k) {
  task = original.task;
  branch = replacement_branch r original;
  worktree_path = replacement_worktree r original;
  base_sha = r.base_sha;
  head_sha = r.head_sha;
  note = original.note;
  approval = retried_approval r original;
}

abbrev pub dismissed : Env → ℕ → Job → Job
dismissed env replacement j = record j {
  status = canceled;
  finished_at = utc_now env;
  note = "retried as job " <> decimal replacement;
  claim_token = "";
  cancel_requested_at = none;
  marker = no_marker;
  conflict_with = "";
  deployment = no_deployment;
}

abbrev id_of : Option Job → Option ℕ
id_of none = none
id_of (some j) = some j.id

unfoldable pub other_active_id : String → ℕ → Store → Option ℕ
other_active_id branch k s = id_of (first (λ j. active_on branch j && not (j.id == k)) s.jobs)

unfoldable pub retry_in_transaction : Env → ℕ → Retry → M ℕ
retry_in_transaction env k r = do
  found ← reads (find_job k)
  original ← or_raise queue_error found
  require (is_dismissable original) queue_error
  refuse_reconcile_conflict original r.force
  require
      (nonempty (replacement_branch r original)
        && not (is_some r.branch && not (nonempty (replacement_worktree r original))))
      queue_error
  require
      (not r.renew_auto
        || (given r.current_approval_destination_sha
            && given r.current_approval_execution_policy_sha))
      queue_error
  other ← reads (other_active_id (replacement_branch r original) original.id)
  refuse_duplicate other
  replacement ← insert_job (retried_job env r original)
  set_queue_order replacement (
      if r.preserve_order
      then (if ltb 0 original.queue_order then original.queue_order else original.id)
      else replacement)
  changed ←
      update_counted (λ j. by_id k j && has_status original.status j) (dismissed env replacement)
  require (changed == 1) queue_error
  return replacement

unfoldable pub retry_job : Env → ℕ → Retry → M (Job × Job)
retry_job env k r = do
  replacement ← immediate env (retry_in_transaction env k r)
  original ← get_job k
  fresh ← get_job replacement
  return (original, fresh)
