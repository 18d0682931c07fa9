-- ===== src/Jobs/Enqueue.antt =====
-- Submission of a job (src/mergetrain/persistence/jobs.py, enqueue_job).
pub mod Unique
use mergetrain.Prelude.{
  ℕ, suc, ◌+◌, ◌≡◌, Bool, true, false, not, ◌&&◌, ◌||◌, Option, none, some, List, [], ◌∷◌, String,
  ltb, leb, if◌then◌else◌, nonempty, keep, keep_text, ◌<>◌, is_some, select, first, count_where,
  exists_where, update_where, map, ◌==◌, nat_column, text_column, strip, one_line, decimal,
  comma_join, length, take, reverse, elem,
}
use mergetrain.Model.{
  Job, Approval, Stamp, Status, PushStatus, VerifyStatus, queued, no_approval, no_validation,
  no_marker, no_deployment,
}
use mergetrain.Store.{
  Store, Env, M, ◌>>=◌, ◌>>◌, return, reads, require, modify, raise, immediate, queue_error,
  duplicate_active_branch, insert_job, update_jobs, by_id, get_job, utc_now, Outcome, ok, err,
}
use mergetrain.Jobs.Reads.{active_branch_job_id}

pub record Submission : Type 0 where
  pub task : String
  pub branch : String
  pub worktree_path : String
  pub base_sha : String
  pub head_sha : String
  pub note : String
  pub allow_duplicate : Bool
  pub approval : Approval

-- A row as the INSERT of a submission leaves it, every other column at its DEFAULT.
abbrev pub fresh_job : Env → ℕ → Job
fresh_job env k = record {
  id = k;
  task = "";
  branch = "";
  worktree_path = "";
  status = queued;
  base_sha = "";
  head_sha = "";
  deploy_sha = "";
  requested_at = utc_now env;
  started_at = none;
  finished_at = none;
  log_path = "";
  note = "";
  push_status = PushStatus.not_run;
  verify_status = VerifyStatus.not_run;
  approval = no_approval;
  validation = no_validation;
  claim_token = "";
  cancel_requested_at = none;
  marker = no_marker;
  conflict_with = "";
  deployment = no_deployment;
  supersession_id = "";
  supersedes_train_id = "";
  queue_order = 0;
}

-- The approval is recorded only with `auto_deploy`.
abbrev pub approved : Approval → Approval
approved a = if a.auto_deploy then a else no_approval

abbrev pub submitted_job : Env → Submission → ℕ → Job
submitted_job env sub k = record (fresh_job env k) {
  task = one_line sub.task;
  branch = strip sub.branch;
  worktree_path = sub.worktree_path;
  base_sha = sub.base_sha;
  head_sha = sub.head_sha;
  note = sub.note;
  approval = approved sub.approval;
}

-- `raise DuplicateActiveBranch` with the job that is in the way
abbrev pub refuse_duplicate : Option ℕ → M (Unit {0})
refuse_duplicate none = return tt
refuse_duplicate (some other) = raise (duplicate_active_branch other)

-- UPDATE deploy_queue SET queue_order = id WHERE id = ?
abbrev pub set_queue_order : ℕ → ℕ → M (Unit {0})
set_queue_order k order = modify (update_jobs (by_id k) (λ j. record j { queue_order = order }))

pub insert_submission : Env → Submission → M ℕ
insert_submission env sub = do
  existing ←
      reads (λ s. if sub.allow_duplicate then none else active_branch_job_id (strip sub.branch) s)
  refuse_duplicate existing
  k ← insert_job (submitted_job env sub)
  set_queue_order k k
  return k

unfoldable pub enqueue_job : Env → Submission → M Job
enqueue_job env sub = do
  require (nonempty (one_line sub.task)) queue_error
  require (nonempty (strip sub.branch)) queue_error
  k ← immediate env (insert_submission env sub)
  get_job k
