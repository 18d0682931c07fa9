-- ===== src/Jobs/Reads.antt =====
-- Reads of the queue (src/mergetrain/persistence/jobs.py), and the order of ordered processing.
pub mod Ordered
use mergetrain.Prelude.{
  ℕ, Bool, not, ◌&&◌, ◌||◌, Option, none, some, List, [], ◌∷◌, String, ltb, if◌then◌else◌, nonempty,
  select, first, count_where, exists_where, ◌==◌, nat_column, text_column, take, reverse,
}
use mergetrain.Model.{
  Job, Status, status_column, VerifyStatus, verify_column, is_active, is_terminal,
  is_reconcile_conflict, queued, in_progress, blocked, failed, validated, needs_reconcile, deployed,
  canceled, has_marker,
}
use mergetrain.Store.{Store, M, require, queue_error, has_status}

-- status IN ACTIVE_STATUSES, on one branch
abbrev pub active_on : String → Job → Bool
active_on branch j = j.branch == branch && is_active j.status

-- jobs._active_branch_job_id
abbrev id_of : Option Job → Option ℕ
id_of none = none
id_of (some j) = some j.id

unfoldable pub active_branch_job_id : String → Store → Option ℕ
active_branch_job_id branch s = id_of (first (active_on branch) s.jobs)

-- jobs.refuse_reconcile_conflict
unfoldable pub refuse_reconcile_conflict : Job → Bool → M (Unit {0})
refuse_reconcile_conflict j force = require (force || not (is_reconcile_conflict j)) queue_error

unfoldable pub list_jobs : ℕ → Store → List Job
list_jobs limit s = take limit (reverse s.jobs)

abbrev pub needs_verify : Job → Bool
needs_verify j =
    j.status == deployed
    && (j.verify_status == VerifyStatus.unknown || j.verify_status == VerifyStatus.failed)

abbrev pub needs_attention : Job → Bool
needs_attention j = is_active j.status || needs_verify j

unfoldable pub list_attention_jobs : Store → List Job
list_attention_jobs s = reverse (select needs_attention s.jobs)

abbrev pub is_dismissable : Job → Bool
is_dismissable j = j.status == blocked || j.status == failed

unfoldable pub list_dismissable_jobs : Store → List Job
list_dismissable_jobs s = select is_dismissable s.jobs

unfoldable pub list_unresolved_verify_jobs : Store → List Job
list_unresolved_verify_jobs s = select needs_verify s.jobs

unfoldable pub list_train_jobs : String → Store → List Job
list_train_jobs train_id s =
    if nonempty train_id then select (λ j. j.train_id == train_id) s.jobs else []

unfoldable pub list_jobs_fifo : Status → Store → List Job
list_jobs_fifo status s = select (has_status status) s.jobs

-- The place of a job: its `queue_order`, or its id where it has none.
abbrev pub position : Job → ℕ
position j = if ltb 0 j.queue_order then j.queue_order else j.id

-- ORDER BY position, id: whether `j` comes before `k`
abbrev pub comes_before : Job → Job → Bool
comes_before j k = ltb (position j) (position k) || (position j == position k && ltb j.id k.id)

unfoldable pub earliest : Option Job → List Job → Option Job
earliest best [] = best
earliest none (j ∷ js) = earliest (if is_active j.status then some j else none) js
earliest (some b) (j ∷ js) =
    earliest (some (if is_active j.status && comes_before j b then j else b)) js

-- jobs.ordered_head
unfoldable pub ordered_head : Store → Option Job
unfolding earliest
ordered_head s = earliest none s.jobs

pub record Counts : Type 0 where
  pub queued_jobs : ℕ
  pub in_progress_jobs : ℕ
  pub blocked_jobs : ℕ
  pub failed_jobs : ℕ
  pub validated_jobs : ℕ
  pub needs_reconcile_jobs : ℕ
  pub deployed_jobs : ℕ
  pub canceled_jobs : ℕ
  pub auto_queued : ℕ
  pub manual_queued : ℕ
  pub in_progress_with_marker : ℕ
  pub blocked_with_marker : ℕ
  pub deployed_verify_unknown : ℕ
  pub deployed_verify_failed : ℕ

unfoldable pub counts : Store → Counts
counts s = record {
  queued_jobs = count_where (has_status queued) s.jobs;
  in_progress_jobs = count_where (has_status in_progress) s.jobs;
  blocked_jobs = count_where (has_status blocked) s.jobs;
  failed_jobs = count_where (has_status failed) s.jobs;
  validated_jobs = count_where (has_status validated) s.jobs;
  needs_reconcile_jobs = count_where (has_status needs_reconcile) s.jobs;
  deployed_jobs = count_where (has_status deployed) s.jobs;
  canceled_jobs = count_where (has_status canceled) s.jobs;
  auto_queued = count_where (λ j. has_status queued j && j.auto_deploy) s.jobs;
  manual_queued = count_where (λ j. has_status queued j && not j.auto_deploy) s.jobs;
  in_progress_with_marker = count_where (λ j. has_status in_progress j && has_marker j) s.jobs;
  blocked_with_marker = count_where (λ j. has_status blocked j && has_marker j) s.jobs;
  deployed_verify_unknown =
      count_where (λ j. has_status deployed j && j.verify_status == VerifyStatus.unknown) s.jobs;
  deployed_verify_failed =
      count_where (λ j. has_status deployed j && j.verify_status == VerifyStatus.failed) s.jobs;
}

unfoldable pub has_queued_auto : Store → Bool
has_queued_auto s = exists_where (λ j. has_status queued j && j.auto_deploy) s.jobs

unfoldable pub has_queued_manual : Store → Bool
has_queued_manual s = exists_where (λ j. has_status queued j && not j.auto_deploy) s.jobs

-- jobs.terminal_branch_candidates: the last terminal job of each branch that has no active job.
abbrev pub terminal_on : String → Job → Bool
terminal_on branch j = j.branch == branch && is_terminal j.status

abbrev pub is_candidate : List Job → Job → Bool
is_candidate js j =
    is_terminal j.status
    && not (exists_where (λ k. terminal_on j.branch k && ltb j.id k.id) js)
    && not (exists_where (active_on j.branch) js)

unfoldable pub terminal_branch_candidates : Store → List Job
terminal_branch_candidates s = select (is_candidate s.jobs) s.jobs
