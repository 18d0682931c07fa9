-- ===== src/Claims.antt =====
-- Claims of queued jobs and of a validated train (src/mergetrain/persistence/claims.py).
pub mod Guards
pub mod Deploy
pub mod Resolved
use mergetrain.Prelude.{
  ℕ, suc, ◌+◌, ◌≡◌, Bool, true, false, not, ◌&&◌, ◌||◌, Option, none, some, List, [], ◌∷◌, String,
  ltb, leb, if◌then◌else◌, nonempty, keep, keep_text, ◌<>◌, is_some, select, first, count_where,
  exists_where, update_where, map, ◌==◌, nat_column, text_column, strip, one_line, decimal,
  comma_join, length, take, reverse, elem, ◌++◌,
}
use mergetrain.Model.{
  Job, Status, status_column, RunnerLock, queued, in_progress, blocked, validated,
}
use mergetrain.Store.{
  Store, Env, Error, M, ◌>>=◌, ◌>>◌, return, reads, require, modify, raise, immediate, queue_error,
  deploy_plan_changed, update_counted, update_jobs, by_id, get_job, get_jobs, utc_now, has_status,
  record_run_event, Outcome, ok, err,
}
use mergetrain.Leases.{acquire_lock, release_lock_token}
use mergetrain.Recovery.{deploy_reconcile_pending}
use mergetrain.Jobs.Reads.{list_jobs_fifo, ordered_head}
use mergetrain.Jobs.Supersede.{ids}
use mergetrain.Jobs.Trains.{Summary, validated_train_summaries, select_validated_train}

pub data Processing : Type 0 where
  batch ordered : Processing

abbrev pub is_ordered : Processing → Bool
is_ordered batch = false
is_ordered ordered = true

pub data Mode : Type 0 where
  validate deploy : Mode

abbrev pub mode_text : Mode → String
mode_text validate = "mode=validate"
mode_text deploy = "mode=deploy"

abbrev pub claimed : Env → String → String → Job → Job
claimed env token note j = record j {
  status = in_progress;
  started_at = utc_now env;
  note = note;
  claim_token = token;
  cancel_requested_at = none;
}

abbrev pub is_claimable : List ℕ → Status → Job → Bool
is_claimable job_ids expected j = elem j.id job_ids && has_status expected j

-- claims._claim
unfoldable pub claim : Env → List ℕ → Status → String → String → Mode → M (List Job)
claim env job_ids expected token note mode = do
  changed ← update_counted (is_claimable job_ids expected) (claimed env token note)
  require (changed == length job_ids) queue_error
  modify (record_run_event env none "claiming" "active" token (mode_text mode))
  get_jobs job_ids

pub record ClaimRequest : Type 0 where
  pub owner : String
  pub ttl_minutes : ℕ
  pub auto_only : Bool
  pub manual_only : Bool
  pub approval_destination_sha : String
  pub approval_execution_policy_sha : String
  pub unless_ready : Bool
  pub processing : Processing

abbrev has_eligible : List Summary → Bool
has_eligible [] = false
has_eligible (t ∷ ts) = t.deploy_eligible || has_eligible ts

abbrev pub fits_head : ClaimRequest → Option Job → Bool
fits_head c none = false
fits_head c (some j) =
    has_status queued j
    && not (c.auto_only && not j.auto_deploy)
    && not (c.manual_only && j.auto_deploy)

-- The four early returns of `claim_all_queued`; all give the lock back and claim nothing.
unfoldable pub must_pause : Env → ClaimRequest → Store → Bool
must_pause env c s =
    ((c.auto_only || c.manual_only || is_ordered c.processing)
      && ltb 0 (deploy_reconcile_pending env s))
    || (c.manual_only && exists_where (has_status validated) s.jobs)
    || (c.unless_ready && has_eligible (validated_train_summaries s))
    || (is_ordered c.processing && not (fits_head c (ordered_head s)))

abbrev head_for : Processing → Store → Option Job
head_for batch s = none
head_for ordered s = ordered_head s

-- A queued --auto job whose recorded approval is another
abbrev pub is_mismatched : (Job → String) → String → Job → Bool
is_mismatched column current j = has_status queued j && j.auto_deploy && not (column j == current)

abbrev pub is_other : Option Job → ℕ → Bool
is_other none k = false
is_other (some head) k = not (k == head.id)

abbrev pub block_mismatch : Env → String → Job → Job
block_mismatch env note j = record j { status = blocked; finished_at = utc_now env; note = note }

abbrev pub is_queued_auto : ℕ → Job → Bool
is_queued_auto k j = by_id k j && has_status queued j && j.auto_deploy

-- The loop over the mismatched rows of one check, with the jobs that it blocked.
unfoldable pub block_each : Env → Option Job → String → String → List ℕ → M (List Job)
block_each env head note detail [] = return []
block_each env head note detail (k ∷ ks) = do
  blocked_job ← if is_other head k then return [] else (do
    modify (update_jobs (is_queued_auto k) (block_mismatch env note))
    modify (record_run_event env (some k) "claiming" "error" "" detail)
    j ← get_job k
    return (j ∷ []))
  more ← block_each env head note detail ks
  return (blocked_job ++ more)

unfoldable pub block_mismatched :
    Env → Option Job → (Job → String) → String → String → String → M (List Job)
unfolding block_each
block_mismatched env head column current note detail = do
  mismatched ← reads (λ s. ids (select (is_mismatched column current) s.jobs))
  if nonempty current then block_each env head note detail mismatched else return []

abbrev destination_note : String
destination_note =
    "approval_destination_changed: unattended deploy approval does not match the current remote or push refs; enqueue again with --auto only after approving this destination"

abbrev policy_note : String
policy_note =
    "approval_execution_policy_changed: unattended deploy approval does not match the configured gates, validation reuse, or verify hooks; enqueue again with --auto only after approving this execution policy"

-- The checks of _APPROVAL_CHECKS, destination first.
unfoldable pub block_unapproved : Env → ClaimRequest → Option Job → M (List Job)
block_unapproved env c head = do
  first_blocked ←
      block_mismatched env head (λ j. j.approval_destination_sha) c.approval_destination_sha
        destination_note "approval_destination_changed"
  then_blocked ←
      block_mismatched env head (λ j. j.approval_execution_policy_sha)
        c.approval_execution_policy_sha policy_note "approval_execution_policy_changed"
  return (first_blocked ++ then_blocked)

abbrev approves : String → String → Bool
approves current recorded = not (nonempty current) || recorded == current

-- The rows that the claim takes, by its kind
abbrev pub is_wanted : ClaimRequest → Job → Bool
is_wanted c j =
    has_status queued j
    && (if c.auto_only
        then j.auto_deploy
          && approves c.approval_destination_sha j.approval_destination_sha
          && approves c.approval_execution_policy_sha j.approval_execution_policy_sha
        else not (c.manual_only && j.auto_deploy))

abbrev pub keep_head : Option Job → List ℕ → List ℕ
keep_head none job_ids = job_ids
keep_head (some head) job_ids = select (λ k. k == head.id) job_ids

unfoldable pub give_back : String → RunnerLock → M (List Job)
give_back owner lock = do _ ← release_lock_token owner lock.token none; return []

unfoldable pub claim_ids :
    Env → String → RunnerLock → List ℕ → Status → String → Mode → M (List Job)
claim_ids env owner lock job_ids expected note mode =
    if ltb 0 (length job_ids)
    then claim env job_ids expected lock.token note mode
    else give_back owner lock

unfoldable pub claim_wanted : Env → ClaimRequest → String → RunnerLock → M (List Job × List Job)
claim_wanted env c owner lock = do
  head ← reads (head_for c.processing)
  unapproved ← if c.auto_only then block_unapproved env c head else return []
  wanted ← reads (λ s. ids (select (is_wanted c) s.jobs))
  taken ←
      claim_ids env owner lock (keep_head head wanted) queued "claimed by mergetrain batch runner"
        (if c.auto_only then deploy else validate)
  return (taken, unapproved)

abbrev pub give_back_all : String → RunnerLock → M (List Job × List Job)
give_back_all owner lock = do none_taken ← give_back owner lock; return (none_taken, [])

unfoldable pub claim_in_transaction : Env → ClaimRequest → M (List Job × List Job)
claim_in_transaction env c = do
  let owner = keep_text c.owner env.default_owner
  lock ← acquire_lock env owner c.ttl_minutes "" ""
  pause ← reads (must_pause env c)
  if pause then give_back_all owner lock else claim_wanted env c owner lock

-- The claimed jobs, and the --auto jobs that the claim blocked.
unfoldable pub claim_all_queued : Env → ClaimRequest → M (List Job × List Job)
claim_all_queued env c = do
  require (not (c.auto_only && c.manual_only)) queue_error
  immediate env (claim_in_transaction env c)
