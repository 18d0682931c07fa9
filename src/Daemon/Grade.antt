-- ===== src/Daemon/Grade.antt =====
-- The outcome of a tick, and the grades of a batch (src/mergetrain/daemon.py, _grade_batch and
-- _grade_validation_batch).
use mergetrain.Prelude.{
  ℕ, Bool, ◌||◌, List, [], ◌∷◌, ltb, if◌then◌else◌, length, count_where, nat_eq, ◌==◌, text_column,
}
use mergetrain.Model.{Job, status_column, verify_column, VerifyStatus, deployed, validated}
use mergetrain.Store.{has_status}

-- The outcome strings, with their numbers
pub data TickOutcome : Type 0 where
  idle reconcile_paused validation_paused : TickOutcome
  processed landed unverified no_landing : ℕ → TickOutcome
  partial : ℕ → ℕ → TickOutcome
  validation_processed validation_done validation_failed : ℕ → TickOutcome
  validation_partial : ℕ → ℕ → TickOutcome

abbrev pub is_unverified : Job → Bool
is_unverified job =
    job.verify_status == VerifyStatus.failed || job.verify_status == VerifyStatus.unknown

-- _grade_batch
unfoldable pub grade_batch : List Job → ℕ → TickOutcome
grade_batch [] claimed = processed claimed
grade_batch (j ∷ js) claimed =
    let total = length (j ∷ js) in
    let landed_jobs = count_where (has_status deployed) (j ∷ js) in
    let unverified_jobs = count_where is_unverified (j ∷ js) in
    if nat_eq landed_jobs total
    then (if ltb 0 unverified_jobs then unverified landed_jobs else landed landed_jobs)
    else if ltb 0 landed_jobs
    then partial landed_jobs total
    else no_landing total

-- _grade_validation_batch
unfoldable pub grade_validation_batch : List Job → ℕ → TickOutcome
grade_validation_batch [] claimed = validation_processed claimed
grade_validation_batch (j ∷ js) claimed =
    let total = length (j ∷ js) in
    let validated_jobs = count_where (has_status validated) (j ∷ js) in
    if nat_eq validated_jobs total
    then validation_done validated_jobs
    else if ltb 0 validated_jobs
    then validation_partial validated_jobs total
    else validation_failed total
