-- ===== src/Jobs/Verify.antt =====
-- Post-push verification of a deployment (src/mergetrain/persistence/jobs.py,
-- _verification_group and resolve_deployment_verify_status).
use mergetrain.Prelude.{
  ℕ, Bool, true, ◌&&◌, ◌||◌, List, [], ◌∷◌, String, ltb, if◌then◌else◌, nonempty, keep_text, select,
  ◌==◌, nat_column, text_column, length, elem,
}
use mergetrain.Model.{Job, status_column, VerifyStatus, verify_column, deployed}
use mergetrain.Store.{
  Env, M, ◌>>=◌, ◌>>◌, return, reads, require, immediate, queue_error, or_raise, update_counted,
  find_job, get_jobs, has_status,
}
use mergetrain.Jobs.Reads.{needs_verify}
use mergetrain.Jobs.Supersede.{ids}

-- The member of a deployment agrees with the job that was asked for.
abbrev pub is_member : Job → Job → Bool
is_member target j =
    has_status deployed j
    && j.deployment_id == target.deployment_id
    && j.deploy_sha == target.deploy_sha
    && j.deployment_destination_sha == target.deployment_destination_sha
    && j.verification_policy_sha == target.verification_policy_sha

all_members : Job → List Job → Bool
all_members target [] = true
all_members target (j ∷ js) = is_member target j && all_members target js

abbrev pub in_deployment : String → Job → Bool
in_deployment deployment_id j = j.deployment_id == deployment_id

-- Legacy rows have no deployment, and are resolved alone.
unfoldable pub checked_group : Job → List Job → M (List Job)
unfolding all_members
checked_group target group =
    if nonempty target.deployment_id
    then (do require (ltb 0 (length group) && all_members target group) queue_error; return group)
    else return (target ∷ [])

unfoldable pub verification_group : ℕ → M (List Job)
unfolding checked_group
verification_group k = do
  found ← reads (find_job k)
  target ← or_raise queue_error found
  require (needs_verify target) queue_error
  group ← reads (λ s. select (in_deployment target.deployment_id) s.jobs)
  checked_group target group

abbrev pub set_verify : VerifyStatus → String → Job → Job
set_verify result note j = record j { verify_status = result; note = keep_text note j.note }

unfoldable pub resolve_in_transaction : ℕ → VerifyStatus → String → M (List ℕ)
resolve_in_transaction k result note = do
  members ← verification_group k
  changed ← update_counted (λ j. elem j.id (ids members)) (set_verify result note)
  require (changed == length (ids members)) queue_error
  return (ids members)

unfoldable pub resolve_deployment_verify_status : Env → ℕ → VerifyStatus → String → M (List Job)
resolve_deployment_verify_status env k result note = do
  require (result == VerifyStatus.succeeded || result == VerifyStatus.failed) queue_error
  members ← immediate env (resolve_in_transaction k result note)
  get_jobs members
