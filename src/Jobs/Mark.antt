-- ===== src/Jobs/Mark.antt =====
-- The status write that every transition of a claimed or parked job goes through
-- (src/mergetrain/persistence/jobs.py, mark_job).
pub mod Fence
use mergetrain.Prelude.{
  ℕ, Bool, true, false, not, ◌&&◌, ◌||◌, Option, none, some, String, if◌then◌else◌, nonempty, keep,
  keep_text, is_some, ◌==◌, nat_column, text_column,
}
use mergetrain.Model.{
  Job, Validation, Deployment, Stamp, Status, status_column, PushStatus, VerifyStatus, is_terminal,
  queued, in_progress, blocked, failed, needs_reconcile, deployed, canceled, has_marker, no_marker,
  no_validation, no_deployment,
}
use mergetrain.Store.{
  Env, M, ◌>>=◌, ◌>>◌, return, reads, require, modify, raise, immediate, queue_error, lost_lease,
  cancellation_requested, update_counted, update_jobs, by_id, find_job, get_job, utc_now,
  has_status,
}

-- The columns of a status write. An empty text, `none` or 0 keeps the column.
pub record Marking : Type 0 where
  pub status : Status
  pub deploy_sha : String
  pub log_path : String
  pub note : String
  pub push_status : Option PushStatus
  pub verify_status : Option VerifyStatus
  pub validation : Validation
  pub conflict_with : String
  pub deployment : Deployment

-- A status write of nothing but the status and a note.
abbrev pub plain_marking : Status → String → Marking
plain_marking status note = record {
  status = status;
  deploy_sha = "";
  log_path = "";
  note = note;
  push_status = none;
  verify_status = none;
  validation = no_validation;
  conflict_with = "";
  deployment = no_deployment;
}

abbrev keep_stamp : Stamp → Stamp → Stamp
keep_stamp none old = old
keep_stamp (some t) old = some t

abbrev keep_size : ℕ → ℕ → ℕ
keep_size new old = if new == 0 then old else new

abbrev pub keep_validation : Validation → Validation → Validation
keep_validation new old = record {
  train_id = keep_text new.train_id old.train_id;
  train_size = keep_size new.train_size old.train_size;
  validated_at = keep_stamp new.validated_at old.validated_at;
  validation_base_sha = keep_text new.validation_base_sha old.validation_base_sha;
  validation_sha = keep_text new.validation_sha old.validation_sha;
  validated_head_sha = keep_text new.validated_head_sha old.validated_head_sha;
  validation_tree_sha = keep_text new.validation_tree_sha old.validation_tree_sha;
  validation_gate_policy_sha =
      keep_text new.validation_gate_policy_sha old.validation_gate_policy_sha;
  validation_environment_sha =
      keep_text new.validation_environment_sha old.validation_environment_sha;
  validation_train_sha = keep_text new.validation_train_sha old.validation_train_sha;
  reused_validation_sha = keep_text new.reused_validation_sha old.reused_validation_sha;
}

abbrev pub keep_deployment : Deployment → Deployment → Deployment
keep_deployment new old = record {
  deployment_id = keep_text new.deployment_id old.deployment_id;
  deployment_destination_sha =
      keep_text new.deployment_destination_sha old.deployment_destination_sha;
  verification_policy_sha = keep_text new.verification_policy_sha old.verification_policy_sha;
}

-- The marker goes when the push is settled deployed, canceled, or requeued for a fresh attempt.
abbrev pub settles_push : Status → Bool
settles_push st = st == deployed || st == canceled || st == queued

abbrev pub keeps_cancel_request : Status → Job → Bool
keeps_cancel_request st j =
    st == in_progress || st == canceled || st == needs_reconcile || (st == blocked && has_marker j)

abbrev pub ends_attempt : Status → Bool
ends_attempt st = is_terminal st || st == blocked || st == failed

-- _MARK_JOB_UPDATE
unfoldable pub mark_columns : Env → Marking → Job → Job
mark_columns env m j = record j {
  status = m.status;
  note = m.note;
  finished_at = if ends_attempt m.status then utc_now env else none;
  deploy_sha = keep_text m.deploy_sha j.deploy_sha;
  log_path = keep_text m.log_path j.log_path;
  push_status = keep m.push_status j.push_status;
  verify_status = keep m.verify_status j.verify_status;
  validation = keep_validation m.validation j.validation;
  deployment = keep_deployment m.deployment j.deployment;
  conflict_with = m.conflict_with;
  claim_token = if m.status == in_progress then j.claim_token else "";
  cancel_requested_at = if keeps_cancel_request m.status j then j.cancel_requested_at else none;
  marker = if settles_push m.status then no_marker else j.marker;
}

-- The WHERE clause: the lease of the caller, and the source status of a compare-and-swap.
abbrev pub holds_claim : Status → Option String → Job → Bool
holds_claim st none j = true
holds_claim st (some token) j =
    has_status in_progress j
    && j.claim_token == token
    && (st == canceled
        || st == deployed
        || st == needs_reconcile
        || not (is_some j.cancel_requested_at))

abbrev pub is_expected : Option Status → Job → Bool
is_expected none j = true
is_expected (some st) j = has_status st j

unfoldable pub mark_guard : ℕ → Status → Option String → Option Status → Job → Bool
mark_guard k st token expected j = by_id k j && holds_claim st token j && is_expected expected j

-- What a write that met no row raises.
abbrev pub is_cancel_raced : Option String → Option Job → Bool
is_cancel_raced none found = false
is_cancel_raced (some token) none = false
is_cancel_raced (some token) (some j) =
    has_status in_progress j && j.claim_token == token && is_some j.cancel_requested_at

abbrev pub refuse_mark : Option String → Option Status → Option Job → M (Unit {0})
refuse_mark token expected found =
    if is_cancel_raced token found
    then raise cancellation_requested
    else if is_some expected && not (is_some token)
    then raise queue_error
    else raise lost_lease

abbrev pub clear_deployment : Job → Job
clear_deployment j = record j { deployment = no_deployment }

-- Queued means a fresh attempt: nothing of the one before it is left.
abbrev pub clear_attempt : Job → Job
clear_attempt j = record j {
  started_at = none;
  deploy_sha = "";
  push_status = PushStatus.not_run;
  verify_status = VerifyStatus.not_run;
  validation = no_validation;
}

abbrev pub update_if : Bool → (Job → Bool) → (Job → Job) → M (Unit {0})
update_if test p f = modify (λ s. if test then update_jobs p f s else s)

unfoldable pub mark_in_transaction :
    Env → ℕ → Marking → Option String → Option Status → M (Unit {0})
mark_in_transaction env k m token expected = do
  changed ← update_counted (mark_guard k m.status token expected) (mark_columns env m)
  found ← reads (find_job k)
  (if changed == 1 then return tt else refuse_mark token expected found)
  update_if (m.status == queued || m.status == canceled) (by_id k) clear_deployment
  update_if (m.status == queued) (by_id k) clear_attempt

-- `expected_claim_token is not None and not expected_claim_token`
abbrev pub is_missing : Option String → Bool
is_missing none = false
is_missing (some token) = not (nonempty token)

unfoldable pub mark_job : Env → ℕ → Marking → Option String → Option Status → M Job
mark_job env k m token expected = do
  require (not (is_missing token)) lost_lease
  immediate env (mark_in_transaction env k m token expected)
  get_job k
