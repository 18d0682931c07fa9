-- ===== src/Reuse/Decide.antt =====
-- ValidationReuse.decide and unauthorized_reuse_decision (src/mergetrain/validation_reuse.py). Git,
-- the fingerprint commands, the clock and the hashes are answers.
pub mod Steps
pub mod Warranted
pub mod SameTrain
use mergetrain.Prelude.{
  ℕ, Bool, true, false, not, ◌&&◌, ◌||◌, Option, none, some, List, [], ◌∷◌, ◌++◌, String, nonempty,
  if◌then◌else◌, length, nat_eq, map, select, dedup, ◌==◌, text_column, nat_column,
}
use mergetrain.Model.{Job, Stamp}
use mergetrain.Paths.Status.{distinct_texts}
use mergetrain.Gates.Config.{Gate, none_of}
use mergetrain.Gates.Select.{Changed, changed, unavailable, interrupted, Diffs, decision_paths}
use mergetrain.Reuse.Identity.{
  TrainIdentity, validated_identity, Hashes, GatePolicy, Fingerprint, FingerprintRun, Environment,
  values, environment_values, current_identity, is_young,
}
use mergetrain.Reuse.Rows.{
  Code, authorization, validation_commit_available, validation_tree, environment, CheckStatus,
  matched, mismatched, not_evaluated, ReuseCheck, Reason, mismatch, not_restored, ReuseAction,
  reuse, rerun, fail, ReuseDecision, validation_sha_of, first_of, Settings, Answers, Recorded,
  record_check, record_plain, row_checks,
}

abbrev pub commit_exists : Answers → List Job → Bool
commit_exists answers jobs =
    nonempty (validation_sha_of jobs) && answers.ref_exists (validation_sha_of jobs)

-- The checks of the commit and of its tree; `none` where git fails to give the tree.
abbrev pub tree_check : Option String → String → Recorded → Option Recorded
tree_check none recorded so_far = none
tree_check (some current) recorded so_far =
    some (record_plain validation_tree (current == recorded) so_far)

unfoldable pub commit_checks : Answers → List Job → Recorded → Option Recorded
unfolding record_check validation_sha_of
commit_checks answers jobs so_far =
    let found = commit_exists answers jobs in
    let noted =
      record_check validation_commit_available found
        (nonempty (validation_sha_of jobs) && not found) so_far in
    if found && not (none_of jobs)
    then tree_check (answers.tree_sha (validation_sha_of jobs))
        (first_of (λ job. job.validation_tree_sha) jobs) noted
    else some noted

-- The environment check that was not made
abbrev pub not_checked : Recorded → Recorded
not_checked so_far = record so_far {
  checks = so_far.checks ++ record { code = environment; status = not_evaluated } ∷ [];
}

abbrev pub environment_check : Hashes → String → Environment → Recorded → Option Recorded
environment_check hashes recorded (values found) so_far =
    some (record_plain environment (hashes.environment found == recorded) so_far)
environment_check hashes recorded Environment.unavailable so_far =
    some (record_plain environment false so_far)
environment_check hashes recorded Environment.busy so_far = none

-- What the fingerprints of the restored commit say; `none` where an error is raised.
unfoldable pub environment_checks : Settings → Answers → List Job → Recorded → Option Recorded
unfolding record_check environment_values
environment_checks settings answers jobs so_far =
    if not (none_of so_far.reasons) || none_of jobs
    then some (not_checked so_far)
    else if not answers.restored
    then some (not_checked (record so_far { reasons = not_restored ∷ [] }))
    else if answers.cleaned
    then environment_check answers.hashes (first_of (λ job. job.validation_environment_sha) jobs)
        (environment_values answers.fingerprint settings.policy.environment_fingerprints) so_far
    else none

abbrev pub has_error : Changed → Bool
has_error (changed found) = false
has_error unavailable = false
has_error interrupted = true

-- The decision from the checks; `none` where the listing of the changed paths is interrupted.
unfoldable pub decided : Settings → Answers → List Job → String → Recorded → Option ReuseDecision
unfolding validation_sha_of decision_paths
decided settings answers jobs base recorded =
    let eligible = none_of recorded.reasons in
    let seen =
      if eligible
      then decision_paths answers.diffs base (validation_sha_of jobs) settings.gates
      else changed [] in
    if has_error seen
    then none
    else some (record {
      authorized = true;
      eligible = eligible;
      action = if eligible then reuse else settings.on_mismatch;
      validation_sha = validation_sha_of jobs;
      reused_validation_sha = if eligible then validation_sha_of jobs else "";
      reasons = recorded.reasons;
      checks = recorded.checks;
      changed_paths = seen;
    })

abbrev pub bound {ℓ κ} : {A : Type ℓ} {B : Type κ} → Option A → (A → Option B) → Option B
bound none f = none
bound (some a) f = f a

-- ValidationReuse.decide; `none` where an error is raised.
unfoldable pub decide : Settings → Answers → List Job → String → Option ReuseDecision
unfolding row_checks commit_checks environment_checks decided
decide settings answers jobs integration_base_sha =
    bound (commit_checks answers jobs (row_checks settings answers jobs integration_base_sha))
      (λ recorded.
        bound (environment_checks settings answers jobs recorded)
          (λ all. decided settings answers jobs integration_base_sha all))

-- The fields that a validation records
pub record IdentityFields : Type 0 where
  pub validation_tree_sha : String
  pub validation_gate_policy_sha : String
  pub validation_environment_sha : String
  pub validation_train_sha : String

abbrev pub fields_of :
    Hashes → GatePolicy → TrainIdentity → Option String → Environment → Option IdentityFields
fields_of hashes policy train none e = none
fields_of hashes policy train (some tree) (values found) = some (record {
  validation_tree_sha = tree;
  validation_gate_policy_sha = hashes.policy policy;
  validation_environment_sha = hashes.environment found;
  validation_train_sha = hashes.train train;
})
fields_of hashes policy train (some tree) Environment.unavailable = none
fields_of hashes policy train (some tree) Environment.busy = none

-- identity_fields; `none` where an error is raised.
unfoldable pub identity_fields :
    Settings → Answers → List Job → String → (ℕ → String) → String → Option IdentityFields
unfolding environment_values validated_identity
identity_fields settings answers jobs train_id validated_heads validation_sha =
    fields_of answers.hashes settings.policy (validated_identity jobs train_id validated_heads)
      (answers.tree_sha validation_sha)
      (environment_values answers.fingerprint settings.policy.environment_fingerprints)

unfoldable pub unauthorized_reuse_decision : List Job → ReuseDecision
unfolding validation_sha_of
unauthorized_reuse_decision jobs = record {
  authorized = false;
  eligible = false;
  action = rerun;
  validation_sha = validation_sha_of jobs;
  reused_validation_sha = "";
  reasons = mismatch authorization ∷ [];
  checks = record { code = authorization; status = mismatched } ∷ [];
  changed_paths = unavailable;
}
