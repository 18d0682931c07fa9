-- ===== src/Reuse/Rows.antt =====
-- The checks of ValidationReuse.decide on the rows of the train, up to the shared fields
-- (src/mergetrain/validation_reuse.py), with the codes of the checks in place of their texts.
pub mod Distinct
pub mod Sets
pub mod Unblocked
use mergetrain.Prelude.{
  ℕ, Bool, true, false, not, ◌&&◌, ◌||◌, Option, none, some, List, [], ◌∷◌, ◌++◌, String, nonempty,
  if◌then◌else◌, length, nat_eq, map, select, dedup, ◌==◌, text_column, nat_column,
}
use mergetrain.Model.{Job, Stamp}
use mergetrain.Paths.Status.{distinct_texts}
use mergetrain.Gates.Config.{Gate, none_of}
use mergetrain.Gates.Select.{Changed, changed, unavailable, interrupted, Diffs, decision_paths}
use mergetrain.Reuse.Identity.{
  Hashes, GatePolicy, Fingerprint, FingerprintRun, Environment, values, environment_values,
  current_identity, is_young,
}

pub data Code : Type 0 where
  authorization train_membership train_size validation_commit integration_base train_identity
        gate_policy validation_age :
      Code
  shared_tree shared_policy shared_environment shared_train validation_commit_available
        validation_tree environment :
      Code

pub data CheckStatus : Type 0 where
  matched mismatched not_evaluated : CheckStatus

-- ReuseCheck, without its texts and values
pub record ReuseCheck : Type 0 where
  pub code : Code
  pub status : CheckStatus

-- A reason is the mismatch of a check, or the commit that was not restored.
pub data Reason : Type 0 where
  mismatch : Code → Reason
  not_restored : Reason

pub data ReuseAction : Type 0 where
  reuse rerun fail : ReuseAction

pub record ReuseDecision : Type 0 where
  pub authorized : Bool
  pub eligible : Bool
  pub action : ReuseAction
  pub validation_sha : String
  pub reused_validation_sha : String
  pub reasons : List Reason
  pub checks : List ReuseCheck
  pub changed_paths : Changed

-- The values of a column without repetition: all of them, or those that are not empty.
unfoldable pub all_values : (Job → String) → List Job → List String
unfolding distinct_texts
all_values column jobs = distinct_texts (map column jobs)

unfoldable pub values_of : (Job → String) → List Job → List String
unfolding distinct_texts
values_of column jobs = distinct_texts (select nonempty (map column jobs))

abbrev pub is_one {ℓ} : {A : Type ℓ} → List A → Bool
is_one [] = false
is_one (x ∷ []) = true
is_one (x ∷ (y ∷ ys)) = false

-- `next(iter(validation_shas)) if len(validation_shas) == 1 else ""`
abbrev pub only_text : List String → String
only_text [] = ""
only_text (x ∷ []) = x
only_text (x ∷ (y ∷ ys)) = ""

unfoldable pub validation_sha_of : List Job → String
unfolding values_of
validation_sha_of jobs = only_text (values_of (λ job. job.validation_sha) jobs)

-- A column of the first job, or "" where there is none
abbrev pub first_of : (Job → String) → List Job → String
first_of column [] = ""
first_of column (job ∷ jobs) = column job

abbrev pub first_size : List Job → ℕ
first_size [] = 0
first_size (job ∷ jobs) = job.train_size

abbrev pub first_stamp : List Job → Stamp
first_stamp [] = none
first_stamp (job ∷ jobs) = job.validated_at

-- The project's settings for reuse: `gates` are all the configured gates, the policy has the
-- effective ones.
pub record Settings : Type 0 where
  pub policy : GatePolicy
  pub gates : List Gate
  pub max_age_minutes : ℕ
  pub on_mismatch : ReuseAction

-- What git, the clock and the commands answer: `tree_sha` is none where git fails, `restored` is the
-- reset to the validation, `cleaned` the reset and the clean after the fingerprints.
pub record Answers : Type 0 where
  pub hashes : Hashes
  pub now : ℕ
  pub ref_exists : String → Bool
  pub tree_sha : String → Option String
  pub restored : Bool
  pub fingerprint : String → FingerprintRun
  pub cleaned : Bool
  pub diffs : Diffs

-- The checks and the reasons so far
pub record Recorded : Type 0 where
  pub checks : List ReuseCheck
  pub reasons : List Reason

-- record, with the test and whether its mismatch is a reason
unfoldable pub record_check : Code → Bool → Bool → Recorded → Recorded
record_check code matches blocks so_far = record {
  checks =
      so_far.checks
      ++ record { code = code; status = if matches then matched else mismatched } ∷ [];
  reasons = if blocks then so_far.reasons ++ mismatch code ∷ [] else so_far.reasons;
}

-- record without `blocks`
abbrev pub record_plain : Code → Bool → Recorded → Recorded
record_plain code matches so_far = record_check code matches (not matches) so_far

-- The arguments of a call of record
pub record Test : Type 0 where
  pub code : Code
  pub matches : Bool
  pub blocks : Bool

abbrev pub plain : Code → Bool → Test
plain code matches = record { code = code; matches = matches; blocks = not matches }

-- Calls of record, one after the other
unfoldable pub record_all : List Test → Recorded → Recorded
unfolding record_check
record_all [] so_far = so_far
record_all (t ∷ ts) so_far = record_all ts (record_check t.code t.matches t.blocks so_far)

unfoldable pub is_shared : (Job → String) → List Job → Bool
unfolding all_values values_of
is_shared column jobs =
    is_one (values_of column jobs)
    && nat_eq (length (values_of column jobs)) (length (all_values column jobs))

unfoldable pub is_member_train : List Job → Bool
unfolding values_of
is_member_train jobs = not (none_of jobs) && is_one (values_of (λ job. job.train_id) jobs)

unfoldable pub is_whole_train : List Job → Bool
unfolding dedup
is_whole_train jobs =
    not (none_of jobs)
    && is_one (dedup (map (λ job. job.train_size) jobs))
    && nat_eq (first_size jobs) (length jobs)

unfoldable pub is_on_base : String → List Job → Bool
unfolding values_of
is_on_base base jobs =
    not (none_of jobs)
    && is_one (values_of (λ job. job.validation_base_sha) jobs)
    && first_of (λ job. job.validation_base_sha) jobs == base

-- A recorded hash, which is the current one
abbrev pub is_current : List Job → String → String → Bool
is_current jobs recorded current = not (none_of jobs) && nonempty recorded && current == recorded

abbrev pub is_changed : List Job → String → String → Bool
is_changed jobs recorded current = not (none_of jobs) && not (current == recorded)

-- The hash of the train as it is, "" where there are no jobs.
abbrev pub train_sha_of : Hashes → List Job → String
train_sha_of hashes [] = ""
train_sha_of hashes (job ∷ jobs) = hashes.train (current_identity (job ∷ jobs))

-- The checks on the rows alone, in the order of the calls
unfoldable pub row_tests : Settings → Answers → List Job → String → List Test
unfolding is_shared is_member_train is_whole_train is_on_base is_young values_of current_identity
row_tests settings answers jobs base =
    let recorded_train = first_of (λ job. job.validation_train_sha) jobs in
    let recorded_policy = first_of (λ job. job.validation_gate_policy_sha) jobs in
    let current_train = train_sha_of answers.hashes jobs in
    let current_policy = answers.hashes.policy settings.policy in
    let young = is_young answers.now (first_stamp jobs) settings.max_age_minutes in
    plain train_membership (is_member_train jobs)
    ∷ plain Code.train_size (is_whole_train jobs)
    ∷ plain validation_commit (is_one (values_of (λ job. job.validation_sha) jobs))
    ∷ plain integration_base (is_on_base base jobs)
    ∷ record {
      code = train_identity;
      matches = is_current jobs recorded_train current_train;
      blocks = is_changed jobs recorded_train current_train;
    }
    ∷ record {
      code = gate_policy;
      matches = is_current jobs recorded_policy current_policy;
      blocks = is_changed jobs recorded_policy current_policy;
    }
    ∷ record { code = validation_age; matches = young; blocks = not (none_of jobs) && not young }
    ∷ plain shared_tree (is_shared (λ job. job.validation_tree_sha) jobs)
    ∷ plain shared_policy (is_shared (λ job. job.validation_gate_policy_sha) jobs)
    ∷ plain shared_environment (is_shared (λ job. job.validation_environment_sha) jobs)
    ∷ plain shared_train (is_shared (λ job. job.validation_train_sha) jobs)
    ∷ []

-- The check of the authorization, which is given
abbrev pub authorized_check : Recorded
authorized_check = record {
  checks = record { code = authorization; status = matched } ∷ [];
  reasons = [];
}

unfoldable pub row_checks : Settings → Answers → List Job → String → Recorded
unfolding record_all row_tests
row_checks settings answers jobs base =
    record_all (row_tests settings answers jobs base) authorized_check
