-- ===== src/Examples/Reuse.antt =====
-- The decision to reuse a validation, at a train of two jobs.
use mergetrain.Prelude.{
  ℕ, Bool, ◌==◌, nat_column, if◌then◌else◌, true, false, Option, none, some, List, [], ◌∷◌, String,
  ◌<>◌, strip, strip_left, strip_right, is_space, dedup, select, map, ◌≡◌, ◌∙◌, refl, sym, ap,
  exists_where,
}
use mergetrain.Model.{Job, validated}
use mergetrain.Samples.{job}
use mergetrain.Quoting.Render.{has_char}
use mergetrain.Paths.Status.{distinct_texts}
use mergetrain.Gates.Select.{output, changed, decision_paths}
use mergetrain.Reuse.Identity.{
  Hashes, member, printed, Environment, values, environment_values, is_fingerprint, text_length,
  validated_identity, current_identity, is_young,
}
use mergetrain.Reuse.Rows.{
  Settings, Answers, Reason, mismatch, Code, authorization, train_membership, train_size,
  validation_commit, integration_base, train_identity, gate_policy, validation_age, shared_tree,
  shared_policy, shared_environment, shared_train, validation_commit_available, validation_tree,
  environment, matched, ReuseCheck, reuse, rerun, ReuseDecision, all_values, values_of,
  validation_sha_of, record_check, is_shared, is_member_train, is_whole_train, is_on_base,
  record_all, row_tests, row_checks,
}
use mergetrain.Reuse.Rows.Unblocked.{RowsWarranted}
use mergetrain.Reuse.Decide.{
  commit_checks, environment_checks, decided, decide, IdentityFields, identity_fields,
}
use mergetrain.Reuse.Decide.Steps.{CommitWarranted, EnvironmentWarranted}
use mergetrain.Reuse.Decide.Warranted.{decide-Warranted}
use mergetrain.Reuse.Decide.SameTrain.{decide-identity_fields}

abbrev hashes : Hashes
hashes = record {
  train = λ t. "train" <> t.train_id;
  policy = λ p. "policy" <> p.project;
  environment = λ vs. "environment";
}

abbrev settings : Settings
settings = record {
  policy = record {
    project = "shop";
    integration_ref = "origin/main";
    default_command_timeout_seconds = none;
    max_workers = 2;
    timeout_seconds = none;
    gates = [];
    environment_fingerprints = record { name = "python"; run = "python -V" } ∷ [];
  };
  gates = [];
  max_age_minutes = 60;
  on_mismatch = rerun;
}

abbrev answers : Answers
answers = record {
  hashes = hashes;
  now = 43200;
  ref_exists = λ ref. true;
  tree_sha = λ ref. some "tree";
  restored = true;
  fingerprint = λ command. printed " 3.12\n";
  cleaned = true;
  diffs = record { check = true; name_status = λ base head. output "" };
}

abbrev validated_job : ℕ → String → Job
validated_job k branch = record (job k branch validated) {
  validation = record {
    train_id = "t9";
    train_size = 2;
    validated_at = some 42000;
    validation_base_sha = "base";
    validation_sha = "v1";
    validated_head_sha = "h" <> branch;
    validation_tree_sha = "tree";
    validation_gate_policy_sha = "policyshop";
    validation_environment_sha = "environment";
    validation_train_sha = "traint9";
    reused_validation_sha = "";
  };
}

abbrev train : List Job
train = validated_job 1 "a" ∷ validated_job 2 "b" ∷ []

-- The heads that the validation saw
abbrev heads : ℕ → String
heads k = if k == 1 then "ha" else "hb"

abbrev decision : Option ReuseDecision → Bool × String × List Reason
decision none = (false, "", [])
decision (some d) = (d.eligible, d.reused_validation_sha, d.reasons)

-- One day later
old_test :
    decision (decide settings (record answers { now = 129600 }) train "base")
    ≡ (false, "", mismatch validation_age ∷ [])
unfolding decide row_checks record_all row_tests record_check commit_checks environment_checks
    decided is_shared is_member_train is_whole_train is_on_base is_young values_of all_values
    validation_sha_of distinct_texts dedup select current_identity environment_values is_fingerprint
    text_length strip strip_left strip_right is_space has_char decision_paths exists_where
old_test = refl

abbrev match_all : List Code → List ReuseCheck
match_all codes = map (λ code. record { code = code; status = matched }) codes

abbrev reused : ReuseDecision
reused = record {
  authorized = true;
  eligible = true;
  action = reuse;
  validation_sha = "v1";
  reused_validation_sha = "v1";
  reasons = [];
  checks = match_all (
      authorization ∷ train_membership ∷ train_size ∷ validation_commit ∷ integration_base
      ∷ train_identity ∷ gate_policy ∷ validation_age ∷ shared_tree ∷ shared_policy
      ∷ shared_environment ∷ shared_train ∷ validation_commit_available ∷ validation_tree
      ∷ environment ∷ []);
  changed_paths = changed [];
}

reused_run : decide settings answers train "base" ≡ some reused
unfolding decide row_checks record_all row_tests record_check commit_checks environment_checks
    decided is_shared is_member_train is_whole_train is_on_base is_young values_of all_values
    validation_sha_of distinct_texts dedup select current_identity environment_values is_fingerprint
    text_length strip strip_left strip_right is_space has_char decision_paths exists_where
reused_run = refl

decide-Warranted_example :
    RowsWarranted settings answers train "base"
    × CommitWarranted answers train
    × EnvironmentWarranted settings answers train
    × (reused.validation_sha ≡ validation_sha_of train)
decide-Warranted_example = decide-Warranted settings answers train "base" reused reused_run refl

abbrev fields : IdentityFields
fields = record {
  validation_tree_sha = "tree";
  validation_gate_policy_sha = "policyshop";
  validation_environment_sha = "environment";
  validation_train_sha = "traint9";
}

fields_run : identity_fields settings answers train "t9" heads "v1" ≡ some fields
unfolding identity_fields environment_values validated_identity is_fingerprint text_length strip
    strip_left strip_right is_space has_char
fields_run = refl

abbrev values_or_none : Environment → List (String × String)
values_or_none (values found) = found
values_or_none Environment.unavailable = []
values_or_none Environment.busy = []

same_identity : current_identity train ≡ validated_identity train "t9" heads
unfolding current_identity validated_identity
same_identity = refl

decide-identity_fields_example :
    (map (member (λ j. j.validated_head_sha)) train ≡ map (member (λ j. heads j.id)) train)
    × (settings.policy ≡ settings.policy)
    × (environment_values answers.fingerprint settings.policy.environment_fingerprints
        ≡ environment_values answers.fingerprint settings.policy.environment_fingerprints)
    × (answers.tree_sha reused.validation_sha ≡ answers.tree_sha "v1")
decide-identity_fields_example =
    decide-identity_fields settings settings answers answers train train "t9" heads "v1" "base"
      fields reused
      ((λ e. same_identity), (λ e. refl), (λ a b p q e. ap values_or_none (sym p ∙ q))) refl
      fields_run (refl, refl, refl, refl) reused_run refl
