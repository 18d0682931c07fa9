-- ===== src/Reuse/Decide/SameTrain.antt =====
-- An eligible decision against the validation that recorded the fields.
use mergetrain.Prelude.{
  ℕ, true, Option, none, some, List, String, map, ◌≡◌, refl, ap, sym, ◌∙◌, arith,
}
use mergetrain.Model.{Job}
use mergetrain.Reuse.Identity.{
  Hashes, GatePolicy, TrainIdentity, member, Environment, values, environment_values,
  validated_identity, current_identity,
}
use mergetrain.Reuse.Rows.{ReuseDecision, Settings, Answers, first_of}
use mergetrain.Reuse.Decide.{decide, IdentityFields, fields_of, identity_fields}
use mergetrain.Reuse.Decide.Warranted.{decide-Warranted}

-- The two values do not collide.
abbrev pub Apart : {A : Type 0} → (A → String) → A → A → Type 0
Apart hash a b = hash a ≡ hash b → a ≡ b

-- The train, the policy and the fingerprints of the validation and those of the decision do not
-- collide.
abbrev pub NoCollision :
    Hashes
    → TrainIdentity
    → TrainIdentity
    → GatePolicy
    → GatePolicy
    → Environment
    → Environment
    → Type 0
NoCollision hashes now_train train now_policy policy now_environment environment =
    Apart hashes.train now_train train
    × Apart hashes.policy now_policy policy
    × ((a b : List (String × String))
        → now_environment ≡ values a
        → environment ≡ values b
        → Apart hashes.environment a b)

-- The rows have the fields, as the first of them shows.
abbrev pub Records : IdentityFields → List Job → Type 0
Records fields jobs =
    (first_of (λ j. j.validation_tree_sha) jobs ≡ fields.validation_tree_sha)
    × (first_of (λ j. j.validation_gate_policy_sha) jobs ≡ fields.validation_gate_policy_sha)
    × (first_of (λ j. j.validation_environment_sha) jobs ≡ fields.validation_environment_sha)
    × (first_of (λ j. j.validation_train_sha) jobs ≡ fields.validation_train_sha)

-- Where the fields come from
abbrev Recorded :
    Hashes → GatePolicy → TrainIdentity → Option String → Environment → IdentityFields → Type 0
Recorded hashes policy train tree e fields =
    (tree ≡ some fields.validation_tree_sha)
    × (hashes.policy policy ≡ fields.validation_gate_policy_sha)
    × (hashes.train train ≡ fields.validation_train_sha)
    × ((found : List (String × String)) × (e ≡ values found)
        × (hashes.environment found ≡ fields.validation_environment_sha))

abbrev or_empty : Option IdentityFields → IdentityFields
or_empty (some fields) = fields
or_empty none = record {
  validation_tree_sha = "";
  validation_gate_policy_sha = "";
  validation_environment_sha = "";
  validation_train_sha = "";
}

fields_of-Recorded :
    (hashes : Hashes) (policy : GatePolicy) (train : TrainIdentity) (tree : Option String)
    (e : Environment) (fields : IdentityFields)
    → fields_of hashes policy train tree e ≡ some fields
    → Recorded hashes policy train tree e fields
fields_of-Recorded hashes policy train none e fields h = absurd (ground arith)
fields_of-Recorded hashes policy train (some tree) (values found) fields h = (
  ap (λ o. some (or_empty o).validation_tree_sha) h,
  ap (λ o. (or_empty o).validation_gate_policy_sha) h,
  ap (λ o. (or_empty o).validation_train_sha) h,
  (found, refl, ap (λ o. (or_empty o).validation_environment_sha) h),
)
fields_of-Recorded hashes policy train (some tree) Environment.unavailable fields h =
    absurd (ground arith)
fields_of-Recorded hashes policy train (some tree) Environment.busy fields h = absurd (ground arith)

-- Let a validation have recorded the identity of a train, and let a decision on rows with those fields
-- be eligible, where what is hashed does not collide. Then the rows are the validated train, member by
-- member with the heads that were validated; the gate policy is the one of the validation; the
-- fingerprints print what they printed; and the tree is the validated one.
pub decide-identity_fields :
    (before settings : Settings) (past answers : Answers) (validated jobs : List Job)
    (train_id : String) (validated_heads : ℕ → String) (validation_sha base : String)
    (fields : IdentityFields) (decision : ReuseDecision)
    → NoCollision answers.hashes
        (current_identity jobs)
        (validated_identity validated train_id validated_heads)
        settings.policy
        before.policy
        (environment_values answers.fingerprint settings.policy.environment_fingerprints)
        (environment_values past.fingerprint before.policy.environment_fingerprints)
    → past.hashes ≡ answers.hashes
    → identity_fields before past validated train_id validated_heads validation_sha ≡ some fields
    → Records fields jobs
    → decide settings answers jobs base ≡ some decision
    → decision.eligible ≡ true
    → (map (member (λ j. j.validated_head_sha)) jobs
        ≡ map (member (λ j. validated_heads j.id)) validated)
      × (settings.policy ≡ before.policy)
      × (environment_values answers.fingerprint settings.policy.environment_fingerprints
          ≡ environment_values past.fingerprint before.policy.environment_fingerprints)
      × (answers.tree_sha decision.validation_sha ≡ past.tree_sha validation_sha)
unfolding identity_fields current_identity validated_identity
decide-identity_fields before settings past answers validated jobs train_id validated_heads
      validation_sha base fields decision (one_train, one_policy, one_environment) hashes written
      (row_tree, row_policy, row_environment, row_train) e h =
    let (tree, policy, train, (found, printed, environment)) =
      fields_of-Recorded past.hashes before.policy
        (validated_identity validated train_id validated_heads) (past.tree_sha validation_sha)
        (environment_values past.fingerprint before.policy.environment_fingerprints) fields
        written in
    let (rows, commit, (restored, (now_found, now_printed, now_environment)), sha) =
      decide-Warranted settings answers jobs base decision e h in
    let current : TrainIdentity = current_identity jobs in
    let identity : TrainIdentity = validated_identity validated train_id validated_heads in
    let same_train : current ≡ identity =
      one_train (rows.6 ∙ row_train ∙ sym train ∙ ap (λ k. k.train identity) hashes) in
    let same_policy : settings.policy ≡ before.policy =
      one_policy (rows.7 ∙ row_policy ∙ sym policy ∙ ap (λ k. k.policy before.policy) hashes) in
    let same_environment : now_found ≡ found = one_environment now_found found now_printed printed (
      now_environment ∙ row_environment ∙ sym environment ∙ ap (λ k. k.environment found) hashes) in
    (
      ap (λ t. t.members) same_train,
      same_policy,
      now_printed ∙ ap values same_environment ∙ sym printed,
      ap answers.tree_sha sha ∙ commit.1 ∙ ap some row_tree ∙ sym tree,
    )
