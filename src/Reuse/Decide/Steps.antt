-- ===== src/Reuse/Decide/Steps.antt =====
-- The steps of a decision after the checks on the rows, where they leave no reason.
use mergetrain.Prelude.{
  Bool, true, false, not, ◌&&◌, ◌||◌, Option, none, some, List, [], ◌∷◌, String, nonempty,
  if◌then◌else◌, ◌==◌, text_column, ◌≡◌, inl, inr, refl, ap, sym, ◌∙◌, Bool-cases, arith,
  text_eq_iff,
}
use mergetrain.Model.{Job}
use mergetrain.Gates.Config.{none_of}
use mergetrain.Gates.Select.{changed, decision_paths}
use mergetrain.Reuse.Identity.{Hashes, Environment, values, environment_values}
use mergetrain.Reuse.Rows.{
  validation_commit_available, validation_tree, environment, Recorded, Reason, ReuseDecision,
  Settings, Answers, record_check, record_plain, first_of, validation_sha_of, not_restored,
}
use mergetrain.Reuse.Rows.Unblocked.{unblocked, unblocked_plain}
use mergetrain.Reuse.Decide.{
  bound, commit_exists, tree_check, commit_checks, not_checked, environment_check,
  environment_checks, has_error, decided,
}

abbrev reasons_of : Option Recorded → List Reason
reasons_of none = not_restored ∷ []
reasons_of (some so_far) = so_far.reasons

abbrev is_eligible : Option ReuseDecision → Bool
is_eligible none = false
is_eligible (some decision) = decision.eligible

abbrev sha_of : Option ReuseDecision → String
sha_of none = ""
sha_of (some decision) = decision.validation_sha

pub bound-some :
    {A B : Type 0} (o : Option A) (f : A → Option B) (b : B)
    → bound o f ≡ some b
    → (a : A) × (o ≡ some a) × (f a ≡ some b)
bound-some none f b h = absurd (ground arith)
bound-some (some a) f b h = (a, refl, h)

-- The commit is there, and its tree is the recorded one.
abbrev pub CommitWarranted : Answers → List Job → Type 0
CommitWarranted answers jobs =
    (answers.ref_exists (validation_sha_of jobs) ≡ true)
    × (answers.tree_sha (validation_sha_of jobs)
        ≡ some (first_of (λ j. j.validation_tree_sha) jobs))

tree_check-some :
    (tree : Option String) (recorded : String) (so_far all : Recorded)
    → tree_check tree recorded so_far ≡ some all
    → none_of all.reasons ≡ true
    → (tree ≡ some recorded) × (none_of so_far.reasons ≡ true)
tree_check-some none recorded so_far all e h = absurd (ground arith)
tree_check-some (some current) recorded so_far all e h =
    let kept : none_of (record_plain validation_tree (current == recorded) so_far).reasons ≡ true =
      ap (λ o. none_of (reasons_of o)) e ∙ h in
    let (same, before) = unblocked_plain validation_tree (current == recorded) so_far kept in
    (ap some ((text_eq_iff current recorded).0 same), before)

found_of :
    (set found some_job : Bool)
    → set && not found ≡ false
    → set ≡ true
    → some_job ≡ true
    → found && some_job ≡ true
found_of set found some_job h s j = ground arith

abbrev noted : Answers → List Job → Recorded → Recorded
noted answers jobs so_far =
    record_check validation_commit_available (commit_exists answers jobs)
      (nonempty (validation_sha_of jobs) && not (commit_exists answers jobs)) so_far

exists_ref : (set exists : Bool) → set && exists ≡ true → exists ≡ true
exists_ref set exists h = ground arith

first_of_both : (a b : Bool) → a && b ≡ true → a ≡ true
first_of_both a b h = ground arith

pub commit_checks-some :
    (answers : Answers) (jobs : List Job) (so_far all : Recorded)
    → (none_of so_far.reasons ≡ true
        → (none_of jobs ≡ false) × (nonempty (validation_sha_of jobs) ≡ true))
    → commit_checks answers jobs so_far ≡ some all
    → none_of all.reasons ≡ true
    → (none_of so_far.reasons ≡ true) × CommitWarranted answers jobs
unfolding commit_checks
commit_checks-some answers jobs so_far all rows e h =
    let found : Bool = commit_exists answers jobs in
    let blocks : Bool = nonempty (validation_sha_of jobs) && not found in
    elim (Bool-cases (found && not (none_of jobs))) [
      | inl there ↦
          let checked : tree_check (answers.tree_sha (validation_sha_of jobs))
                (first_of (λ j. j.validation_tree_sha) jobs) (noted answers jobs so_far)
              ≡ some all =
            sym (rw (commit_checks, there) refl) ∙ e in
          let (tree, before) = tree_check-some _ _ (noted answers jobs so_far) all checked h in
          let start = (unblocked validation_commit_available found blocks so_far before).1 in
          (
            start,
            (exists_ref (nonempty (validation_sha_of jobs)) _ (first_of_both found _ there), tree),
          )
      | inr missing ↦
          let unchecked : some (noted answers jobs so_far) ≡ some all =
            sym (rw (commit_checks, missing) refl) ∙ e in
          let (open_commit, start) =
            unblocked validation_commit_available found blocks so_far
              (ap (λ o. none_of (reasons_of o)) unchecked ∙ h) in
          let (some_job, set) = rows start in
          let there : found && not (none_of jobs) ≡ true =
            found_of (nonempty (validation_sha_of jobs)) found _ open_commit set
              (ap not some_job) in
          absurd (ground (arith, there, missing))
    ]

-- The fingerprints of the restored commit have the recorded hash.
abbrev pub EnvironmentWarranted : Settings → Answers → List Job → Type 0
EnvironmentWarranted settings answers jobs =
    (answers.restored ≡ true)
    × ((found : List (String × String)) × (environment_values answers.fingerprint
            settings.policy.environment_fingerprints
          ≡ values found)
        × (answers.hashes.environment found ≡ first_of (λ j. j.validation_environment_sha) jobs))

environment_check-some :
    (hashes : Hashes) (recorded : String) (e : Environment) (so_far all : Recorded)
    → environment_check hashes recorded e so_far ≡ some all
    → none_of all.reasons ≡ true
    → ((found : List (String × String)) × (e ≡ values found)
        × (hashes.environment found ≡ recorded))
      × (none_of so_far.reasons ≡ true)
environment_check-some hashes recorded (values found) so_far all e h =
    let (same, before) =
      unblocked_plain environment (hashes.environment found == recorded) so_far
        (ap (λ o. none_of (reasons_of o)) e ∙ h) in
    ((found, refl, (text_eq_iff (hashes.environment found) recorded).0 same), before)
environment_check-some hashes recorded Environment.unavailable so_far all e h =
    let (same, before) =
      unblocked_plain environment false so_far (ap (λ o. none_of (reasons_of o)) e ∙ h) in
    absurd (ground (arith, same))
environment_check-some hashes recorded Environment.busy so_far all e h = absurd (ground arith)

no_reasons : (a b : Bool) → not a || b ≡ true → a ≡ true → b ≡ true
no_reasons a b h x = ground arith

pub environment_checks-some :
    (settings : Settings) (answers : Answers) (jobs : List Job) (so_far all : Recorded)
    → (none_of so_far.reasons ≡ true → none_of jobs ≡ false)
    → environment_checks settings answers jobs so_far ≡ some all
    → none_of all.reasons ≡ true
    → (none_of so_far.reasons ≡ true) × EnvironmentWarranted settings answers jobs
unfolding environment_checks
environment_checks-some settings answers jobs so_far all rows e h =
    elim (Bool-cases (not (none_of so_far.reasons) || none_of jobs)) [
      | inl left_out ↦
          let same : some (not_checked so_far) ≡ some all =
            sym (rw (environment_checks, left_out) refl) ∙ e in
          let start : none_of so_far.reasons ≡ true = ap (λ o. none_of (reasons_of o)) same ∙ h in
          absurd (
            ground (
              arith,
              rows start,
              no_reasons (none_of so_far.reasons) (none_of jobs) left_out start,
            ))
      | inr goes ↦ elim (Bool-cases answers.restored) [
        | inr unrestored ↦
            let same : some (not_checked (record so_far { reasons = not_restored ∷ [] }))
                ≡ some all =
              sym (rw (environment_checks, goes, unrestored) refl) ∙ e in
            absurd (ground (arith, ap (λ o. none_of (reasons_of o)) same, h))
        | inl restored ↦ elim (Bool-cases answers.cleaned) [
          | inr dirty ↦
              let same : none ≡ some all =
                sym (rw (environment_checks, goes, restored, dirty) refl) ∙ e in
              absurd (ground (arith, same))
          | inl cleaned ↦
              let checked : environment_check answers.hashes
                    (first_of (λ j. j.validation_environment_sha) jobs)
                    (environment_values answers.fingerprint
                      settings.policy.environment_fingerprints)
                    so_far
                  ≡ some all =
                sym (rw (environment_checks, goes, restored, cleaned) refl) ∙ e in
              let (found, start) = environment_check-some answers.hashes _ _ so_far all checked h in
              (start, (restored, found))
        ]
      ]
    ]

pub decided-some :
    (settings : Settings) (answers : Answers) (jobs : List Job) (base : String) (all : Recorded)
    (decision : ReuseDecision)
    → decided settings answers jobs base all ≡ some decision
    → (none_of all.reasons ≡ decision.eligible) × (validation_sha_of jobs ≡ decision.validation_sha)
unfolding decided
decided-some settings answers jobs base all decision e =
    elim (Bool-cases (
      has_error (
        if none_of all.reasons
        then decision_paths answers.diffs base (validation_sha_of jobs) settings.gates
        else changed []))) [
          | inl error ↦
              let same : none ≡ some decision = sym (rw (decided, error) refl) ∙ e in
              absurd (ground (arith, same))
          | inr ok ↦ (
            sym (rw (decided, ok) refl) ∙ ap is_eligible e,
            sym (rw (decided, ok) refl) ∙ ap sha_of e,
          )
        ]
