-- ===== src/Reuse/Decide/Warranted.antt =====
-- An eligible decision: what the rows, git and the fingerprints say where decide lets a deploy reuse
-- the validation.
use mergetrain.Prelude.{true, false, some, List, String, nonempty, text_column, ◌≡◌, sym, ◌∙◌}
use mergetrain.Model.{Job}
use mergetrain.Gates.Config.{none_of}
use mergetrain.Reuse.Rows.{
  Recorded, ReuseDecision, Settings, Answers, row_checks, validation_sha_of,
}
use mergetrain.Reuse.Rows.Unblocked.{RowsWarranted, row_checks-RowsWarranted}
use mergetrain.Reuse.Decide.{commit_checks, environment_checks, decide}
use mergetrain.Reuse.Decide.Steps.{
  bound-some, CommitWarranted, commit_checks-some, EnvironmentWarranted, environment_checks-some,
  decided-some,
}

-- An eligible decision: the rows belong to one whole train, which was validated on this integration
-- base, is the train that was hashed, under the policy of this configuration and within the age; the
-- validated commit exists with the recorded tree; and the fingerprints, run on the restored commit,
-- give the recorded hash.
pub decide-Warranted :
    (settings : Settings) (answers : Answers) (jobs : List Job) (integration_base_sha : String)
    (decision : ReuseDecision)
    → decide settings answers jobs integration_base_sha ≡ some decision
    → decision.eligible ≡ true
    → RowsWarranted settings answers jobs integration_base_sha
      × CommitWarranted answers jobs
      × EnvironmentWarranted settings answers jobs
      × (decision.validation_sha ≡ validation_sha_of jobs)
unfolding decide
decide-Warranted settings answers jobs base decision e h =
    let rows : Recorded = row_checks settings answers jobs base in
    let (commits, found, after) = bound-some (commit_checks answers jobs rows) _ decision e in
    let (all, checked, last) =
      bound-some (environment_checks settings answers jobs commits) _ decision after in
    let (eligible, sha) = decided-some settings answers jobs base all decision last in
    let warranted : none_of rows.reasons ≡ true → RowsWarranted settings answers jobs base =
      row_checks-RowsWarranted settings answers jobs base in
    let known : none_of rows.reasons ≡ true
        → (none_of jobs ≡ false) × (nonempty (validation_sha_of jobs) ≡ true) =
      λ start. ((warranted start).0, (warranted start).3) in
    let commit : none_of commits.reasons ≡ true
        → (none_of rows.reasons ≡ true) × CommitWarranted answers jobs =
      commit_checks-some answers jobs rows commits known found in
    let (clear, environment_kept) =
      environment_checks-some settings answers jobs commits all
        (λ start. (known (commit start).0).0) checked (eligible ∙ h) in
    (warranted (commit clear).0, (commit clear).1, environment_kept, sym sha)
