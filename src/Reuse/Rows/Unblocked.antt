-- ===== src/Reuse/Rows/Unblocked.antt =====
-- The checks on the rows that gave no reason: what holds of the rows.
use mergetrain.Prelude.{
  ℕ, ◌*◌, ◌-◌, ◌≤◌, Bool, true, false, not, ◌&&◌, none, some, List, [], ◌∷◌, ◌++◌, String, nonempty,
  length, ◌==◌, text_column, ◌≡◌, refl, sym, ◌∙◌, arith, All, text_eq_iff,
}
use mergetrain.Model.{Job, Stamp}
use mergetrain.Gates.Config.{none_of}
use mergetrain.Reuse.Identity.{Hashes, current_identity, is_young}
use mergetrain.Reuse.Rows.{
  Code, Recorded, Settings, Answers, record_check, record_plain, row_checks, Test, row_tests,
  record_all, authorized_check, first_of, first_stamp, only_text, values_of, is_member_train,
  is_on_base, is_shared, is_whole_train, is_one, validation_sha_of, train_sha_of,
}
use mergetrain.Reuse.Rows.Sets.{
  Agree, Shared, values_of-Agree, is_shared-Shared, is_whole_train-All,
}

some_last : {A : Type 0} (xs : List A) (x : A) → none_of (xs ++ x ∷ []) ≡ false
some_last [] x = refl
some_last (y ∷ ys) x = refl

-- A check after which there is no reason did not block, and there was none before it.
pub unblocked :
    (code : Code) (matches blocks : Bool) (so_far : Recorded)
    → none_of (record_check code matches blocks so_far).reasons ≡ true
    → (blocks ≡ false) × (none_of so_far.reasons ≡ true)
unfolding record_check
unblocked code matches true so_far h =
    absurd (ground (arith, some_last so_far.reasons (mergetrain.Reuse.Rows.mismatch code)))
unblocked code matches false so_far h = (refl, h)

pub unblocked_plain :
    (code : Code) (matches : Bool) (so_far : Recorded)
    → none_of (record_plain code matches so_far).reasons ≡ true
    → (matches ≡ true) × (none_of so_far.reasons ≡ true)
unblocked_plain code matches so_far h =
    let (open_check, before) = unblocked code matches (not matches) so_far h in
    (ground arith, before)

record_all-both :
    (ts : List Test) (so_far : Recorded)
    → none_of (record_all ts so_far).reasons ≡ true
    → All (λ t. t.blocks ≡ false) ts × (none_of so_far.reasons ≡ true)
unfolding record_all
record_all-both [] so_far h = (tt, h)
record_all-both (t ∷ ts) so_far h =
    let (later, now) = record_all-both ts (record_check t.code t.matches t.blocks so_far) h in
    let (here, before) = unblocked t.code t.matches t.blocks so_far now in ((here, later), before)

-- Where a list of checks gives no reason, none of them blocked.
record_all-unblocked :
    (ts : List Test) (so_far : Recorded)
    → none_of (record_all ts so_far).reasons ≡ true
    → All (λ t. t.blocks ≡ false) ts
unfolding record_all
record_all-unblocked ts so_far h = (record_all-both ts so_far h).0

matched_plain : (b : Bool) → not b ≡ false → b ≡ true
matched_plain b h = ground arith

-- The stamp is not in the future and at most this old.
abbrev pub Young : ℕ → Stamp → ℕ → Type 0
Young now stamp max_age_minutes =
    (t : ℕ) × (stamp ≡ some t) × (t ≤ now) × (now - t ≤ max_age_minutes * 60)

is_young-Young :
    (now : ℕ) (stamp : Stamp) (max_age_minutes : ℕ)
    → is_young now stamp max_age_minutes ≡ true
    → Young now stamp max_age_minutes
unfolding is_young
is_young-Young now none max_age_minutes h = absurd (ground arith)
is_young-Young now (some t) max_age_minutes h = (t, refl, ground arith, ground arith)

-- What the rows say of a train whose validation may be reused on this base.
abbrev pub RowsWarranted : Settings → Answers → List Job → String → Type 0
RowsWarranted settings answers jobs base =
    (none_of jobs ≡ false)
    × ((train_id : String) × (nonempty train_id ≡ true) × Agree (λ j. j.train_id) train_id jobs)
    × All (λ j. j.train_size ≡ length jobs) jobs
    × (nonempty (validation_sha_of jobs) ≡ true)
    × Agree (λ j. j.validation_sha) (validation_sha_of jobs) jobs
    × (first_of (λ j. j.validation_base_sha) jobs ≡ base)
    × (answers.hashes.train (current_identity jobs) ≡ first_of (λ j. j.validation_train_sha) jobs)
    × (answers.hashes.policy settings.policy ≡ first_of (λ j. j.validation_gate_policy_sha) jobs)
    × Young answers.now (first_stamp jobs) settings.max_age_minutes
    × Shared (λ j. j.validation_tree_sha) jobs
    × Shared (λ j. j.validation_gate_policy_sha) jobs
    × Shared (λ j. j.validation_environment_sha) jobs
    × Shared (λ j. j.validation_train_sha) jobs

not_changed :
    (some_job : Bool) (recorded current : String)
    → some_job && not (current == recorded) ≡ false
    → some_job ≡ true
    → current ≡ recorded
not_changed some_job recorded current h j = (text_eq_iff current recorded).0 (ground arith)

train_sha :
    (hashes : Hashes) (jobs : List Job)
    → none_of jobs ≡ false
    → train_sha_of hashes jobs ≡ hashes.train (current_identity jobs)
train_sha hashes [] h = absurd (ground arith)
train_sha hashes (job ∷ jobs) h = refl

both : (a b : Bool) → a && b ≡ true → (a ≡ true) × (b ≡ true)
both a b h = (ground arith, ground arith)

pub negated : (b : Bool) → not b ≡ true → b ≡ false
negated b h = ground arith

not_blocked : (some_job test : Bool) → some_job && not test ≡ false → some_job ≡ true → test ≡ true
not_blocked some_job test h j = ground arith

on_this_base :
    (base : String) (jobs : List Job)
    → is_on_base base jobs ≡ true
    → first_of (λ j. j.validation_base_sha) jobs ≡ base
unfolding is_on_base
on_this_base base jobs h =
    let same : (first_of (λ j. j.validation_base_sha) jobs == base) ≡ true = ground arith in
    (text_eq_iff (first_of (λ j. j.validation_base_sha) jobs) base).0 same

pub row_checks-RowsWarranted :
    (settings : Settings) (answers : Answers) (jobs : List Job) (base : String)
    → none_of (row_checks settings answers jobs base).reasons ≡ true
    → RowsWarranted settings answers jobs base
unfolding row_checks row_tests is_member_train validation_sha_of
row_checks-RowsWarranted settings answers jobs base h =
    let (
      members,
      (
        whole,
        (
          one_commit,
          (
            on_base,
            (train_kept, (policy_kept, (age, (tree, (policy, (environment, (train, done))))))),
          ),
        ),
      ),
    ) =
      record_all-unblocked (row_tests settings answers jobs base) authorized_check h in
    let (any, one_train) = both _ _ (matched_plain _ members) in
    let some_job : none_of jobs ≡ false = negated _ any in
    let train_id = values_of-Agree (λ j. j.train_id) jobs one_train in
    let commit = values_of-Agree (λ j. j.validation_sha) jobs (matched_plain _ one_commit) in
    (
      some_job,
      (only_text (values_of (λ j. j.train_id) jobs), train_id.0, train_id.1),
      is_whole_train-All jobs (matched_plain _ whole),
      commit.0,
      commit.1,
      on_this_base base jobs (matched_plain _ on_base),
      sym (train_sha answers.hashes jobs some_job) ∙ not_changed _ _ _ train_kept any,
      not_changed _ _ _ policy_kept any,
      is_young-Young answers.now (first_stamp jobs) settings.max_age_minutes
          (not_blocked _ _ age any),
      is_shared-Shared _ jobs (matched_plain _ tree),
      is_shared-Shared _ jobs (matched_plain _ policy),
      is_shared-Shared _ jobs (matched_plain _ environment),
      is_shared-Shared _ jobs (matched_plain _ train),
    )
