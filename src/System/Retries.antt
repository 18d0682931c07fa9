-- ===== src/System/Retries.antt =====
-- The retry of a job keeps the queue well formed: its replacement enters as the original leaves.
use mergetrain.Prelude.{
  ℕ, ◌+◌, ◌≡◌, ◌≤◌, ◌<◌, refl, Bool, true, false, not, ◌&&◌, ◌||◌, Option, none, some, List, [],
  ◌∷◌, ◌++◌, String, arith, All, inl, inr, first, count_where, update_where, if◌then◌else◌, ltb,
  ◌==◌, nat_column, text_column, Bool-cases, nonempty, is_some, nat_eq_refl,
}
use mergetrain.Prelude.RowLaws.{update_where-append, update_where-none}
use mergetrain.Model.{Job, Status, status_column, is_reconcile_conflict}
use mergetrain.Store.{
  Store, Env, ok, M, find_job, by_id, has_status, update_jobs, require_then, or_raise_then, ◌>>◌,
  queue_error, immediate, immediate_cases, find_job-by_id,
}
use mergetrain.Jobs.Reads.{active_on, refuse_reconcile_conflict, is_dismissable}
use mergetrain.Jobs.Enqueue.{refuse_duplicate}
use mergetrain.Jobs.Enqueue.Unique.{first-by_id-IdsBelow}
use mergetrain.Jobs.Retry.{
  Retry, given, replacement_worktree, retried_job, replacement_branch, dismissed, other_active_id,
  retry_in_transaction, retry_job,
}
use mergetrain.System.WellFormed.{WellFormed, append-WellFormed, update_jobs-WellFormed}
use mergetrain.System.Updates.{dismissed-SafeUpdate}
use mergetrain.System.Operations.{Safe, statements}

no_row :
    (k : ℕ) (st : Status) (js : List Job)
    → count_where (by_id k) js ≡ 0
    → All (λ j. by_id k j ≡ true → j.status ≡ st) js
unfolding count_where
no_row k st [] h = tt
no_row k st (j ∷ js) h = (λ e. ground arith, no_row k st js (ground arith))

-- Under distinct keys, a row with the key is the row that the key finds.
only_row :
    (k : ℕ) (o : Job) (js : List Job)
    → count_where (by_id k) js ≤ 1
    → first (by_id k) js ≡ some o
    → All (λ j. by_id k j ≡ true → j.status ≡ o.status) js
unfolding count_where first
only_row k o [] one found = tt
only_row k o (j ∷ js) one found = elim (Bool-cases (by_id k j)) [
  | inl key ↦ (λ e. ground arith, no_row k o.status js (ground arith))
  | inr other ↦ (λ e. ground arith, only_row k o js (ground arith) (ground arith))
]

abbrev is_original : ℕ → Status → Job → Bool
is_original k st j = by_id k j && has_status st j

leaves_branch :
    (env : Env) (branch : String) (k n : ℕ) (st : Status) (j : Job)
    → (by_id k j ≡ true → j.status ≡ st)
    → (active_on branch j && not (j.id == k)) ≡ false
    → active_on branch (if is_original k st j then dismissed env n j else j) ≡ false
leaves_branch env branch k n st j same free = elim (Bool-cases (by_id k j)) [
  | inl key ↦ ground (arith, same key)
  | inr other ↦ rw other (ground arith)
]

-- The branch is free once the original is dismissed.
branch_free :
    (env : Env) (branch : String) (k n : ℕ) (st : Status) (js : List Job)
    → All (λ j. by_id k j ≡ true → j.status ≡ st) js
    → first (λ j. active_on branch j && not (j.id == k)) js ≡ none
    → first (active_on branch) (update_where (is_original k st) (dismissed env n) js) ≡ none
unfolding first update_where
branch_free env branch k n st [] same free = refl
branch_free env branch k n st (j ∷ js) same free =
    elim (Bool-cases (active_on branch j && not (j.id == k))) [
      | inl taken ↦ absurd (ground arith)
      | inr here ↦
          rw (leaves_branch env branch k n st j same.0 here)
            (branch_free env branch k n st js same.1 (ground arith))
    ]

-- The place that the replacement gets.
order_of : Retry → Job → ℕ → ℕ
order_of r original n =
    if r.preserve_order
    then (if ltb 0 original.queue_order then original.queue_order else original.id)
    else n

-- The rows after the three statements of a retry.
replaced : Env → ℕ → Retry → Job → Store → List Job
replaced env k r original s =
    update_where (is_original k original.status) (dismissed env s.next_id) (
      update_where (by_id s.next_id) (λ j. record j { queue_order = order_of r original s.next_id })
        (s.jobs ++ retried_job env r original s.next_id ∷ []))

abbrev Retried : Env → ℕ → Retry → Store → Store → Type 0
Retried env k r s t =
    (original : Job) × (find_job k s ≡ some original)
    × (other_active_id (replacement_branch r original) original.id s ≡ none)
    × (t ≡ record s { jobs = replaced env k r original s; next_id = s.next_id + 1 })

not_refused :
    (o : Option ℕ) (m : M ℕ) (s : Store) {n : ℕ} {t : Store}
    → (refuse_duplicate o >> m) s ≡ ok n t
    → (o ≡ none) × (m s ≡ ok n t)
not_refused none m s h = (refl, h)
not_refused (some other) m s h = absurd (ground arith)

retry_in_transaction-Retried :
    (env : Env) (k : ℕ) (r : Retry) (s : Store) {n : ℕ} {t : Store}
    → retry_in_transaction env k r s ≡ ok n t
    → Retried env k r s t
unfolding retry_in_transaction replaced order_of refuse_reconcile_conflict
retry_in_transaction-Retried env k r s h =
    let (original, found, h₁) = or_raise_then queue_error (find_job k s) _ s h in
    let (dismissable, h₂) = require_then (is_dismissable original) queue_error _ s h₁ in
    let (forced, h₃) =
      require_then (r.force || not (is_reconcile_conflict original)) queue_error _ s h₂ in
    let (named, h₄) =
      require_then
        (nonempty (replacement_branch r original)
          && not (is_some r.branch && not (nonempty (replacement_worktree r original))))
        queue_error _ s h₃ in
    let (approved, h₅) =
      require_then
        (not r.renew_auto
          || (given r.current_approval_destination_sha
              && given r.current_approval_execution_policy_sha))
        queue_error _ s h₄ in
    let (free, h₆) =
      not_refused (other_active_id (replacement_branch r original) original.id s) _ s h₅ in
    (original, found, free, ground arith)

module _ (env : Env) (k : ℕ) (r : Retry) (original : Job) (s : Store) (w : WellFormed s)
    (found : find_job k s ≡ some original)
    (free : other_active_id (replacement_branch r original) original.id s ≡ none) where
  replacement : Job
  replacement = record (retried_job env r original s.next_id) {
    queue_order = order_of r original s.next_id;
  }

  without_original : Store
  without_original = update_jobs (is_original k original.status) (dismissed env s.next_id) s

  old_key : k < s.next_id
  unfolding find_job
  old_key = ground (arith, first-by_id-IdsBelow s.next_id k s.jobs w.ids)

  ordered_rows :
      update_where
        (by_id s.next_id)
        (λ j. record j { queue_order = order_of r original s.next_id })
        (s.jobs ++ retried_job env r original s.next_id ∷ [])
      ≡ s.jobs ++ replacement ∷ []
  unfolding update_where replacement
  ordered_rows =
      rw
        (update_where-append (by_id s.next_id)
          (λ j. record j { queue_order = order_of r original s.next_id }) s.jobs)
        (rw
          (update_where-none (by_id s.next_id) _ s.jobs
            (first-by_id-IdsBelow _ _ s.jobs w.ids (omega arith)))
          (rw (nat_eq_refl s.next_id)))

  not_original : is_original k original.status replacement ≡ false
  unfolding replacement
  not_original = ground (arith, old_key)

  replaced_rows : replaced env k r original s ≡ without_original.jobs ++ replacement ∷ []
  unfolding replaced replacement without_original update_where
  replaced_rows = rw ordered_rows (
      rw (update_where-append (is_original k original.status) (dismissed env s.next_id) s.jobs)
        (rw not_original refl))

  original_id : original.id ≡ k
  original_id = ground (arith, find_job-by_id k s original found)

  branch_left : first (active_on replacement.branch) without_original.jobs ≡ none
  unfolding other_active_id find_job replacement without_original
  branch_left =
      branch_free env (replacement_branch r original) k s.next_id original.status s.jobs
        (only_row k original s.jobs (w.distinct k) found) (rw (← original_id) (ground arith))

  retried-WellFormed :
      WellFormed (record s { jobs = replaced env k r original s; next_id = s.next_id + 1 })
  unfolding without_original replacement
  retried-WellFormed = rw replaced_rows (
      append-WellFormed without_original replacement
        (update_jobs-WellFormed _ _
          (dismissed-SafeUpdate env (is_original k original.status) s.next_id) s w)
        refl (record { unclaimed = λ h. refl; fresh = λ h. (refl, refl); settled = λ h. refl })
        branch_left)

retry_transaction-Safe :
    (env : Env) (k : ℕ) (r : Retry) → Safe (immediate env (retry_in_transaction env k r))
retry_transaction-Safe env k r = record {
  after = λ s w. elim (immediate_cases env (retry_in_transaction env k r) s) [
    | inl (e, refused) ↦ rw refused w
    | inr (n, t, done, ran) ↦
        let (original, found, free, at) = retry_in_transaction-Retried env k r s ran in
        rw (done, at) (retried-WellFormed env k r original s w found free)
  ];
}

pub retry_job-Safe : (env : Env) (k : ℕ) (r : Retry) → Safe (retry_job env k r)
unfolding retry_job
retry_job-Safe env k r = search (statements, retry_transaction-Safe) depth 20
