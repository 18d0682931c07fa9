-- ===== src/Jobs/Mark/Fence.antt =====
-- What a status write does: which row it needs, what it writes there, and that it writes nowhere else.
use mergetrain.Prelude.{
  ◌≢◌, ◌⊎◌, text_eq_iff, text_column, ℕ, ◌≡◌, refl, Bool, true, false, ◌||◌, Option, none, some,
  List, String, arith, count_where, if◌then◌else◌, ◌==◌, nat_column, Each, Each-trans, ap,
  keep_text,
}
use mergetrain.Model.{
  Job, Status, status_column, in_progress, deployed, needs_reconcile, queued, canceled,
  no_validation, no_deployment, no_marker, PushStatus, VerifyStatus,
}
use mergetrain.Store.{
  Store, Env, ok, immediate_cases, find_job-first, update_jobs, by_id, find_job, get_job, Distinct,
  the_row, find_job-update_jobs, find_job-by_id, Frame, Frame-trans, Frame-update_where,
}
use mergetrain.Jobs.Mark.{
  Marking, mark_columns, mark_guard, clear_deployment, clear_attempt, mark_in_transaction, mark_job,
}

-- The row that a status write leaves.
unfoldable pub marked : Env → Marking → Job → Job
marked env m j =
    let j₁ = mark_columns env m j in
    let j₂ = if m.status == queued || m.status == canceled then clear_deployment j₁ else j₁ in
    if m.status == queued then clear_attempt j₂ else j₂

-- The store after the three statements.
unfoldable pub written : Env → ℕ → Marking → Option String → Option Status → Store → Store
written env k m token expected s =
    let s₁ = update_jobs (mark_guard k m.status token expected) (mark_columns env m) s in
    let s₂ =
      if m.status == queued || m.status == canceled
      then update_jobs (by_id k) clear_deployment s₁
      else s₁ in
    if m.status == queued then update_jobs (by_id k) clear_attempt s₂ else s₂

pub mark_in_transaction-ok :
    (env : Env) (k : ℕ) (m : Marking) (token : Option String) (expected : Option Status) (s : Store)
    {t : Store}
    → mark_in_transaction env k m token expected s ≡ ok tt t
    → (count_where (mark_guard k m.status token expected) s.jobs ≡ 1)
      × (t ≡ written env k m token expected s)
unfolding mark_in_transaction written
mark_in_transaction-ok env k m token expected s h = ground arith

pub guard-by_id :
    (k : ℕ) (st : Status) (token : Option String) (expected : Option Status) (j : Job)
    → mark_guard k st token expected j ≡ true
    → by_id k j ≡ true
unfolding mark_guard
guard-by_id k st token expected j h = ground arith

mark_columns-id : (env : Env) (m : Marking) (j : Job) → (mark_columns env m j).id ≡ j.id
unfolding mark_columns
mark_columns-id env m j = refl

-- The row under the key after the three statements.
pub find_job-written :
    (env : Env) (k : ℕ) (m : Marking) (token : Option String) (expected : Option Status) (s : Store)
    (j : Job)
    → find_job k s ≡ some j
    → mark_guard k m.status token expected j ≡ true
    → find_job k (written env k m token expected s) ≡ some (marked env m j)
unfolding written marked
find_job-written env k m token expected s j found guard =
    let s₁ : Store = update_jobs (mark_guard k m.status token expected) (mark_columns env m) s in
    let s₂ : Store = update_jobs (by_id k) clear_deployment s₁ in
    ground (
      arith,
      find_job-update_jobs k (mark_guard k m.status token expected) (mark_columns env m)
          (mark_columns-id env m) s,
      find_job-update_jobs k (by_id k) clear_deployment (λ j. refl) s₁,
      find_job-update_jobs k (by_id k) clear_attempt (λ j. refl) s₁,
      find_job-update_jobs k (by_id k) clear_attempt (λ j. refl) s₂,
      find_job-by_id k s j found,
      mark_columns-id env m j,
    )

pub mark_job-ok :
    (env : Env) (k : ℕ) (m : Marking) (token : Option String) (expected : Option Status) (s : Store)
    {j : Job} {t : Store}
    → mark_job env k m token expected s ≡ ok j t
    → (mark_in_transaction env k m token expected s ≡ ok tt t) × (find_job k t ≡ some j)
unfolding mark_job get_job
mark_job-ok env k m token expected s h =
    ground (arith, immediate_cases env (mark_in_transaction env k m token expected) s)

update_if-Frame :
    (k : ℕ) (test : Bool) (f : Job → Job) (s : Store) (js : List Job)
    → ((j : Job) → (f j).id ≡ j.id)
    → Each (Frame k) js s.jobs
    → Each (Frame k) js (if test then update_jobs (by_id k) f s else s).jobs
update_if-Frame k true f s js same h =
    Each-trans (Frame k) (Frame-trans k) js s.jobs _ h
      (Frame-update_where k (by_id k) f same (λ j hit. hit) s.jobs)
update_if-Frame k false f s js same h = h

written-Frame :
    (env : Env) (k : ℕ) (m : Marking) (token : Option String) (expected : Option Status) (s : Store)
    → Each (Frame k) s.jobs (written env k m token expected s).jobs
unfolding written
written-Frame env k m token expected s =
    update_if-Frame k (m.status == queued) clear_attempt _ s.jobs (λ j. refl)
      (update_if-Frame k (m.status == queued || m.status == canceled) clear_deployment _ s.jobs
        (λ j. refl)
        (Frame-update_where k (mark_guard k m.status token expected) (mark_columns env m)
          (mark_columns-id env m) (guard-by_id k m.status token expected) s.jobs))

-- What the fence of a status write asks of the row: to be in progress under the claim token that is
-- given, with no cancel request in the way, and in the expected status that is given.
pub record IsFenced (st : Status) (token : Option String) (expected : Option Status) (old : Job)
    : Type 0 where
  pub under_claim :
      (t : String) → token ≡ some t → (old.status ≡ in_progress) × (old.claim_token ≡ t)
  pub not_canceled :
      (t : String)
      → token ≡ some t
      → st ≢ canceled
      → st ≢ deployed
      → st ≢ needs_reconcile
      → old.cancel_requested_at ≡ none
  pub in_source : (source : Status) → expected ≡ some source → old.status ≡ source

guard-IsFenced :
    (k : ℕ) (st : Status) (token : Option String) (expected : Option Status) (old : Job)
    → mark_guard k st token expected old ≡ true
    → IsFenced st token expected old
unfolding mark_guard
guard-IsFenced k st token expected old h = record {
  under_claim = λ t given. ground (arith, text_eq_iff old.claim_token t);
  not_canceled = λ t given a b c. ground arith;
  in_source = λ source given. ground arith;
}

-- Under distinct keys, a status write that returns found the row of its job in the expected status,
-- if one was given, and, if a claim token was given, in progress under it, with no cancel request
-- unless the write cancels, deploys or parks the job. It returns that row as written, and left every
-- other row as it was.
pub mark_job-IsFenced :
    (env : Env) (k : ℕ) (m : Marking) (token : Option String) (expected : Option Status) (s : Store)
    {j : Job} {t : Store}
    → Distinct s.jobs
    → mark_job env k m token expected s ≡ ok j t
    → (old : Job) × (find_job k s ≡ some old)
      × IsFenced m.status token expected old
      × (j ≡ marked env m old)
      × Each (Frame k) s.jobs t.jobs
mark_job-IsFenced env k m token expected s {j} {t} distinct h =
    let (ran, read) = mark_job-ok env k m token expected s h in
    let (one, at) = mark_in_transaction-ok env k m token expected s ran in
    let (old, found, guard) =
      the_row k (mark_guard k m.status token expected) (guard-by_id k m.status token expected)
        s.jobs (distinct k) (omega arith) in
    (
      old,
      find_job-first k s old found,
      guard-IsFenced k m.status token expected old guard,
      ground (
        arith,
        find_job-written env k m token expected s old (find_job-first k s old found) guard,
        ap (find_job k) at,
      ),
      rw at (written-Frame env k m token expected s),
    )

-- The written row has the status given. A settled push, deployed, canceled or requeued, drops its
-- marker and any other status keeps it; a row that is not in progress has no claim. A requeued row has
-- no validation, no deployment, no cancel request, no start, no end and no deploy commit; its push and
-- its verification have not been run; its log path is the one given, or else the one before.
pub marked_settles :
    (env : Env) (m : Marking) (old : Job)
    → ((marked env m old).status ≡ m.status)
      × ((m.status ≡ deployed) ⊎ (m.status ≡ canceled) ⊎ (m.status ≡ queued)
          → (marked env m old).marker ≡ no_marker)
      × (m.status ≢ deployed
          → m.status ≢ canceled
          → m.status ≢ queued
          → (marked env m old).marker ≡ old.marker)
      × (m.status ≢ in_progress → (marked env m old).claim_token ≡ "")
      × (m.status ≡ queued
          → ((marked env m old).validation ≡ no_validation)
            × ((marked env m old).deployment ≡ no_deployment)
            × ((marked env m old).cancel_requested_at ≡ none)
            × ((marked env m old).started_at ≡ none)
            × ((marked env m old).deploy_sha ≡ "")
            × ((marked env m old).finished_at ≡ none)
            × ((marked env m old).push_status ≡ PushStatus.not_run)
            × ((marked env m old).verify_status ≡ VerifyStatus.not_run)
            × ((marked env m old).log_path ≡ keep_text m.log_path old.log_path))
unfolding marked mark_columns
marked_settles env m old = (
  ground arith,
  λ settled. ground arith,
  λ a b c. ground arith,
  λ ended. ground arith,
  λ requeued. ground arith,
)
