-- ===== src/Reconcile/Run.antt =====
-- Reconciliation (src/mergetrain/recovery.py, reconcile).
pub mod Preview
pub mod Evidence
use mergetrain.Prelude.{
  ℕ, ◌+◌, Bool, true, false, not, ◌&&◌, ◌||◌, Option, none, some, List, [], ◌∷◌, ◌++◌, String, ltb,
  if◌then◌else◌, ◌==◌, nat_column, text_column, nonempty, exists_where, select, elem, count_where,
}
use mergetrain.Model.{
  Job, Status, status_column, RunnerLock, needs_reconcile, blocked, deployed, queued, canceled,
  in_progress, is_reconcile_conflict, has_marker,
}
use mergetrain.Store.{
  Store, Env, Outcome, ok, err, M, ◌>>=◌, ◌>>◌, return, reads, modify, require, or_raise,
  has_status, lock_held, remote_unreachable,
}
use mergetrain.Leases.{
  ClaimPlan, Takeover, refuse, split, clear, free, lock_takeover, stranded_claim_plan,
  acquire_runner_lock, release_runner_lock,
}
use mergetrain.Reconcile.Git.{Git}
use mergetrain.Reconcile.Verdict.{JobDecision}
use mergetrain.Reconcile.Apply.{apply}
use mergetrain.Reconcile.Groups.{group_by_target, classify_groups}

-- What other processes commit before the lock is taken, while the remote is asked, and before the
-- verdict on each job is written.
pub record Races : Type 0 where
  pub acquiring : Store → Store
  pub asking : Store → Store
  pub writing : ℕ → Store → Store

pub record ReconcileOutcome : Type 0 where
  pub decisions : List JobDecision
  pub applied_ids : List ℕ
  pub deleted_pins : List ℕ
  pub applied : Bool
  pub reconciled_deployed : ℕ
  pub requeued : ℕ
  pub canceled_jobs : ℕ
  pub conflicts : ℕ
  pub exit_code : ℕ
  pub stranded : List ClaimPlan

abbrev decided : Status → JobDecision → Bool
decided st d = d.decision == st

-- _summarize, and the exit code
abbrev pub outcome :
    List JobDecision → List JobDecision → List ℕ → List ℕ → Bool → List ClaimPlan → ReconcileOutcome
outcome decisions counted ids pins applied stranded = record {
  decisions = decisions;
  applied_ids = ids;
  deleted_pins = pins;
  applied = applied;
  reconciled_deployed = count_where (decided deployed) counted;
  requeued = count_where (decided queued) counted;
  canceled_jobs = count_where (decided canceled) counted;
  conflicts = count_where (decided blocked) counted;
  exit_code = if ltb 0 (count_where (decided blocked) counted) then 10 else 0;
  stranded = stranded;
}

-- sorted(jobs, key=lambda job: job.id)
unfoldable pub insert_by_id : Job → List Job → List Job
insert_by_id j [] = j ∷ []
insert_by_id j (k ∷ ks) =
    let rest = insert_by_id j ks in if ltb k.id j.id then k ∷ rest else j ∷ k ∷ ks

unfoldable pub sort_by_id : List Job → List Job
unfolding insert_by_id
sort_by_id [] = []
sort_by_id (j ∷ js) = insert_by_id j (sort_by_id js)

abbrev pub is_checkable : Job → Bool
is_checkable j = is_reconcile_conflict j && nonempty j.pending_deploy_destination_sha

abbrev pub will_be_parked : Job → Bool
will_be_parked j = has_status in_progress j && has_marker j

abbrev pub is_nil {ℓ} : {A : Type ℓ} → List A → Bool
is_nil [] = true
is_nil (x ∷ xs) = false

-- The parked jobs, the conflicts that can be checked again, and for a preview the claims that the
-- split would park.
unfoldable pub jobs_to_check : Bool → List ClaimPlan → Store → List Job
unfolding sort_by_id
jobs_to_check applied stranded s = sort_by_id (
    select (has_status needs_reconcile) s.jobs
    ++ (select is_checkable s.jobs
        ++ (if applied || is_nil stranded then [] else select will_be_parked s.jobs)))

-- The jobs whose verdict was written, and the pins that were deleted.
unfoldable pub apply_all : Env → Git → (ℕ → Store → Store) → List JobDecision → M (List ℕ × List ℕ)
apply_all env git writing [] = return ([], [])
apply_all env git writing (d ∷ ds) = do
  modify (writing d.job.id)
  (written, pins) ← apply env git d
  (ids, more) ← apply_all env git writing ds
  return (if written then d.job.id ∷ ids else ids, pins ++ more)

-- `[decisions_by_id[job.id] for job in jobs]`
unfoldable pub in_order : List Job → List JobDecision → List JobDecision
in_order [] ds = []
in_order (j ∷ js) ds = select (λ d. d.job.id == j.id) ds ++ in_order js ds

unfoldable pub write_all :
    Env → Git → Races → Bool → List ClaimPlan → List JobDecision → M ReconcileOutcome
write_all env git races true stranded ds = do
  (ids, pins) ← apply_all env git races.writing ds
  return (outcome ds (select (λ d. elem d.job.id ids) ds) ids pins true stranded)
write_all env git races false stranded ds = return (outcome ds ds [] [] false stranded)

-- What is done under the lock, or without it by a preview.
unfoldable pub reconcile_locked : Env → Git → Races → Bool → List ClaimPlan → M ReconcileOutcome
reconcile_locked env git races applied stranded = do
  jobs ← reads (jobs_to_check applied stranded)
  if is_nil jobs then return (outcome [] [] [] [] applied stranded) else (do
    require (not (exists_where (λ j. git.push_in_flight j.pending_deploy_sha) jobs)) lock_held
    require (not (exists_where (λ j. not (nonempty j.pending_deploy_destination_sha)) jobs))
        remote_unreachable
    modify races.asking
    decisions ← or_raise remote_unreachable (classify_groups git (group_by_target git [] jobs))
    write_all env git races applied stranded (in_order jobs decisions))

-- `try: ... finally: release_runner_lock(...)`
abbrev pub releasing : Env → RunnerLock → M ReconcileOutcome → M ReconcileOutcome
releasing env lock body s = elim (body s) [
  | ok o t ↦ elim (release_runner_lock env env.default_owner lock.token t) [
    | ok _ u ↦ ok o u
    | err e u ↦ err e u
  ]
  | err e t ↦ elim (release_runner_lock env env.default_owner lock.token t) [
    | ok _ u ↦ err e u
    | err f u ↦ err f u
  ]
]

abbrev is_refuse : Takeover → Bool
is_refuse refuse = true
is_refuse split = false
is_refuse clear = false
is_refuse free = false

abbrev stranded_for : Takeover → Store → List ClaimPlan
stranded_for split s = stranded_claim_plan s
stranded_for refuse s = []
stranded_for clear s = []
stranded_for free s = []

unfoldable pub reconcile : Env → Git → Races → ℕ → Bool → M ReconcileOutcome
reconcile env git races ttl_minutes applied = do
  action ← reads (lock_takeover env)
  require (not (is_refuse action)) lock_held
  stranded ← reads (stranded_for action)
  if applied
      then (do
        modify races.acquiring
        lock ← acquire_runner_lock env env.default_owner ttl_minutes "" ""
        releasing env lock (reconcile_locked env git races applied stranded))
      else reconcile_locked env git races applied stranded
