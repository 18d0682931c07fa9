-- ===== src/Leases.antt =====
-- The runner lock and the recovery of a stopped runner's claims
-- (src/mergetrain/persistence/leases.py). The liveness of a process is asked of the operating system
-- and enters with `Env`.
pub mod Split
pub mod Fencing
pub mod Acquired
use mergetrain.Prelude.{
  ℕ, suc, ◌+◌, ◌-◌, ◌≡◌, Bool, true, false, not, ◌&&◌, Option, none, some, List, [], ◌∷◌, String,
  ltb, leb, if◌then◌else◌, nonempty, keep, keep_text, ◌<>◌, is_some, select, count_where,
  exists_where, update_where, map, ◌==◌, nat_column, text_column,
}
use mergetrain.Model.{
  Job, Status, status_column, Stamp, RunnerLock, Liveness, alive, dead, unknown, queued,
  in_progress, canceled, needs_reconcile, PushStatus, VerifyStatus, no_validation, has_marker,
}
use mergetrain.Store.{
  Store, Env, Error, Outcome, ok, err, M, ◌>>=◌, ◌>>◌, return, raise, reads, modify, require,
  immediate, lock_held, lost_lease, cancellation_requested, update_jobs, has_status, utc_now,
  parse_utc, plus_minutes,
}

unfoldable pub in_progress_count : Store → ℕ
in_progress_count s = count_where (has_status in_progress) s.jobs

-- Nothing was pushed, so the cancel is honored offline.
abbrev pub is_canceled_orphan : Job → Bool
is_canceled_orphan j =
    has_status in_progress j && is_some j.cancel_requested_at && not (has_marker j)

abbrev pub cancel_orphan : Env → Job → Job
cancel_orphan env j = record j {
  status = canceled;
  finished_at = utc_now env;
  claim_token = "";
  note = if nonempty j.note then j.note else "canceled after previous runner stopped";
}

-- A push may have landed: only the remote can tell.
abbrev pub is_pushed_orphan : Job → Bool
is_pushed_orphan j = has_status in_progress j && has_marker j

abbrev pub park_orphan : Job → Job
park_orphan j = record j {
  status = needs_reconcile;
  claim_token = "";
  note = "parked for reconcile after previous runner stopped";
}

abbrev pub requeue_orphan : Job → Job
requeue_orphan j = record j {
  status = queued;
  started_at = none;
  claim_token = "";
  cancel_requested_at = none;
  note =
      if nonempty j.train_id
      then "re-queued by mergetrain (previous runner gone); validated train " <> j.train_id
        <> " was dissolved - validate and re-approve before deploying"
      else "re-queued by mergetrain (previous runner gone)";
  deploy_sha = "";
  push_status = PushStatus.not_run;
  verify_status = VerifyStatus.not_run;
  validation = no_validation;
}

-- The three statements of `_requeue_orphans`, in their order.
unfoldable pub requeue_orphans : Env → Store → Store
requeue_orphans env s =
    let s₁ = update_jobs is_canceled_orphan (cancel_orphan env) s in
    let s₂ = update_jobs is_pushed_orphan park_orphan s₁ in
    update_jobs (has_status in_progress) requeue_orphan s₂

-- One line of the preview of the split.
pub record ClaimPlan : Type 0 where
  pub job_id : ℕ
  pub branch : String
  pub train_id : String
  pub decision : Status

abbrev pub plan_claim : Job → ClaimPlan
plan_claim j = record {
  job_id = j.id;
  branch = j.branch;
  train_id = j.train_id;
  decision =
      if has_marker j
      then needs_reconcile
      else if is_some j.cancel_requested_at
      then canceled
      else queued;
}

unfoldable pub stranded_claim_plan : Store → List ClaimPlan
stranded_claim_plan s = map plan_claim (select (has_status in_progress) s.jobs)

-- leases.active_runner_lock
unfoldable pub active_runner_lock : Env → Store → Option RunnerLock
active_runner_lock env s = elim s.lock [
  | none ↦ none
  | some lock ↦
      let expired = leb (parse_utc lock.expires_at) env.now in
      if not (nonempty lock.token) then none else elim (env.owner_liveness lock.owner) [
        | alive ↦ some lock
        | unknown ↦ if expired then none else some lock
        | dead ↦ none
      ]
]

-- leases.live_worktree_path, with models.RunnerLock.live_worktree
pub live_worktree_path : Env → Store → Option String
live_worktree_path env s = elim s.lock [
  | none ↦ none
  | some lock ↦ elim (env.owner_liveness lock.owner) [
    | dead ↦ none
    | _ ↦ if nonempty lock.worktree_path then some lock.worktree_path else none
  ]
]

pub data Takeover : Type 0 where
  refuse split clear free : Takeover

-- leases.lock_takeover, without the wording of the refusal
unfoldable pub lock_takeover : Env → Store → Takeover
lock_takeover env s =
    let working = ltb 0 (in_progress_count s) in
    elim s.lock [
      | none ↦ if working then split else free
      | some lock ↦
          let held = ltb env.now (parse_utc lock.expires_at) in
          elim (env.owner_liveness lock.owner) [
            | dead ↦ split
            | _ ↦ if held then refuse else if working then refuse else clear
          ]
    ]

abbrev pub delete_lock : Store → Store
delete_lock s = record s { lock = none }

abbrev pub new_lock : Env → String → ℕ → String → String → RunnerLock
new_lock env owner ttl_minutes worktree_path head_sha = record {
  owner = owner;
  worktree_path = worktree_path;
  head_sha = head_sha;
  acquired_at = utc_now env;
  heartbeat_at = utc_now env;
  expires_at = plus_minutes env ttl_minutes;
  token = env.uuid;
}

abbrev pub clear_way : Env → Takeover → Store → Store
clear_way env refuse s = s
clear_way env split s = requeue_orphans env (delete_lock s)
clear_way env clear s = delete_lock s
clear_way env free s = s

abbrev pub take_lock : Env → RunnerLock → Takeover → M RunnerLock
take_lock env lock refuse s = err lock_held s
take_lock env lock action s = ok lock (record (clear_way env action s) { lock = some lock })

-- leases._acquire_runner_lock, inside the caller's transaction
unfoldable pub acquire_lock : Env → String → ℕ → String → String → M RunnerLock
acquire_lock env owner ttl_minutes worktree_path head_sha s =
    take_lock env
      (new_lock env (keep_text owner env.default_owner) ttl_minutes worktree_path head_sha)
      (lock_takeover env s) s

unfoldable pub acquire_runner_lock : Env → String → ℕ → String → String → M RunnerLock
acquire_runner_lock env owner ttl_minutes worktree_path head_sha =
    immediate env (acquire_lock env owner ttl_minutes worktree_path head_sha)

-- WHERE owner = ? AND token = ? AND (? IS NULL OR heartbeat_at = ?)
abbrev pub stamp_eq : Stamp → Stamp → Bool
stamp_eq none none = true
stamp_eq none (some _) = false
stamp_eq (some _) none = false
stamp_eq (some a) (some b) = a == b

abbrev heartbeat_is : Option Stamp → Stamp → Bool
heartbeat_is none at = true
heartbeat_is (some wanted) at = stamp_eq at wanted

abbrev pub owns : String → String → RunnerLock → Bool
owns owner token lock = lock.owner == owner && lock.token == token

abbrev pub holds : String → String → Store → Bool
holds owner token s = elim s.lock [ none ↦ false | some lock ↦ owns owner token lock ]

-- leases._release_lock_token
unfoldable pub release_lock_token : String → String → Option Stamp → M Bool
release_lock_token owner token heartbeat_at s = elim s.lock [
  | none ↦ ok false s
  | some lock ↦
      if owns owner token lock && heartbeat_is heartbeat_at lock.heartbeat_at
      then ok true (delete_lock s)
      else ok false s
]

unfoldable pub release_runner_lock : Env → String → String → M Bool
release_runner_lock env owner token = immediate env (release_lock_token owner token none)

abbrev pub renew : Env → ℕ → Option String → Option String → RunnerLock → RunnerLock
renew env ttl_minutes worktree_path head_sha lock = record lock {
  heartbeat_at = utc_now env;
  expires_at = plus_minutes env ttl_minutes;
  worktree_path = keep worktree_path lock.worktree_path;
  head_sha = keep head_sha lock.head_sha;
}

abbrev pub is_canceled_claim : String → Job → Bool
is_canceled_claim token j =
    has_status in_progress j && j.claim_token == token && is_some j.cancel_requested_at

-- The UPDATE of the lock row, with its test of `rowcount`.
abbrev pub renew_lock : Env → String → String → ℕ → Option String → Option String → M (Unit {0})
renew_lock env owner token ttl_minutes worktree_path head_sha s = elim s.lock [
  | none ↦ err lost_lease s
  | some lock ↦
      if owns owner token lock
      then ok tt (record s { lock = some (renew env ttl_minutes worktree_path head_sha lock) })
      else err lost_lease s
]

unfoldable pub refresh_runner_lock :
    Env → String → String → ℕ → Option String → Option String → Bool → M (Unit {0})
refresh_runner_lock env owner token ttl_minutes worktree_path head_sha check_cancel = do
  require (nonempty token) lost_lease
  immediate env do
    renew_lock env owner token ttl_minutes worktree_path head_sha
    canceled_claim ← reads (λ s. exists_where (is_canceled_claim token) s.jobs)
    require (not (check_cancel && canceled_claim)) cancellation_requested

abbrev within : Bool → Env → M Bool → M Bool
within true env body = body
within false env body = immediate env body

-- leases.force_clear_lock_and_split, with whether the caller holds a transaction
unfoldable pub force_clear_lock_and_split : Env → Bool → String → String → Option Stamp → M Bool
force_clear_lock_and_split env in_transaction owner token heartbeat_at =
    within in_transaction env do
      released ← release_lock_token owner token heartbeat_at
      modify (λ s. if released then requeue_orphans env s else s)
      return released

-- `try: acquire except LockHeld: return 0`, and the release of the lock taken
abbrev pub after_acquire : Env → String → ℕ → Outcome RunnerLock → Outcome ℕ
after_acquire env owner before (ok lock t) =
    (do _ ← release_lock_token owner lock.token none; reads (λ u. before - in_progress_count u)) t
after_acquire env owner before (err lock_held t) = ok 0 t
after_acquire env owner before (err e t) = err e t

unfoldable pub recover_orphans : Env → String → ℕ → M ℕ
recover_orphans env owner ttl_minutes =
    let me = keep_text owner env.default_owner in
    immediate env (λ s.
      let before = in_progress_count s in
      if before == 0
      then ok 0 s
      else after_acquire env me before (acquire_lock env me ttl_minutes "" "" s))
