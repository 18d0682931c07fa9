-- ===== src/Daemon.antt =====
-- One pass of the daemon over a queue (src/mergetrain/daemon.py, daemon_tick). The batch runner, the
-- answers of the configuration and what other processes commit between the steps are arguments; the
-- reads of the probe see one database.
pub mod Grade
pub mod Guarded
pub mod Escaped
use mergetrain.Prelude.{
  ℕ, ◌≡◌, Bool, true, false, not, ◌&&◌, ◌||◌, Option, none, some, List, [], ◌∷◌, ◌++◌, String, ltb,
  nonempty, if◌then◌else◌, length, count_where, nat_eq, ◌==◌, text_column,
}
use mergetrain.Model.{
  Job, RunnerLock, Status, status_column, verify_column, VerifyStatus, deployed, validated,
}
use mergetrain.Store.{
  Store, Env, Error, M, ◌>>=◌, ◌>>◌, return, reads, modify, raise, Outcome, ok, err, final,
  has_status, lock_held, queue_error,
}
use mergetrain.Leases.{
  in_progress_count, active_runner_lock, release_runner_lock, force_clear_lock_and_split,
  recover_orphans,
}
use mergetrain.Recovery.{deploy_reconcile_pending}
use mergetrain.Jobs.Reads.{has_queued_auto, has_queued_manual}
use mergetrain.Jobs.Trains.{Summary, validated_train_summaries}
use mergetrain.Claims.{ClaimRequest, Processing, claim_all_queued}
use mergetrain.Daemon.Grade.{
  TickOutcome, idle, reconcile_paused, validation_paused, grade_batch, grade_validation_batch,
}

-- What approval_destination_sha or approval_execution_policy_sha gives: a hash, ConfigError, or
-- another error of mergetrain.
pub data Authorization : Type 0 where
  sha : String → Authorization
  config_error invalid : Authorization

-- The steps of a tick, each with the database as others left it
pub data Moment : Type 0 where
  probing clearing recovering reading claiming processing splitting releasing : Moment

pub record Tick : Type 0 where
  pub owner : String
  pub lock_ttl_minutes : ℕ
  pub sovereign : Bool
  pub validate_only : Bool
  pub destination : Authorization
  pub execution_policy : Authorization
  pub mode : Processing
  -- the answer of the read-only connection, and of the writable one
  pub probe_opens : Bool
  pub opens : Bool
  pub process_batch : List Job → M (List Job)
  pub env : Moment → Env
  pub others : Moment → Store → Store

abbrev pub others_at : Tick → Moment → M (Unit {0})
others_at t moment = modify (t.others moment)

abbrev pub has_train : List Summary → Bool
has_train [] = false
has_train (t ∷ ts) = true

-- The pauses, in the order of the tests; `none` where the tick goes on.
unfoldable pub pause : Tick → Env → Store → Option TickOutcome
pause t env s =
    if ltb 0 (deploy_reconcile_pending env s)
    then some reconcile_paused
    else if t.validate_only && has_train (validated_train_summaries s)
    then some validation_paused
    else none

unfoldable pub has_work : Tick → Store → Bool
has_work t s = if t.validate_only then has_queued_manual s else has_queued_auto s

-- What the probe found: an outcome, or whether there are orphans and the token of a lease of this
-- owner that an earlier tick left.
pub data Probe : Type 0 where
  stop : TickOutcome → Probe
  go_on : Bool → String → Probe

abbrev pub or_idle : Bool → Bool → String → Probe
or_idle work orphans stale =
    if not work && not orphans && not (nonempty stale) then stop idle else go_on orphans stale

abbrev pub probe_lock : String → Bool → Bool → Option RunnerLock → Probe
probe_lock owner work orphans none = or_idle work orphans ""
probe_lock owner work orphans (some lock) =
    if lock.owner == owner
    then or_idle work orphans lock.token
    else if orphans
    then stop idle
    else or_idle work orphans ""

abbrev pub probe_from : Option TickOutcome → Probe → Probe
probe_from none found = found
probe_from (some outcome) found = stop outcome

unfoldable pub probe : Tick → Env → Store → Probe
unfolding pause has_work
probe t env s =
    probe_from (pause t env s)
      (probe_lock t.owner (has_work t s) (ltb 0 (in_progress_count s)) (active_runner_lock env s))

-- `finally: release_runner_lock`, whose errors are only said
abbrev pub released : Tick → String → Store → Store
released t token s =
    if nonempty token
    then final (release_runner_lock (t.env releasing) t.owner token (t.others releasing s))
    else s

abbrev pub split_then : Tick → String → Error → Outcome Bool → Outcome TickOutcome
split_then t token e (ok cleared s) = err e s
split_then t token e (err other s) = err other (released t token s)

-- The batch of claimed jobs, graded, or the split of what a batch that raised has left
abbrev pub after_batch :
    Tick → String → (List Job → TickOutcome) → Outcome (List Job) → Outcome TickOutcome
after_batch t token grade (ok results s) = ok (grade results) (released t token s)
after_batch t token grade (err e s) =
    split_then t token e
      (force_clear_lock_and_split (t.env splitting) false t.owner token none (t.others splitting s))

abbrev pub grade : Tick → List Job → List Job → List Job → TickOutcome
grade t jobs blocked_jobs results =
    if t.validate_only
    then grade_validation_batch results (length jobs)
    else grade_batch (results ++ blocked_jobs) (length jobs)

unfoldable pub process_claimed : Tick → Job → List Job → List Job → M TickOutcome
process_claimed t job jobs blocked_jobs s =
    after_batch t job.claim_token (grade t (job ∷ jobs) blocked_jobs)
      (t.process_batch (job ∷ jobs) (t.others processing s))

-- After the claim: the batch, the jobs that were blocked, or why nothing was claimed
unfoldable pub after_claim : Tick → List Job × List Job → M TickOutcome
unfolding process_claimed grade_batch pause
after_claim t (job ∷ jobs, blocked_jobs) s = process_claimed t job jobs blocked_jobs s
after_claim t ([], job ∷ blocked_jobs) s =
    ok (grade_batch (job ∷ blocked_jobs) (length (job ∷ blocked_jobs))) s
after_claim t ([], []) s = elim (pause t (t.env claiming) s) [
  | some outcome ↦ ok outcome s
  | none ↦ ok idle s
]

-- `except LockHeld: return "idle"`
abbrev pub claim_or_idle : Tick → Outcome (List Job × List Job) → Outcome TickOutcome
claim_or_idle t (ok claimed s) = after_claim t claimed s
claim_or_idle t (err lock_held s) = ok idle s
claim_or_idle t (err e s) = err e s

-- The hash, or the text that no approval matches; ConfigError is raised, as a queue error here.
abbrev pub sha_or : String → Authorization → Option String
sha_or sentinel (sha text) = some text
sha_or sentinel config_error = none
sha_or sentinel invalid = some sentinel

abbrev pub request : Tick → String → String → ClaimRequest
request t destination policy = record {
  owner = t.owner;
  ttl_minutes = t.lock_ttl_minutes;
  auto_only = not t.validate_only;
  manual_only = t.validate_only;
  approval_destination_sha = if t.validate_only then "" else destination;
  approval_execution_policy_sha = if t.validate_only then "" else policy;
  unless_ready = false;
  processing = t.mode;
}

abbrev pub claim_with : Tick → Option String → Option String → M TickOutcome
claim_with t (some destination) (some policy) s =
    claim_or_idle t
      (claim_all_queued (t.env claiming) (request t destination policy) (t.others claiming s))
claim_with t (some destination) none s = err queue_error s
claim_with t none policy s = err queue_error s

unfoldable pub tick_claim : Tick → M TickOutcome
unfolding after_claim
tick_claim t =
    claim_with t (sha_or "invalid-deploy-destination" t.destination)
      (sha_or "invalid-execution-policy" t.execution_policy)

abbrev pub or_go_on : Option TickOutcome → M TickOutcome → M TickOutcome
or_go_on none rest = rest
or_go_on (some outcome) rest = return outcome

-- The work on the writable connection
unfoldable pub tick_work : Tick → Bool → String → M TickOutcome
unfolding pause has_work tick_claim
tick_work t orphans stale = do
  others_at t clearing
  _ ←
      if nonempty stale
      then force_clear_lock_and_split (t.env clearing) false t.owner stale none
      else return false
  others_at t recovering
  _ ← if orphans then recover_orphans (t.env recovering) t.owner t.lock_ttl_minutes else return 0
  others_at t reading
  found ← reads (pause t (t.env reading))
  work ← reads (has_work t)
  or_go_on found (if work then tick_claim t else return idle)

abbrev pub after_probe : Tick → Probe → M TickOutcome
after_probe t (stop outcome) = return outcome
after_probe t (go_on orphans stale) =
    if t.opens then tick_work t orphans stale else raise queue_error

-- daemon_tick: a repository's own daemon goes on where the probe does not open.
unfoldable pub daemon_tick : Tick → M TickOutcome
unfolding probe tick_work
daemon_tick t s =
    if t.probe_opens
    then after_probe t (probe t (t.env probing) s) s
    else if t.sovereign
    then after_probe t (go_on true "") s
    else err queue_error s
