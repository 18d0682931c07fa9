-- ===== src/Reconcile/Apply.antt =====
-- The write of one verdict (src/mergetrain/recovery.py, _apply): a compare-and-swap on the status
-- that the job was read with.
pub mod Swap
pub mod Overtaken
use mergetrain.Prelude.{
  ℕ, Bool, true, false, not, List, [], ◌∷◌, String, if◌then◌else◌, ◌==◌, none, some, ◌<>◌,
}
use mergetrain.Model.{Job, Status, status_column, PushStatus, deployed, queued, canceled, blocked}
use mergetrain.Store.{
  Store, Env, Error, Outcome, ok, err, M, ◌>>=◌, get_job, queue_error, queue_busy, lock_held,
  lost_lease, cancellation_requested, duplicate_active_branch, deploy_plan_changed, assertion_error,
  sqlite_error, remote_unreachable,
}
use mergetrain.Jobs.Mark.{Marking, plain_marking, mark_job}
use mergetrain.Reconcile.Git.{Git}
use mergetrain.Reconcile.Verdict.{JobDecision, reconciled_verify_status}

-- Whether the verdict was written, and the jobs whose pin ref was deleted.
abbrev pub Written : Type 0
Written = Bool × List ℕ

-- `except QueueBusy: raise` and `except (QueueError, CancellationRequested): return False`
abbrev pub overtaken : Error → Store → Outcome Written
overtaken queue_busy s = err queue_busy s
overtaken queue_error s = ok (false, []) s
overtaken lock_held s = ok (false, []) s
overtaken lost_lease s = ok (false, []) s
overtaken (duplicate_active_branch k) s = ok (false, []) s
overtaken cancellation_requested s = ok (false, []) s
overtaken deploy_plan_changed s = err deploy_plan_changed s
overtaken assertion_error s = err assertion_error s
overtaken sqlite_error s = err sqlite_error s
overtaken remote_unreachable s = err remote_unreachable s

abbrev pub attempted : M Job → (Job → Written) → M Written
attempted m written s = elim (m s) [ ok j t ↦ ok (written j) t | err e t ↦ overtaken e t ]

abbrev pub reconciled : String → String
reconciled reason = "reconciled: " <> reason

abbrev pub deployed_marking : Git → JobDecision → Marking
deployed_marking git d = record (plain_marking deployed (reconciled d.reason)) {
  deploy_sha = d.pending_sha;
  push_status = some PushStatus.succeeded;
  verify_status = some (reconciled_verify_status git d.job);
}

-- mark_job with the status that the job was read with
abbrev pub swap : Env → JobDecision → Marking → M Job
swap env d m = mark_job env d.job.id m none (some d.job.status)

abbrev pub unpinned : JobDecision → Job → Written
unpinned d j = (true, d.job.id ∷ [])

abbrev pub kept : Job → Written
kept j = (true, [])

abbrev still_blocked : Job → Written
still_blocked j = (j.status == blocked, [])

unfoldable pub apply : Env → Git → JobDecision → M Written
apply env git d =
    if d.decision == deployed
    then attempted (swap env d (deployed_marking git d)) (unpinned d)
    else if d.decision == queued
    then attempted (swap env d (plain_marking queued (reconciled d.reason))) (unpinned d)
    else if d.decision == canceled
    then attempted (swap env d (plain_marking canceled (reconciled d.reason))) (unpinned d)
    else if not (d.job.status == blocked)
    then attempted (swap env d (plain_marking blocked ("reconcile conflict: " <> d.reason))) kept
    else attempted (get_job d.job.id) still_blocked
