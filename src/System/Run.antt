-- ===== src/System/Run.antt =====
-- Histories of the queue: every sequence of calls, by any processes at any times, on a database that
-- begins empty; what other processes commit inside a call is a history too.
use mergetrain.Prelude.{
  Among, ℕ, ◌≡◌, refl, Bool, true, false, Option, List, [], ◌∷◌, String, All, inl, inr,
}
use mergetrain.Model.{Status, VerifyStatus, Stamp}
use mergetrain.Store.{Store, Env, final}
use mergetrain.Jobs.Enqueue.{Submission, enqueue_job}
use mergetrain.Jobs.Retry.{Retry, retry_job}
use mergetrain.System.Retries.{retry_job-Safe}
use mergetrain.Jobs.Mark.{Marking, mark_job}
use mergetrain.Jobs.Cancel.{cancel_job, dismiss_job}
use mergetrain.Jobs.Verify.{resolve_deployment_verify_status}
use mergetrain.Leases.{
  acquire_runner_lock, release_runner_lock, refresh_runner_lock, force_clear_lock_and_split,
  recover_orphans,
}
use mergetrain.Recovery.{PendingPush, record_pending_push, clear_rejected_push}
use mergetrain.Claims.{ClaimRequest, Processing, claim_all_queued}
use mergetrain.Claims.Deploy.{Confirm, claim_deploy_batch}
use mergetrain.System.WellFormed.{WellFormed}
use mergetrain.System.Updates.{is_fenced}
use mergetrain.System.Marks.{
  mark_job-Safe, resolve_deployment_verify_status-Safe, record_pending_push-Safe,
  clear_rejected_push-Safe, dismiss_job-Safe, cancel_job-Safe, Respectful,
}
use mergetrain.System.Submissions.{enqueue_job-Safe, claim_all_queued-Safe, claim_deploy_batch-Safe}
use mergetrain.System.Locks.{
  acquire_runner_lock-Safe, release_runner_lock-Safe, refresh_runner_lock-Safe,
  force_clear_lock_and_split-Safe, recover_orphans-Safe,
}

-- A call of one of the operations, with its arguments.
pub data Call : Type 0 where
  enqueue : Submission → Call
  retry : ℕ → Retry → Call
  mark : ℕ → Marking → Option String → Option Status → Call
  resolve : ℕ → VerifyStatus → String → Call
  acquire : String → ℕ → String → String → Call
  refresh : String → String → ℕ → Option String → Option String → Bool → Call
  release : String → String → Call
  force_clear : String → String → Option Stamp → Call
  recover : String → ℕ → Call
  claim_queued : ClaimRequest → Call
  claim_train : String → ℕ → String → Confirm → Processing → Call
  push : List ℕ → PendingPush → Call
  reject : List ℕ → String → Call

-- The database after the call, also where it raises.
unfoldable pub perform : Env → Call → Store → Store
perform env (enqueue sub) s = final (enqueue_job env sub s)
perform env (retry k r) s = final (retry_job env k r s)
perform env (mark k m token expected) s = final (mark_job env k m token expected s)
perform env (resolve k result note) s = final (resolve_deployment_verify_status env k result note s)
perform env (acquire owner ttl worktree head) s =
    final (acquire_runner_lock env owner ttl worktree head s)
perform env (refresh owner token ttl worktree head check) s =
    final (refresh_runner_lock env owner token ttl worktree head check s)
perform env (release owner token) s = final (release_runner_lock env owner token s)
perform env (force_clear owner token at) s =
    final (force_clear_lock_and_split env false owner token at s)
perform env (recover owner ttl) s = final (recover_orphans env owner ttl s)
perform env (claim_queued c) s = final (claim_all_queued env c s)
perform env (claim_train owner ttl train confirm processing) s =
    final (claim_deploy_batch env owner ttl train confirm processing s)
perform env (push ids p) s = final (record_pending_push env ids p s)
perform env (reject ids token) s = final (clear_rejected_push env ids token s)

-- A submission may not ask for a duplicate, and a status write has a claim token, ends the job, or
-- starts from an expected active status.
abbrev pub Permitted : Call → Type 0
Permitted (enqueue sub) = sub.allow_duplicate ≡ false
Permitted (mark k m token expected) = is_fenced m.status token expected ≡ true
Permitted _ = Unit

-- From the first database to the second. The other processes' histories may begin anywhere.
pub data History : Store → Store → Type 0 where
  begin : {s : Store} → History s s
  call :
      {s t : Store} (env : Env) (c : Call) → Permitted c → History s t → History s (perform env c t)
  cancel :
      {s t : Store} (env : Env) (others : List (Store → Store)) (k : ℕ) (note : String)
      → ((other : Store → Store) → Among other others → (u : Store) → History u (other u))
      → History s t
      → History s (final (cancel_job env others k note t))
  dismiss :
      {s t : Store} (env : Env) (other : Store → Store) (k : ℕ) (note : String) (force : Bool)
      → ((u : Store) → History u (other u))
      → History s t
      → History s (final (dismiss_job env other k note force t))

perform-WellFormed :
    (env : Env) (c : Call) (s : Store) → Permitted c → WellFormed s → WellFormed (perform env c s)
unfolding perform
perform-WellFormed env (enqueue sub) s h = (enqueue_job-Safe env sub h).after s
perform-WellFormed env (retry k r) s h = (retry_job-Safe env k r).after s
perform-WellFormed env (mark k m token expected) s h =
    (mark_job-Safe env k m token expected h).after s
perform-WellFormed env (resolve k result note) s h =
    (resolve_deployment_verify_status-Safe env k result note).after s
perform-WellFormed env (acquire owner ttl worktree head) s h =
    (acquire_runner_lock-Safe env owner ttl worktree head).after s
perform-WellFormed env (refresh owner token ttl worktree head check) s h =
    (refresh_runner_lock-Safe env owner token ttl worktree head check).after s
perform-WellFormed env (release owner token) s h =
    (release_runner_lock-Safe env owner token).after s
perform-WellFormed env (force_clear owner token at) s h =
    (force_clear_lock_and_split-Safe env false owner token at).after s
perform-WellFormed env (recover owner ttl) s h = (recover_orphans-Safe env owner ttl).after s
perform-WellFormed env (claim_queued c) s h = (claim_all_queued-Safe env c).after s
perform-WellFormed env (claim_train owner ttl train confirm processing) s h =
    (claim_deploy_batch-Safe env owner ttl train confirm processing).after s
perform-WellFormed env (push ids p) s h = (record_pending_push-Safe env ids p).after s
perform-WellFormed env (reject ids token) s h = (clear_rejected_push-Safe env ids token).after s

All-Among :
    (others : List (Store → Store))
    → ((other : Store → Store) → Among other others → Respectful other)
    → All Respectful others
All-Among [] h = tt
All-Among (other ∷ others) h = (h other (inl refl), All-Among others (λ o among. h o (inr among)))

-- Every history of calls in which no submission asks for a duplicate and every status write has a
-- claim token, ends the job or expects an active status, leads from a well-formed database to a
-- well-formed one, whatever
-- other processes commit inside a cancellation or a dismissal, as long as that is a history too: keys
-- stay distinct, no branch has two active jobs, no row is claimed unless it is in progress, and no
-- queued or deployed row has a push marker.
pub History-WellFormed : {s t : Store} → History s t → WellFormed s → WellFormed t
History-WellFormed begin w = w
History-WellFormed (call env c permitted past) w =
    perform-WellFormed env c _ permitted (History-WellFormed past w)
History-WellFormed (cancel env others k note during past) w =
    (cancel_job-Safe env others k note
        (All-Among others (λ other among u v. History-WellFormed (during other among u) v))).after
      _ (History-WellFormed past w)
History-WellFormed (dismiss env other k note force during past) w =
    (dismiss_job-Safe env other k note force (λ u v. History-WellFormed (during u) v)).after _
      (History-WellFormed past w)
