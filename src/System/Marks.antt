-- ===== src/System/Marks.antt =====
-- Status writes, cancellation, dismissal, verification and push markers keep the queue well formed.
use mergetrain.Prelude.{
  ℕ, ◌≡◌, Bool, true, Option, none, some, List, [], ◌∷◌, String, arith, ◌==◌, ◌&&◌, nonempty, All,
}
use mergetrain.Model.{Job, Status, VerifyStatus, canceled, in_progress, validated, status_column}
use mergetrain.Store.{Store, Env, M, Keeps-modify}
use mergetrain.Jobs.Mark.{Marking, plain_marking, mark_job, mark_in_transaction}
use mergetrain.Jobs.Reads.{refuse_reconcile_conflict}
use mergetrain.Jobs.Cancel.{
  dismiss_job, cancel_as, request_in_transaction, cancel_train_in_transaction, cancel_job,
}
use mergetrain.Jobs.Verify.{
  resolve_in_transaction, verification_group, checked_group, resolve_deployment_verify_status,
}
use mergetrain.Recovery.{
  PendingPush, push_in_transaction, clear_in_transaction, record_pending_push, clear_rejected_push,
}
use mergetrain.System.WellFormed.{WellFormed}
use mergetrain.System.Updates.{
  is_fenced, mark_columns-SafeUpdate, clear_deployment-SafeUpdate, clear_attempt-SafeUpdate,
  set_verify-SafeUpdate, mark_pending-SafeUpdate, reject_push-SafeUpdate, request_cancel-SafeUpdate,
  cancel_validated-SafeUpdate,
}
use mergetrain.System.Operations.{Safe, Safe-if, statements}

pub mark_job-Safe :
    (env : Env) (k : ℕ) (m : Marking) (token : Option String) (expected : Option Status)
    → is_fenced m.status token expected ≡ true
    → Safe (mark_job env k m token expected)
unfolding mark_job mark_in_transaction
mark_job-Safe env k m token expected fenced =
    search
      (statements, mark_columns-SafeUpdate, clear_deployment-SafeUpdate, clear_attempt-SafeUpdate)
      depth 20

pub resolve_deployment_verify_status-Safe :
    (env : Env) (k : ℕ) (result : VerifyStatus) (note : String)
    → Safe (resolve_deployment_verify_status env k result note)
unfolding resolve_deployment_verify_status resolve_in_transaction verification_group checked_group
resolve_deployment_verify_status-Safe env k result note =
    search (statements, set_verify-SafeUpdate) depth 20

pub record_pending_push-Safe :
    (env : Env) (ids : List ℕ) (push : PendingPush) → Safe (record_pending_push env ids push)
unfolding record_pending_push push_in_transaction
record_pending_push-Safe env ids push = search (statements, mark_pending-SafeUpdate) depth 20

pub clear_rejected_push-Safe :
    (env : Env) (ids : List ℕ) (token : String) → Safe (clear_rejected_push env ids token)
unfolding clear_rejected_push clear_in_transaction
clear_rejected_push-Safe env ids token = search (statements, reject_push-SafeUpdate) depth 20

-- What other processes commit keeps the queue well formed too.
abbrev pub Respectful : (Store → Store) → Type 0
Respectful other = (s : Store) → WellFormed s → WellFormed (other s)

active_or_terminal : (st : Status) → is_fenced canceled none (some st) ≡ true
active_or_terminal st = ground arith

pub dismiss_job-Safe :
    (env : Env) (other : Store → Store) (k : ℕ) (note : String) (force : Bool)
    → Respectful other
    → Safe (dismiss_job env other k note force)
unfolding dismiss_job refuse_reconcile_conflict
dismiss_job-Safe env other k note force respectful =
    search (statements, Keeps-modify, mark_job-Safe, active_or_terminal, respectful) depth 20

request_in_transaction-Safe :
    (env : Env) (k : ℕ) (token note : String) → Safe (request_in_transaction env k token note)
unfolding request_in_transaction
request_in_transaction-Safe env k token note =
    search (statements, request_cancel-SafeUpdate) depth 20

cancel_train_in_transaction-Safe :
    (env : Env) (k : ℕ) (train note : String) → Safe (cancel_train_in_transaction env k train note)
unfolding cancel_train_in_transaction
cancel_train_in_transaction-Safe env k train note =
    search (statements, cancel_validated-SafeUpdate) depth 20

cancel_marking-Safe :
    (env : Env) (k : ℕ) (note : String) (st : Status)
    → Safe (mark_job env k (plain_marking canceled note) none (some st))
cancel_marking-Safe env k note st =
    mark_job-Safe env k (plain_marking canceled note) none (some st) (active_or_terminal st)

pub cancel_as-Safe :
    (env : Env) (k : ℕ) (note : String) (again : M Job) (j : Job)
    → Safe again
    → Safe (cancel_as env k note again j)
unfolding cancel_as
cancel_as-Safe env k note again j safe =
    Safe-if (j.status == in_progress) _ _
      (search (statements, request_in_transaction-Safe) depth 20)
      (Safe-if (j.status == validated && nonempty j.train_id) _ _
        (search (statements, cancel_train_in_transaction-Safe) depth 20)
        (cancel_marking-Safe env k _ j.status))

pub cancel_job-Safe :
    (env : Env) (others : List (Store → Store)) (k : ℕ) (note : String)
    → All Respectful others
    → Safe (cancel_job env others k note)
unfolding cancel_job
cancel_job-Safe env [] k note respectful = search (statements, cancel_as-Safe) depth 20
cancel_job-Safe env (other ∷ others) k note respectful =
    let rest : Safe (cancel_job env others k note) =
      cancel_job-Safe env others k note respectful.1 in
    let keep : Respectful other = respectful.0 in
    search (statements, cancel_as-Safe, Keeps-modify) depth 20
