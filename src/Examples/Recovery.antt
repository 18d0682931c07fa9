-- ===== src/Examples/Recovery.antt =====
-- Pushes, deploys after a stopped runner and the ledger at concrete queues.
use mergetrain.Prelude.{
  ◌≡◌, refl, true, none, some, [], ◌∷◌, All, arith, dedup, elem, count_where, update_where, select,
  first, exists_where,
}
use mergetrain.Model.{OperationEvent, Operation, started, success, error, queued}
use mergetrain.Store.{
  Store, Distinct, ok, err, immediate, queue_error, cancellation_requested, find_job,
}
use mergetrain.Leases.{delete_lock, requeue_orphans, lock_takeover}
use mergetrain.Recovery.{record_pending_push, push_in_transaction, mark_pending}
use mergetrain.Recovery.{pack_push_refs, unpack_push_refs}
use mergetrain.Recovery.Refs.{unpack_push_refs-pack_push_refs}
use mergetrain.Recovery.Fence.{Recorded, record_pending_push_fenced, record_pending_push_canceled}
use mergetrain.Claims.{ordered}
use mergetrain.Claims.Deploy.{claim_deploy_batch}
use mergetrain.Claims.Guards.{claim_deploy_batch_parks}
use mergetrain.Operations.{
  finish_recovery_operation, finish_in_transaction, insert_operation_event, starts,
}
use mergetrain.Operations.Ledger.{Ended, finish_recovery_operation_once}
use mergetrain.Samples.{noon, stranded, job, claimed_job, pushed, push, started_ledger}

stranded-Distinct : Distinct stranded.jobs
unfolding count_where
stranded-Distinct k = ground arith

abbrev recorded : Store
recorded = record stranded {
  jobs =
      mark_pending noon push (claimed_job 1 "a")
      ∷ record (claimed_job 2 "b") { marker = pushed }
      ∷ record (claimed_job 3 "c") { cancel_requested_at = some 200 }
      ∷ job 4 "d" queued
      ∷ [];
}

record_pending_push_fenced_example : All (Recorded noon push stranded recorded) (dedup (1 ∷ 1 ∷ []))
unfolding record_pending_push push_in_transaction immediate count_where update_where elem select
    exists_where dedup
record_pending_push_fenced_example =
    record_pending_push_fenced noon (1 ∷ 1 ∷ []) push stranded stranded-Distinct refl

record_pending_push_canceled_example :
    record_pending_push noon (1 ∷ 3 ∷ []) push stranded ≡ err cancellation_requested stranded
unfolding find_job first elem select dedup
record_pending_push_canceled_example =
    record_pending_push_canceled noon (1 ∷ 3 ∷ []) push stranded 3
      (record (claimed_job 3 "c") { cancel_requested_at = some 200 }) refl stranded-Distinct refl
      refl refl refl refl refl

claim_deploy_batch_parks_example :
    claim_deploy_batch noon "" 30 "" none ordered stranded
    ≡ ok [] (requeue_orphans noon (delete_lock stranded))
unfolding lock_takeover count_where
claim_deploy_batch_parks_example =
    claim_deploy_batch_parks noon "" 30 "" none ordered stranded refl refl refl (omega arith)

abbrev ending : OperationEvent
ending = record {
  id = 2;
  invocation_id = "i1";
  operation = Operation.recover;
  state = success;
  applied = true;
  detail = "2";
  created_at = some 43200;
}

abbrev ended_ledger : Store
ended_ledger = record started_ledger {
  operations =
      record ending { id = 1; state = started; detail = ""; created_at = some 100 } ∷ ending ∷ [];
  next_operation_id = 3;
}

finish_recovery_operation_once_example :
    ((start : OperationEvent) × (first (starts "i1") started_ledger.operations ≡ some start)
      × Ended start ending "i1" success started_ledger ended_ledger)
    × (finish_recovery_operation noon "i1" error "" ended_ledger ≡ err queue_error ended_ledger)
unfolding finish_recovery_operation finish_in_transaction insert_operation_event immediate first
    exists_where
finish_recovery_operation_once_example =
    finish_recovery_operation_once noon noon "i1" success error "2" "" started_ledger refl refl

unpack_push_refs-pack_push_refs_example :
    unpack_push_refs (pack_push_refs ("main" ∷ "next" ∷ [])) ≡ "main" ∷ "next" ∷ []
unpack_push_refs-pack_push_refs_example =
    unpack_push_refs-pack_push_refs ("main" ∷ "next" ∷ [])
      ((refl, (refl, (refl, (refl, (refl, tt))))), ((refl, (refl, (refl, (refl, (refl, tt))))), tt))
