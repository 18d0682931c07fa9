-- ===== src/Examples/Daemon.antt =====
-- Ticks of the daemon at concrete queues.
use mergetrain.Prelude.{
  ◌⊎◌, List, true, some, none, [], ◌∷◌, ◌≡◌, refl, Each, count_where, exists_where, select, elem,
  update_where, first,
}
use mergetrain.Model.{Job, queued, in_progress, deployed, VerifyStatus}
use mergetrain.Store.{
  M, Store, ok, err, return, raise, sqlite_error, final, immediate, update_counted, update_jobs,
  get_job, get_jobs, find_job, record_run_event,
}
use mergetrain.Leases.{in_progress_count, active_runner_lock, acquire_lock, lock_takeover}
use mergetrain.Leases.Split.{KeepsEvidence}
use mergetrain.Claims.{
  batch, claim_all_queued, claim_in_transaction, claim_wanted, claim_ids, claim, must_pause,
}
use mergetrain.Claims.Resolved.{Resolved, claim_all_queued-Resolved}
use mergetrain.Recovery.{deploy_reconcile_pending}
use mergetrain.Jobs.Reads.{has_queued_manual}
use mergetrain.Samples.{noon, job, claimed_job, stranded, empty}
use mergetrain.Daemon.Grade.{unverified, partial, grade_batch, reconcile_paused}
use mergetrain.Daemon.{Tick, sha, probe, pause, has_work, request, process_claimed, daemon_tick}
use mergetrain.Daemon.Guarded.{with_runner, Claimed, Probed, daemon_tick-Claimed}
use mergetrain.Daemon.Escaped.{process_claimed-KeepsEvidence}

abbrev validating : Tick
validating = record {
  owner = "them:3";
  lock_ttl_minutes = 30;
  sovereign = true;
  validate_only = true;
  destination = sha "";
  execution_policy = sha "";
  mode = batch;
  probe_opens = true;
  opens = true;
  process_batch = λ jobs. return jobs;
  env = λ moment. noon;
  others = λ moment s. s;
}

abbrev escaping : Tick
escaping = record validating { process_batch = λ jobs. raise sqlite_error }

-- One of two jobs landed, and its verification failed.
partial_test :
    grade_batch
      (record (job 1 "a" deployed) { verify_status = VerifyStatus.failed } ∷ claimed_job 2 "b" ∷ [])
      2
    ≡ partial 1 2
unfolding grade_batch count_where
partial_test = refl

unverified_test :
    grade_batch (record (job 1 "a" deployed) { verify_status = VerifyStatus.failed } ∷ []) 1
    ≡ unverified 1
unfolding grade_batch count_where
unverified_test = refl

-- The owner of the lock is dead, and one of its claims has a push marker.
paused_test : daemon_tick validating stranded ≡ ok reconcile_paused stranded
unfolding daemon_tick probe pause has_work deploy_reconcile_pending active_runner_lock
    in_progress_count has_queued_manual count_where
paused_test = refl

process_claimed-KeepsEvidence_example :
    (left : Store) × (process_claimed escaping (claimed_job 1 "a") [] [] stranded
      ≡ err sqlite_error left)
    × (left.lock ≡ none)
    × (in_progress_count left ≡ 0)
    × Each KeepsEvidence stranded.jobs left.jobs
process_claimed-KeepsEvidence_example =
    process_claimed-KeepsEvidence escaping (claimed_job 1 "a") [] [] stranded stranded sqlite_error
      refl refl refl refl

-- The tick claims its one queued job.
abbrev one_job : Store
one_job = record empty { jobs = job 4 "d" queued ∷ []; next_id = 5 }

abbrev four : Job
four = record (job 4 "d" queued) {
  status = in_progress;
  started_at = some 43200;
  note = "claimed by mergetrain batch runner";
  claim_token = "t2";
}

claimed_run :
    claim_all_queued noon (request validating "" "") one_job
    ≡ ok (four ∷ [], []) (final (claim_all_queued noon (request validating "" "") one_job))
unfolding claim_all_queued claim_in_transaction claim_wanted claim_ids claim acquire_lock
    lock_takeover immediate must_pause active_runner_lock deploy_reconcile_pending in_progress_count
    count_where exists_where select elem update_counted update_jobs update_where get_job get_jobs
    find_job first record_run_event
claimed_run = refl

claim_all_queued-Resolved_example : Resolved noon (request validating "" "") one_job
claim_all_queued-Resolved_example =
    claim_all_queued-Resolved noon (request validating "" "") one_job
      (final (claim_all_queued noon (request validating "" "") one_job)) four [] [] refl claimed_run

daemon_tick-Claimed_example :
    ((runner : List Job → M (List Job))
      → daemon_tick (with_runner validating runner) one_job ≡ daemon_tick validating one_job)
    ⊎ (Claimed validating (daemon_tick validating one_job)
        × (validating.probe_opens ≡ true → Probed validating noon one_job))
daemon_tick-Claimed_example = daemon_tick-Claimed validating one_job
