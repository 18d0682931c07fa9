-- ===== src/Examples/Jobs.antt =====
-- Submission, status writes and whole histories at concrete queues.
use mergetrain.Prelude.{
  All, ◌≡◌, ◌≢◌, refl, ◌⊎◌, none, some, [], ◌∷◌, Each, arith, ℕ, true, false, strip, one_line,
  join_words, is_space, strip_left, strip_right, count_where, first, update_where,
}
use mergetrain.Model.{
  PushStatus, VerifyStatus, is_active, is_reconcile_conflict, Job, queued, in_progress, blocked,
  deployed, canceled, no_marker, no_validation, no_deployment,
}
use mergetrain.Store.{
  Store, ok, err, immediate, get_job, duplicate_active_branch, Distinct, find_job, Frame,
}
use mergetrain.Jobs.Reads.{active_branch_job_id}
use mergetrain.Jobs.Enqueue.{enqueue_job}
use mergetrain.Jobs.Enqueue.Unique.{enqueue_job_cases, queued_row, with_row}
use mergetrain.Jobs.Mark.{
  Marking, plain_marking, mark_guard, mark_job, mark_columns, mark_in_transaction,
}
use mergetrain.Jobs.Mark.Fence.{marked, mark_job-IsFenced, marked_settles, IsFenced}
use mergetrain.System.WellFormed.{WellFormed}
use mergetrain.System.Run.{begin, call, enqueue, recover, perform, History-WellFormed}
use mergetrain.Jobs.Reads.{ordered_head}
use mergetrain.Jobs.Reads.Ordered.{IsHead, ordered_head_cases}
use mergetrain.Jobs.Cancel.{cancel_job, cancel_as, request_in_transaction, request_cancel}
use mergetrain.Jobs.Cancel.Honored.{Honored, cancel_job-Honored}
use mergetrain.Samples.{noon, job, claimed_job, pushed, stranded, submission, empty}

enqueue_job_cases_example :
    ((other : ℕ) × (active_branch_job_id (strip submission.branch) stranded ≡ some other)
      × (submission.allow_duplicate ≡ false)
      × (enqueue_job noon submission stranded ≡ err (duplicate_active_branch other) stranded))
    ⊎ (((submission.allow_duplicate ≡ true)
          ⊎ (active_branch_job_id (strip submission.branch) stranded ≡ none))
        × (enqueue_job noon submission stranded
            ≡ ok (queued_row noon submission 5) (with_row stranded (queued_row noon submission 5))))
unfolding one_line join_words is_space strip strip_left strip_right
enqueue_job_cases_example =
    enqueue_job_cases noon submission stranded refl refl
      (omega arith, (omega arith, (omega arith, (omega arith, tt)))) refl refl

empty-WellFormed : WellFormed empty
unfolding count_where
empty-WellFormed = record {
  ids = tt;
  distinct = λ k. omega arith;
  unique = λ branch. omega arith;
  rows = tt;
}

History-WellFormed_example :
    WellFormed (perform noon (recover "" 30) (perform noon (enqueue submission) empty))
History-WellFormed_example =
    History-WellFormed (call noon (recover "" 30) tt (call noon (enqueue submission) refl begin))
      empty-WellFormed

abbrev gate_failed : Marking
gate_failed = plain_marking blocked "gate failed"

abbrev first_claim : Job
first_claim = claimed_job 1 "a"

abbrev after_gate : Store
after_gate = record stranded {
  jobs =
      marked noon gate_failed first_claim
      ∷ record (claimed_job 2 "b") { marker = pushed }
      ∷ record (claimed_job 3 "c") { cancel_requested_at = some 200 }
      ∷ job 4 "d" queued
      ∷ [];
}

stranded-Distinct : Distinct stranded.jobs
unfolding count_where
stranded-Distinct k = ground arith

mark_job-IsFenced_example :
    (old : Job) × (find_job 1 stranded ≡ some old)
    × IsFenced blocked (some "t1") none old
    × (marked noon gate_failed first_claim ≡ marked noon gate_failed old)
    × Each (Frame 1) stranded.jobs after_gate.jobs
unfolding mark_job mark_columns mark_guard update_where count_where immediate get_job find_job first
    marked mark_in_transaction
mark_job-IsFenced_example =
    mark_job-IsFenced noon 1 gate_failed (some "t1") none stranded stranded-Distinct refl

abbrev again : Marking
again = plain_marking queued "conflict resolved"

marked_settles_example :
    ((marked noon again first_claim).status ≡ queued)
    × ((queued ≡ deployed) ⊎ (queued ≡ canceled) ⊎ (queued ≡ queued)
        → (marked noon again first_claim).marker ≡ no_marker)
    × (queued ≢ deployed
        → queued ≢ canceled
        → queued ≢ queued
        → (marked noon again first_claim).marker ≡ first_claim.marker)
    × (queued ≢ in_progress → (marked noon again first_claim).claim_token ≡ "")
    × (queued ≡ queued
        → ((marked noon again first_claim).validation ≡ no_validation)
          × ((marked noon again first_claim).deployment ≡ no_deployment)
          × ((marked noon again first_claim).cancel_requested_at ≡ none)
          × ((marked noon again first_claim).started_at ≡ none)
          × ((marked noon again first_claim).deploy_sha ≡ "")
          × ((marked noon again first_claim).finished_at ≡ none)
          × ((marked noon again first_claim).push_status ≡ PushStatus.not_run)
          × ((marked noon again first_claim).verify_status ≡ VerifyStatus.not_run)
          × ((marked noon again first_claim).log_path ≡ first_claim.log_path))
marked_settles_example = marked_settles noon again first_claim

abbrev asked : Job
asked = request_cancel noon 1 "cancellation requested by user" first_claim

cancel_job-Honored_example : Honored noon asked
unfolding cancel_job cancel_as request_in_transaction immediate get_job find_job first count_where
    update_where is_reconcile_conflict
cancel_job-Honored_example =
    cancel_job-Honored noon ((λ s. s) ∷ []) 1 "" stranded stranded-Distinct
      ((λ s distinct. distinct), tt) refl

ordered_head_cases_example :
    ((ordered_head stranded ≡ none) × All (λ k. is_active k.status ≡ false) stranded.jobs)
    ⊎ ((h : Job) × (ordered_head stranded ≡ some h) × IsHead h stranded.jobs)
ordered_head_cases_example = ordered_head_cases stranded
