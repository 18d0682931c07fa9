-- ===== src/System/Submissions.antt =====
-- Submissions, and claims of queued and validated jobs, keep the queue well formed.
use mergetrain.Prelude.{
  ℕ, ◌≡◌, refl, true, false, Option, none, some, List, [], ◌∷◌, String, arith, inl, inr,
  Option-cases, strip, text_column,
}
use mergetrain.Model.{Job, Status, RunnerLock, is_active, queued}
use mergetrain.Store.{Env, Error, Keeps-modify, modify, update_jobs}
use mergetrain.Jobs.Enqueue.{Submission, insert_submission, enqueue_job}
use mergetrain.Jobs.Enqueue.Unique.{
  duplicate_id, insert_free, insert_taken, queued_row, active_branch_job_id-none,
}
use mergetrain.Jobs.Trains.{
  Summary, select_validated_train, chosen, or_not_found, sole, only_deployable, with_members,
}
use mergetrain.Claims.{
  Mode, Processing, ClaimRequest, claim, block_each, block_mismatched, block_unapproved, claim_ids,
  claim_wanted, claim_in_transaction, claim_all_queued, give_back, is_queued_auto, block_mismatch,
  batch, ordered,
}
use mergetrain.Claims.Deploy.{
  Confirm, confirmed, answered, choose, source_status, claim_chosen, deploy_in_transaction,
  claim_deploy_batch,
}
use mergetrain.System.WellFormed.{WellFormed, append-WellFormed, update_jobs-WellFormed}
use mergetrain.System.Updates.{claimed-SafeUpdate, block_mismatch-SafeUpdate}
use mergetrain.System.Operations.{Safe, statements, record_run_event-WellFormed}
use mergetrain.System.Locks.{acquire_lock-Safe, release_lock_token-Safe}

insert_submission-Safe :
    (env : Env) (sub : Submission) → sub.allow_duplicate ≡ false → Safe (insert_submission env sub)
unfolding duplicate_id
insert_submission-Safe env sub single = record {
  after = λ s w. elim (Option-cases (duplicate_id sub s)) [
    | inl free ↦ rw (insert_free env sub s w.ids free) (
        append-WellFormed s (queued_row env sub s.next_id) w refl
          (record { unclaimed = λ h. refl; fresh = λ h. (refl, refl); settled = λ h. refl })
          (active_branch_job_id-none (strip sub.branch) s (ground arith)))
    | inr (other, taken) ↦ rw (insert_taken env sub s other taken) w
  ];
}

pub enqueue_job-Safe :
    (env : Env) (sub : Submission) → sub.allow_duplicate ≡ false → Safe (enqueue_job env sub)
unfolding enqueue_job
enqueue_job-Safe env sub single = search (statements, insert_submission-Safe) depth 20

claim-Safe :
    (env : Env) (ids : List ℕ) (st : Status) (token note : String) (mode : Mode)
    → is_active st ≡ true
    → Safe (claim env ids st token note mode)
unfolding claim
claim-Safe env ids st token note mode active =
    search (statements, claimed-SafeUpdate, Keeps-modify, record_run_event-WellFormed) depth 20

block_update-Safe :
    (env : Env) (k : ℕ) (note : String)
    → Safe (modify (update_jobs (is_queued_auto k) (block_mismatch env note)))
block_update-Safe env k note =
    Keeps-modify WellFormed _ (update_jobs-WellFormed _ _ (block_mismatch-SafeUpdate env k note))

block_each-Safe :
    (env : Env) (head : Option Job) (note detail : String) (ids : List ℕ)
    → Safe (block_each env head note detail ids)
unfolding block_each
block_each-Safe env head note detail [] = search statements
block_each-Safe env head note detail (k ∷ ks) =
    let rest : Safe (block_each env head note detail ks) =
      block_each-Safe env head note detail ks in
    search (statements, block_update-Safe, Keeps-modify, record_run_event-WellFormed) depth 20

block_unapproved-Safe :
    (env : Env) (c : ClaimRequest) (head : Option Job) → Safe (block_unapproved env c head)
unfolding block_unapproved block_mismatched
block_unapproved-Safe env c head = search (statements, block_each-Safe) depth 20

claim_ids-Safe :
    (env : Env) (owner : String) (lock : RunnerLock) (ids : List ℕ) (st : Status) (note : String)
    (mode : Mode)
    → is_active st ≡ true
    → Safe (claim_ids env owner lock ids st note mode)
unfolding claim_ids give_back
claim_ids-Safe env owner lock ids st note mode active =
    search (statements, claim-Safe, release_lock_token-Safe) depth 20

queued_active : is_active queued ≡ true
queued_active = refl

give_back-Safe : (owner : String) (lock : RunnerLock) → Safe (give_back owner lock)
unfolding give_back
give_back-Safe owner lock = search (statements, release_lock_token-Safe) depth 20

claim_wanted-Safe :
    (env : Env) (c : ClaimRequest) (owner : String) (lock : RunnerLock)
    → Safe (claim_wanted env c owner lock)
unfolding claim_wanted
claim_wanted-Safe env c owner lock =
    search (statements, claim_ids-Safe, block_unapproved-Safe) depth 20

pub claim_all_queued-Safe : (env : Env) (c : ClaimRequest) → Safe (claim_all_queued env c)
unfolding claim_all_queued claim_in_transaction
claim_all_queued-Safe env c =
    search (statements, acquire_lock-Safe, claim_wanted-Safe, give_back-Safe) depth 20

answered-Safe : (answer : Option Error) → Safe (answered answer)
answered-Safe none = search statements
answered-Safe (some e) = search statements

confirmed-Safe :
    (confirm : Confirm) (selected : Option Summary) (jobs : List Job)
    → Safe (confirmed confirm selected jobs)
unfolding confirmed
confirmed-Safe none selected jobs = search statements
confirmed-Safe (some confirm) selected jobs = search (statements, answered-Safe) depth 20

choose-Safe :
    (processing : Processing) (selected : Option Summary) (jobs : List Job)
    → Safe (choose processing selected jobs)
unfolding choose
choose-Safe batch none jobs = search statements
choose-Safe batch (some t) jobs = search statements
choose-Safe ordered none jobs = search statements
choose-Safe ordered (some t) jobs = search (statements) depth 20

or_not_found-Safe : (o : Option Summary) → Safe (or_not_found o)
or_not_found-Safe none = search statements
or_not_found-Safe (some t) = search statements

sole-Safe : (trains : ℕ) (ts : List Summary) → Safe (sole trains ts)
sole-Safe trains [] = search statements
sole-Safe trains (t ∷ more) = search statements

with_members-Safe : (o : Option Summary) → Safe (with_members o)
unfolding with_members
with_members-Safe none = search statements
with_members-Safe (some t) = search (statements) depth 20

select_validated_train-Safe : (train_id : String) → Safe (select_validated_train train_id)
unfolding select_validated_train chosen only_deployable
select_validated_train-Safe train_id =
    search (statements, or_not_found-Safe, sole-Safe, with_members-Safe) depth 20

source_active : (selected : Option Summary) → is_active (source_status selected) ≡ true
source_active none = refl
source_active (some t) = refl

claim_chosen-Safe :
    (env : Env) (owner : String) (lock : RunnerLock) (train_id : String) (confirm : Confirm)
    (processing : Processing)
    → Safe (claim_chosen env owner lock train_id confirm processing)
unfolding claim_chosen
claim_chosen-Safe env owner lock train_id confirm processing =
    search
      (
        statements, select_validated_train-Safe, confirmed-Safe, choose-Safe, claim_ids-Safe,
        source_active,
      )
      depth 20

pub claim_deploy_batch-Safe :
    (env : Env) (owner : String) (ttl : ℕ) (train_id : String) (confirm : Confirm)
    (processing : Processing)
    → Safe (claim_deploy_batch env owner ttl train_id confirm processing)
unfolding claim_deploy_batch deploy_in_transaction
claim_deploy_batch-Safe env owner ttl train_id confirm processing =
    search (statements, acquire_lock-Safe, give_back-Safe, claim_chosen-Safe) depth 20
