-- ===== src/Claims/Deploy.antt =====
-- The claim of a validated train, or of queued jobs where none is ready
-- (src/mergetrain/persistence/claims.py, claim_deploy_batch).
use mergetrain.Prelude.{
  ℕ, Bool, false, ◌&&◌, Option, none, some, List, [], ◌∷◌, String, ltb, if◌then◌else◌, keep_text,
  is_some, ◌==◌, nat_column, length,
}
use mergetrain.Model.{Job, Status, status_column, RunnerLock, queued, validated}
use mergetrain.Store.{
  Env, Error, M, ◌>>=◌, ◌>>◌, return, reads, require, raise, immediate, queue_error,
  deploy_plan_changed, has_status,
}
use mergetrain.Leases.{acquire_lock}
use mergetrain.Recovery.{deploy_reconcile_pending}
use mergetrain.Jobs.Reads.{list_jobs_fifo, ordered_head}
use mergetrain.Jobs.Supersede.{ids}
use mergetrain.Jobs.Trains.{Summary, select_validated_train}
use mergetrain.Claims.{Processing, batch, ordered, deploy, claim_ids, give_back}

-- `confirm_plan`: the error that the callback raises for a train, if it refuses it.
abbrev pub Confirm : Type 0
Confirm = Option (List Job → Option Error)

abbrev pub answered : Option Error → M (Unit {0})
answered none = return tt
answered (some e) = raise e

abbrev pub ask : (List Job → Option Error) → List Job → M (Unit {0})
ask confirm jobs = answered (confirm jobs)

-- With a plan to confirm, only a validated train may be claimed.
unfoldable pub confirmed : Confirm → Option Summary → List Job → M (Unit {0})
confirmed none selected jobs = return tt
confirmed (some confirm) selected jobs = do
  require (is_some selected && ltb 0 (length jobs)) deploy_plan_changed
  ask confirm jobs

-- A Ready train of one job, the earliest unfinished one
abbrev pub is_only : List Job → Option Job → Bool
is_only [] head = false
is_only (j ∷ more) none = false
is_only (j ∷ []) (some head) = j.id == head.id
is_only (j ∷ k ∷ more) (some head) = false

abbrev pub queued_head : Option Job → List Job
queued_head none = []
queued_head (some j) = if has_status queued j then j ∷ [] else []

-- What to claim: the train, or the queued jobs, under the order of processing.
unfoldable pub choose : Processing → Option Summary → List Job → M (List Job)
choose batch (some t) jobs = return jobs
choose batch none jobs = reads (list_jobs_fifo queued)
choose ordered (some t) jobs = do
  head ← reads ordered_head
  require (is_only jobs head) queue_error
  return jobs
choose ordered none jobs = reads (λ s. queued_head (ordered_head s))

abbrev pub source_status : Option Summary → Status
source_status none = queued
source_status (some t) = validated

unfoldable pub claim_chosen :
    Env → String → RunnerLock → String → Confirm → Processing → M (List Job)
claim_chosen env owner lock train_id confirm processing = do
  (selected, validated_jobs) ← select_validated_train train_id
  confirmed confirm selected validated_jobs
  jobs ← choose processing selected validated_jobs
  claim_ids env owner lock (ids jobs) (source_status selected) "claimed by mergetrain deploy runner"
      deploy

unfoldable pub deploy_in_transaction :
    Env → String → ℕ → String → Confirm → Processing → M (List Job)
deploy_in_transaction env owner ttl_minutes train_id confirm processing = do
  lock ← acquire_lock env owner ttl_minutes "" ""
  pending ← reads (deploy_reconcile_pending env)
  if ltb 0 pending
      then give_back owner lock
      else claim_chosen env owner lock train_id confirm processing

unfoldable pub claim_deploy_batch : Env → String → ℕ → String → Confirm → Processing → M (List Job)
claim_deploy_batch env owner ttl_minutes train_id confirm processing = immediate env (
    deploy_in_transaction env (keep_text owner env.default_owner) ttl_minutes train_id confirm
      processing)
