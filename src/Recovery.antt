-- ===== src/Recovery.antt =====
-- The write-ahead marker of a push and the guard of deploys
-- (src/mergetrain/persistence/recovery.py).
pub mod Fence
pub mod Refs
use Prim.Native.Char.{code}
use mergetrain.Prelude.{
  ℕ, suc, ◌+◌, ◌≡◌, Bool, true, false, not, ◌&&◌, ◌||◌, Option, none, some, List, [], ◌∷◌, String,
  ltb, leb, if◌then◌else◌, nonempty, keep, keep_text, ◌<>◌, is_some, select, first, count_where,
  exists_where, update_where, map, ◌==◌, nat_column, text_column, strip, one_line, decimal,
  comma_join, length, take, reverse, elem, dedup, join_lines, split_lines,
}
use mergetrain.Model.{
  Job, Marker, Deployment, Status, status_column, PushStatus, in_progress, needs_reconcile,
  no_marker, no_deployment, has_marker, RunnerLock,
}
use mergetrain.Store.{
  Store, Env, M, ◌>>=◌, ◌>>◌, return, reads, require, raise, immediate, queue_error, lost_lease,
  cancellation_requested, update_counted, has_status, Outcome, ok, err,
}
use mergetrain.Leases.{active_runner_lock}

abbrev token_of : Option RunnerLock → String
token_of none = ""
token_of (some lock) = lock.token

-- A parked job, or a push in progress that no active runner accounts for.
abbrev pub is_unresolved : String → Job → Bool
is_unresolved active_token j =
    has_status needs_reconcile j
    || (has_status in_progress j
        && has_marker j
        && (not (nonempty active_token) || not (j.claim_token == active_token)))

unfoldable pub deploy_reconcile_pending : Env → Store → ℕ
deploy_reconcile_pending env s =
    count_where (is_unresolved (token_of (active_runner_lock env s))) s.jobs

unfoldable pub pack_push_refs : List String → String
pack_push_refs refs = join_lines refs

abbrev nonempty_texts : List String → List String
nonempty_texts [] = []
nonempty_texts (t ∷ ts) = let rest = nonempty_texts ts in if nonempty t then t ∷ rest else rest

unfoldable pub unpack_push_refs : String → List String
unpack_push_refs packed = nonempty_texts (split_lines packed)

-- What a push is about to do.
pub record PendingPush : Type 0 where
  pub deploy_sha : String
  pub claim_token : String
  pub remote : String
  pub push_refs : List String
  pub destination_sha : String
  pub deployment_id : String
  pub verification_policy_sha : String

abbrev pub pushed_marker : PendingPush → Marker
pushed_marker p = record {
  pending_deploy_sha = p.deploy_sha;
  pending_deploy_remote = p.remote;
  pending_deploy_refs = pack_push_refs p.push_refs;
  pending_deploy_destination_sha = p.destination_sha;
}

-- `deployment_id or uuid.uuid4().hex`
abbrev pub pushed_deployment : Env → PendingPush → Deployment
pushed_deployment env p = record {
  deployment_id = keep_text p.deployment_id env.uuid;
  deployment_destination_sha = p.destination_sha;
  verification_policy_sha = p.verification_policy_sha;
}

abbrev pub mark_pending : Env → PendingPush → Job → Job
mark_pending env p j = record j {
  marker = pushed_marker p;
  push_status = PushStatus.pending;
  deployment = pushed_deployment env p;
}

-- One of the ids, in progress under the claim
abbrev pub is_claimed : List ℕ → String → Job → Bool
is_claimed ids token j = elem j.id ids && has_status in_progress j && j.claim_token == token

abbrev pub may_push : List ℕ → String → Job → Bool
may_push ids token j = is_claimed ids token j && not (is_some j.cancel_requested_at)

abbrev pub is_canceled_push : List ℕ → String → Job → Bool
is_canceled_push ids token j = is_claimed ids token j && is_some j.cancel_requested_at

unfoldable pub push_in_transaction : Env → List ℕ → PendingPush → M (Unit {0})
push_in_transaction env ids p = do
  changed ← update_counted (may_push ids p.claim_token) (mark_pending env p)
  canceled ← reads (λ s. exists_where (is_canceled_push ids p.claim_token) s.jobs)
  if changed == length ids
      then return tt
      else if canceled
      then raise cancellation_requested
      else raise lost_lease

unfoldable pub record_pending_push : Env → List ℕ → PendingPush → M (Unit {0})
record_pending_push env job_ids p =
    if length (dedup job_ids) == 0
    then return tt
    else if nonempty p.deploy_sha
    then immediate env (push_in_transaction env (dedup job_ids) p)
    else raise queue_error

abbrev pub reject_push : Job → Job
reject_push j = record j {
  marker = no_marker;
  deployment = no_deployment;
  push_status = PushStatus.failed;
}

unfoldable pub clear_in_transaction : List ℕ → String → M (Unit {0})
clear_in_transaction ids token = do
  changed ← update_counted (is_claimed ids token) reject_push
  require (changed == length ids) lost_lease

unfoldable pub clear_rejected_push : Env → List ℕ → String → M (Unit {0})
clear_rejected_push env job_ids token =
    if length (dedup job_ids) == 0
    then return tt
    else immediate env (clear_in_transaction (dedup job_ids) token)
