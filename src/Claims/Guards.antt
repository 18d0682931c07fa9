-- ===== src/Claims/Guards.antt =====
-- What a stopped runner's push means for the next deploy.
use mergetrain.Prelude.{
  ℕ, ◌≡◌, ◌≤◌, ◌<◌, refl, some, List, [], ◌∷◌, String, arith, count_where, map, nat_column,
  keep_text, text_column, text_eq_refl,
}
use mergetrain.Model.{Job, RunnerLock}
use mergetrain.Store.{Store, Env, ok, granted, immediate_commits}
use mergetrain.Leases.{
  lock_takeover, split, acquire_lock, new_lock, delete_lock, requeue_orphans, is_pushed_orphan,
}
use mergetrain.Leases.Split.{settle, requeue_orphans_by_case}
use mergetrain.Leases.Fencing.{release_lock_token_exact}
use mergetrain.Recovery.{is_unresolved, deploy_reconcile_pending}
use mergetrain.Claims.{Processing, give_back}
use mergetrain.Claims.Deploy.{Confirm, deploy_in_transaction, claim_deploy_batch}

-- Every claim with a marker is unresolved once it was split.
unresolved-settle :
    (env : Env) (token : String) (js : List Job)
    → count_where is_pushed_orphan js ≤ count_where (is_unresolved token) (map (settle env) js)
unfolding count_where settle
unresolved-settle env token [] = omega arith
unresolved-settle env token (j ∷ js) = ground (arith, unresolved-settle env token js)

module _ (env : Env) (owner : String) (ttl : ℕ) (s : Store) where
  taken_lock : RunnerLock
  taken_lock = new_lock env (keep_text owner env.default_owner) ttl "" ""

  after_split : Store
  after_split = record (requeue_orphans env (delete_lock s)) { lock = some taken_lock }

  acquire_lock-split :
      lock_takeover env s ≡ split → acquire_lock env owner ttl "" "" s ≡ ok taken_lock after_split
  unfolding acquire_lock taken_lock after_split
  acquire_lock-split e = rw e refl

  still_unresolved :
      (token : String)
      → 0 < count_where is_pushed_orphan s.jobs
      → 0 < count_where (is_unresolved token) (requeue_orphans env (delete_lock s)).jobs
  still_unresolved token h =
      rw (requeue_orphans_by_case env (delete_lock s))
        (omega (arith, unresolved-settle env token s.jobs))

  still_pending :
      0 < count_where is_pushed_orphan s.jobs → 0 < deploy_reconcile_pending env after_split
  unfolding deploy_reconcile_pending after_split
  still_pending h = still_unresolved _ h

  give_back-after_split :
      keep_text owner env.default_owner ≡ owner
      → give_back owner taken_lock after_split ≡ ok [] (requeue_orphans env (delete_lock s))
  unfolding give_back taken_lock after_split requeue_orphans
  give_back-after_split mine = ground (
    arith,
    mine,
    release_lock_token_exact owner env.uuid after_split taken_lock refl,
    text_eq_refl owner,
    text_eq_refl env.uuid,
  )

deploy-parks :
    (env : Env) (owner : String) (ttl : ℕ) (train_id : String) (confirm : Confirm)
    (processing : Processing) (s : Store)
    → keep_text owner env.default_owner ≡ owner
    → lock_takeover env s ≡ split
    → 0 < count_where is_pushed_orphan s.jobs
    → deploy_in_transaction env owner ttl train_id confirm processing s
      ≡ ok [] (requeue_orphans env (delete_lock s))
unfolding deploy_in_transaction
deploy-parks env owner ttl train_id confirm processing s mine takeover stranded = ground (
  arith,
  acquire_lock-split env owner ttl s takeover,
  still_pending env owner ttl s stranded,
  give_back-after_split env owner ttl s mine,
)

-- On a free database, a deploy that takes over from a stopped runner with a push in flight claims
-- nothing: it splits the claims, which parks the push for reconcile, and gives the lock back.
pub claim_deploy_batch_parks :
    (env : Env) (owner : String) (ttl : ℕ) (train_id : String) (confirm : Confirm)
    (processing : Processing) (s : Store)
    → env.begin ≡ granted
    → env.commit ≡ granted
    → lock_takeover env s ≡ split
    → 0 < count_where is_pushed_orphan s.jobs
    → claim_deploy_batch env owner ttl train_id confirm processing s
      ≡ ok [] (requeue_orphans env (delete_lock s))
unfolding claim_deploy_batch
claim_deploy_batch_parks env owner ttl train_id confirm processing s begin commit takeover
      stranded =
    immediate_commits env _ s begin commit (
      deploy-parks env (keep_text owner env.default_owner) ttl train_id confirm processing s
        (ground arith) takeover stranded)
