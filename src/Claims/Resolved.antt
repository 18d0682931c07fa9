-- ===== src/Claims/Resolved.antt =====
-- A claim of queued jobs for the daemon: it takes none while a push is unresolved.
use mergetrain.Prelude.{
  ◌≡◌, refl, Bool, true, false, not, ◌&&◌, ◌||◌, List, [], ◌∷◌, String, arith, keep_text,
  if◌then◌else◌, exists_where,
}
use mergetrain.Model.{Job, RunnerLock, validated}
use mergetrain.Store.{Store, Env, ok, immediate-ok, >>=-eq-ok, require, queue_error, has_status}
use mergetrain.Leases.{acquire_lock}
use mergetrain.Recovery.{deploy_reconcile_pending}
use mergetrain.Claims.{
  ClaimRequest, must_pause, give_back, give_back_all, claim_wanted, claim_in_transaction,
  claim_all_queued,
}

-- What is given back is no job.
given_back :
    (owner : String) (lock : RunnerLock) (s : Store) {jobs blocked_jobs : List Job} {t : Store}
    → give_back_all owner lock s ≡ ok (jobs, blocked_jobs) t
    → jobs ≡ []
unfolding give_back
given_back owner lock s h = ground arith

unresolved_none :
    (env : Env) (c : ClaimRequest) (s : Store)
    → must_pause env c s ≡ false
    → c.auto_only || c.manual_only ≡ true
    → deploy_reconcile_pending env s ≡ 0
unfolding must_pause
unresolved_none env c s h mode = ground arith

not_validated :
    (env : Env) (c : ClaimRequest) (s : Store)
    → must_pause env c s ≡ false
    → c.manual_only ≡ true
    → exists_where (has_status validated) s.jobs ≡ false
unfolding must_pause
not_validated env c s h mode = ground arith

no_job : (job : Job) (jobs : List Job) → job ∷ jobs ≡ [] → ⊥
no_job job jobs h = ground arith

-- The lock was taken over, and then no push was unresolved and, for a manual claim, no job validated.
abbrev pub Resolved : Env → ClaimRequest → Store → Type 0
Resolved env c s =
    (lock : RunnerLock) × (v : Store) × (acquire_lock env (keep_text c.owner env.default_owner)
        c.ttl_minutes "" "" s
      ≡ ok lock v)
    × (deploy_reconcile_pending env v ≡ 0)
    × (c.manual_only ≡ true → exists_where (has_status validated) v.jobs ≡ false)

going_on :
    (env : Env) (c : ClaimRequest) (owner : String) (lock : RunnerLock) (s : Store) (pause : Bool)
    (job : Job) (jobs blocked_jobs : List Job) (t : Store)
    → (if pause then give_back_all owner lock else claim_wanted env c owner lock) s
      ≡ ok (job ∷ jobs, blocked_jobs) t
    → pause ≡ false
going_on env c owner lock s true job jobs blocked_jobs t h =
    absurd (no_job job jobs (given_back owner lock s h))
going_on env c owner lock s false job jobs blocked_jobs t h = refl

claim_in_transaction-Resolved :
    (env : Env) (c : ClaimRequest) (s t : Store) (job : Job) (jobs blocked_jobs : List Job)
    → c.auto_only || c.manual_only ≡ true
    → claim_in_transaction env c s ≡ ok (job ∷ jobs, blocked_jobs) t
    → Resolved env c s
unfolding claim_in_transaction
claim_in_transaction-Resolved env c s t job jobs blocked_jobs mode h =
    let owner : String = keep_text c.owner env.default_owner in
    let (lock, v, acquired, rest) = >>=-eq-ok (acquire_lock env owner c.ttl_minutes "" "") _ s h in
    let goes : must_pause env c v ≡ false =
      going_on env c owner lock v (must_pause env c v) job jobs blocked_jobs t rest in
    (lock, v, acquired, unresolved_none env c v goes mode, not_validated env c v goes)

unchanged : (b : Bool) (s v : Store) → require b queue_error s ≡ ok tt v → v ≡ s
unchanged b s v h = ground arith

-- A claim of the --auto or of the manual jobs that takes a job has taken over the lock, after the split
-- of a stopped runner's claims, and then found no unresolved push and, for the manual jobs, no
-- validated train.
pub claim_all_queued-Resolved :
    (env : Env) (c : ClaimRequest) (s t : Store) (job : Job) (jobs blocked_jobs : List Job)
    → c.auto_only || c.manual_only ≡ true
    → claim_all_queued env c s ≡ ok (job ∷ jobs, blocked_jobs) t
    → Resolved env c s
unfolding claim_all_queued
claim_all_queued-Resolved env c s t job jobs blocked_jobs mode h =
    let (_, v, checked, body) =
      >>=-eq-ok (require (not (c.auto_only && c.manual_only)) queue_error) _ s h in
    let same : v ≡ s = unchanged (not (c.auto_only && c.manual_only)) s v checked in
    claim_in_transaction-Resolved env c s t job jobs blocked_jobs mode
      (immediate-ok env (claim_in_transaction env c) s (rw (← same) body))
