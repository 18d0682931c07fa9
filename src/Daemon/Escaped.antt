-- ===== src/Daemon/Escaped.antt =====
-- A batch that raises: what the tick leaves of its claims and of its lease.
use mergetrain.Prelude.{
  true, false, none, List, ◌∷◌, String, ◌≡◌, refl, ap, ◌∙◌, inl, inr, Option-cases, arith, Each,
  if◌then◌else◌,
}
use mergetrain.Model.{Job}
use mergetrain.Store.{
  Store, Env, Error, M, ◌>>=◌, ◌>>◌, modify, return, Outcome, ok, err, granted, immediate_commits,
}
use mergetrain.Leases.{
  in_progress_count, requeue_orphans, delete_lock, holds, release_lock_token,
  force_clear_lock_and_split,
}
use mergetrain.Leases.Split.{
  requeue_orphans_ends_claims, KeepsEvidence, requeue_orphans-KeepsEvidence,
}
use mergetrain.Daemon.{Tick, processing, splitting, process_claimed, split_then, after_batch, grade}

held_lock :
    (owner token : String) (s : Store)
    → holds owner token s ≡ true
    → release_lock_token owner token none s ≡ ok true (delete_lock s)
unfolding release_lock_token
held_lock owner token s h = elim (Option-cases s.lock) [
  | inl none_held ↦ absurd (ground (arith, none_held))
  | inr (lock, e) ↦ ground (arith, e)
]

goes_on :
    {A B : Type 0} (m : M A) (f : A → M B) (s : Store) {u : Store} {a : A}
    → m s ≡ ok a u
    → (m >>= f) s ≡ f a u
goes_on {B = B} m f s e =
    ap (λ o. elim o as (λ _. Outcome B) [ ok a t ↦ f a t | err x t ↦ err x t ]) e

-- Where the lease is held and SQLite commits, the lease is gone and the claims are split.
pub force_clear_lock_and_split-held :
    (env : Env) (owner token : String) (s : Store)
    → env.begin ≡ granted
    → env.commit ≡ granted
    → holds owner token s ≡ true
    → force_clear_lock_and_split env false owner token none s
      ≡ ok true (requeue_orphans env (delete_lock s))
unfolding force_clear_lock_and_split
force_clear_lock_and_split-held env owner token s b c h =
    let released = held_lock owner token s h in
    immediate_commits env _ s b c (
      goes_on (release_lock_token owner token none)
        (λ cleared. do modify (λ u. if cleared then requeue_orphans env u else u); return cleared) s
        released)

requeue_orphans-lock : (env : Env) (s : Store) → (requeue_orphans env s).lock ≡ s.lock
unfolding requeue_orphans
requeue_orphans-lock env s = refl

-- Where the batch raises while the lease is still the tick's own and SQLite commits, the tick raises the
-- error of the batch and leaves no lock and no job in progress; a row whose push may have landed keeps
-- its marker and is parked for reconcile, and a row that was not in progress is as it was.
pub process_claimed-KeepsEvidence :
    (t : Tick) (job : Job) (jobs blocked_jobs : List Job) (s u : Store) (e : Error)
    → t.process_batch (job ∷ jobs) (t.others processing s) ≡ err e u
    → holds t.owner job.claim_token (t.others splitting u) ≡ true
    → (t.env splitting).begin ≡ granted
    → (t.env splitting).commit ≡ granted
    → (left : Store) × (process_claimed t job jobs blocked_jobs s ≡ err e left)
      × (left.lock ≡ none)
      × (in_progress_count left ≡ 0)
      × Each KeepsEvidence (t.others splitting u).jobs left.jobs
unfolding process_claimed
process_claimed-KeepsEvidence t job jobs blocked_jobs s u e raised held b c =
    let before : Store = t.others splitting u in
    let left : Store = requeue_orphans (t.env splitting) (delete_lock before) in
    let split =
      force_clear_lock_and_split-held (t.env splitting) t.owner job.claim_token before b c held in
    let ended : after_batch t job.claim_token (grade t (job ∷ jobs) blocked_jobs) (err e u)
        ≡ err e left =
      ap (split_then t job.claim_token e) split in
    (
      left,
      ap (after_batch t job.claim_token (grade t (job ∷ jobs) blocked_jobs)) raised ∙ ended,
      requeue_orphans-lock (t.env splitting) (delete_lock before),
      requeue_orphans_ends_claims (t.env splitting) (delete_lock before),
      requeue_orphans-KeepsEvidence (t.env splitting) (delete_lock before),
    )
