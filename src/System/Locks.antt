-- ===== src/System/Locks.antt =====
-- Leases and claims keep the queue well formed.
use mergetrain.Prelude.{
  ℕ, ◌≡◌, refl, ap, Bool, true, false, Option, none, some, List, [], ◌∷◌, String, arith, map,
  update_where, if◌then◌else◌, ◌⊎◌, inl, inr, keep_text, ◌==◌, nat_column,
}
use mergetrain.Model.{Job, RunnerLock, Stamp}
use mergetrain.Store.{
  Store, Env, Outcome, ok, err, Keeps-bind, Keeps-modify, final, Error, modify, Keeps-reads,
  Keeps-immediate,
}
use mergetrain.Leases.{
  in_progress_count, Takeover, refuse, split, clear, free, requeue_orphans, take_lock, acquire_lock,
  lock_takeover, acquire_runner_lock, release_lock_token, release_runner_lock, refresh_runner_lock,
  force_clear_lock_and_split, recover_orphans, after_acquire, renew_lock,
}
use mergetrain.Leases.Split.{settle, requeue_orphans_by_case}
use mergetrain.System.WellFormed.{WellFormed, SafeUpdate, update_jobs-WellFormed}
use mergetrain.System.Operations.{Safe, statements}

settle-SafeUpdate : (env : Env) → SafeUpdate (λ _. true) (settle env)
unfolding settle
settle-SafeUpdate env = record {
  same_id = λ j. ground arith;
  same_branch = λ j. ground arith;
  no_revival = λ j hit active. ground arith;
  sound = λ j hit sound. ground arith;
}

update_all : (f : Job → Job) (js : List Job) → update_where (λ _. true) f js ≡ map f js
unfolding update_where
update_all f [] = refl
update_all f (j ∷ js) = ap (◌∷◌ (f j)) (update_all f js)

pub requeue_orphans-WellFormed :
    (env : Env) (s : Store) → WellFormed s → WellFormed (requeue_orphans env s)
requeue_orphans-WellFormed env s w =
    rw (requeue_orphans_by_case env s, ← update_all (settle env) s.jobs)
      (update_jobs-WellFormed (λ _. true) (settle env) (settle-SafeUpdate env) s w)

-- The lock is no part of it.
lock-WellFormed :
    (s : Store) (lock : Option RunnerLock) → WellFormed s → WellFormed (record s { lock = lock })
lock-WellFormed s lock w = record {
  ids = w.ids;
  distinct = w.distinct;
  unique = w.unique;
  rows = w.rows;
}

take_lock-WellFormed :
    (env : Env) (lock : RunnerLock) (action : Takeover) (s : Store)
    → WellFormed s
    → WellFormed (final (take_lock env lock action s))
take_lock-WellFormed env lock refuse s w = w
take_lock-WellFormed env lock split s w =
    lock-WellFormed _ (some lock) (requeue_orphans-WellFormed env _ (lock-WellFormed s none w))
take_lock-WellFormed env lock clear s w = lock-WellFormed s (some lock) w
take_lock-WellFormed env lock free s w = lock-WellFormed s (some lock) w

pub acquire_lock-Safe :
    (env : Env) (owner : String) (ttl : ℕ) (worktree head : String)
    → Safe (acquire_lock env owner ttl worktree head)
unfolding acquire_lock
acquire_lock-Safe env owner ttl worktree head = record {
  after = λ s w. take_lock-WellFormed env _ (lock_takeover env s) s w;
}

pub acquire_runner_lock-Safe :
    (env : Env) (owner : String) (ttl : ℕ) (worktree head : String)
    → Safe (acquire_runner_lock env owner ttl worktree head)
unfolding acquire_runner_lock
acquire_runner_lock-Safe env owner ttl worktree head = search (statements, acquire_lock-Safe)

release_lock_token-final :
    (owner token : String) (at : Option Stamp) (s : Store)
    → (final (release_lock_token owner token at s) ≡ s)
      ⊎ (final (release_lock_token owner token at s) ≡ record s { lock = none })
unfolding release_lock_token
release_lock_token-final owner token at s = ground arith

pub release_lock_token-Safe :
    (owner token : String) (at : Option Stamp) → Safe (release_lock_token owner token at)
unfolding release_lock_token
release_lock_token-Safe owner token at = record {
  after = λ s w. elim (release_lock_token-final owner token at s) [
    | inl e ↦ rw e w
    | inr e ↦ rw e (lock-WellFormed s none w)
  ];
}

pub release_runner_lock-Safe :
    (env : Env) (owner token : String) → Safe (release_runner_lock env owner token)
unfolding release_runner_lock
release_runner_lock-Safe env owner token = search (statements, release_lock_token-Safe)

-- A call that writes neither the rows nor the next key
pub same_rows-WellFormed :
    (s t : Store) → t.jobs ≡ s.jobs → t.next_id ≡ s.next_id → WellFormed s → WellFormed t
same_rows-WellFormed s t jobs next w = record {
  ids = rw (jobs, next) w.ids;
  distinct = rw jobs w.distinct;
  unique = rw jobs w.unique;
  rows = rw jobs w.rows;
}

renew_lock-rows :
    (env : Env) (owner token : String) (ttl : ℕ) (worktree head : Option String) (s : Store)
    → ((final (renew_lock env owner token ttl worktree head s)).jobs ≡ s.jobs)
      × ((final (renew_lock env owner token ttl worktree head s)).next_id ≡ s.next_id)
renew_lock-rows env owner token ttl worktree head s = ground arith

renew_lock-Safe :
    (env : Env) (owner token : String) (ttl : ℕ) (worktree head : Option String)
    → Safe (renew_lock env owner token ttl worktree head)
renew_lock-Safe env owner token ttl worktree head = record {
  after = λ s w.
      let (jobs, next) = renew_lock-rows env owner token ttl worktree head s in
      same_rows-WellFormed s _ jobs next w;
}

pub refresh_runner_lock-Safe :
    (env : Env) (owner token : String) (ttl : ℕ) (worktree head : Option String) (check : Bool)
    → Safe (refresh_runner_lock env owner token ttl worktree head check)
unfolding refresh_runner_lock
refresh_runner_lock-Safe env owner token ttl worktree head check =
    search (statements, renew_lock-Safe) depth 20

split_if-Safe :
    (env : Env) (released : Bool)
    → Safe (modify (λ s. if released then requeue_orphans env s else s))
split_if-Safe env true = Keeps-modify WellFormed _ (requeue_orphans-WellFormed env)
split_if-Safe env false = Keeps-modify WellFormed _ (λ s w. w)

pub force_clear_lock_and_split-Safe :
    (env : Env) (in_transaction : Bool) (owner token : String) (at : Option Stamp)
    → Safe (force_clear_lock_and_split env in_transaction owner token at)
unfolding force_clear_lock_and_split
force_clear_lock_and_split-Safe env true owner token at =
    search (statements, release_lock_token-Safe, split_if-Safe) depth 20
force_clear_lock_and_split-Safe env false owner token at =
    search (statements, release_lock_token-Safe, split_if-Safe) depth 20

after_acquire-WellFormed :
    (env : Env) (owner : String) (before : ℕ) (o : Outcome RunnerLock)
    → WellFormed (final o)
    → WellFormed (final (after_acquire env owner before o))
after_acquire-WellFormed env owner before (ok lock t) w =
    (Keeps-bind WellFormed (release_lock_token owner lock.token none) _
        (release_lock_token-Safe owner lock.token none) (λ _. Keeps-reads WellFormed _)).after
      t w
after_acquire-WellFormed env owner before (err Error.queue_error t) w = w
after_acquire-WellFormed env owner before (err _ t) w = w

if-WellFormed {ℓ} :
    {A : Type ℓ} (test : Bool) (o p : Outcome A)
    → WellFormed (final o)
    → WellFormed (final p)
    → WellFormed (final (if test then o else p))
if-WellFormed true o p h k = h
if-WellFormed false o p h k = k

pub recover_orphans-Safe :
    (env : Env) (owner : String) (ttl : ℕ) → Safe (recover_orphans env owner ttl)
unfolding recover_orphans
recover_orphans-Safe env owner ttl =
    let me = keep_text owner env.default_owner in
    Keeps-immediate WellFormed env _ (record {
      after = λ s w. if-WellFormed (in_progress_count s == 0) _ _ w (
          after_acquire-WellFormed env me (in_progress_count s) (acquire_lock env me ttl "" "" s)
            ((acquire_lock-Safe env me ttl "" "").after s w));
    })
