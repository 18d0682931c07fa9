-- ===== src/Leases/Fencing.antt =====
-- Who may hold the runner lock: acquisition, renewal, release and takeover.
use native.Mathlib.Nat.{sub-zero}
use mergetrain.Prelude.{
  ℕ, ◌<◌, ◌≡◌, refl, ◌⊎◌, inl, inr, Bool, true, false, Option, none, some, String, arith,
  if◌then◌else◌, keep_text, text_column, text_eq_iff, ◌∙◌, ◌-◌,
}
use mergetrain.Model.{RunnerLock}
use mergetrain.Store.{Store, Env, ok, err, immediate, granted, lost_lease, immediate-ok}
use mergetrain.Leases.{
  Takeover, refuse, split, clear, free, in_progress_count, lock_takeover, acquire_lock, new_lock,
  take_lock, release_lock_token, clear_way, refresh_runner_lock, recover_orphans, owns, delete_lock,
  requeue_orphans, after_acquire,
}
use mergetrain.Leases.Split.{requeue_orphans_ends_claims}

-- The lock that an acquisition makes is the one in the table, the caller's, with a fresh token.
abbrev pub Acquired : Env → String → RunnerLock → Store → Type 0
Acquired env owner lock t =
    (t.lock ≡ some lock)
    × (lock.token ≡ env.uuid)
    × (lock.owner ≡ keep_text owner env.default_owner)

take_lock-ok :
    (env : Env) (lock : RunnerLock) (action : Takeover) (s : Store) {l : RunnerLock} {t : Store}
    → take_lock env lock action s ≡ ok l t
    → (l ≡ lock) × (t ≡ record (clear_way env action s) { lock = some lock })
take_lock-ok env lock refuse s h = cc
take_lock-ok env lock split s h = ground arith
take_lock-ok env lock clear s h = ground arith
take_lock-ok env lock free s h = ground arith

pub acquire_lock-ok :
    (env : Env) (owner : String) (ttl : ℕ) (worktree head : String) (s : Store) {lock : RunnerLock}
    {t : Store}
    → acquire_lock env owner ttl worktree head s ≡ ok lock t
    → Acquired env owner lock t
unfolding acquire_lock
acquire_lock-ok env owner ttl worktree head s h =
    ground (arith, take_lock-ok env _ (lock_takeover env s) s h)

-- Release deletes the lock of exactly this owner and token, and reports whether it did.
pub release_lock_token_exact :
    (owner token : String) (s : Store) (lock : RunnerLock)
    → s.lock ≡ some lock
    → release_lock_token owner token none s
      ≡ (if owns owner token lock then ok true (delete_lock s) else ok false s)
unfolding release_lock_token
release_lock_token_exact owner token s lock h = ground arith

-- A runner that does not hold the lock cannot renew it, and its attempt writes nothing.
pub refresh_runner_lock_fenced :
    (env : Env) (owner token : String) (ttl : ℕ) (worktree head : Option String) (check : Bool)
    (s : Store) (lock : RunnerLock)
    → env.begin ≡ granted
    → s.lock ≡ some lock
    → (token ≡ lock.token → ⊥)
    → refresh_runner_lock env owner token ttl worktree head check s ≡ err lost_lease s
unfolding refresh_runner_lock immediate
refresh_runner_lock_fenced env owner token ttl worktree head check s lock b h ne =
    ground (arith, text_eq_iff lock.token token)

-- Once a runner has acquired the lock, any other token than the fresh one is worth nothing: on a free
-- database a renewal under it is refused, a release under it does nothing, and neither writes.
pub acquired_lock_fences_old_token :
    (env later : Env) (owner old_owner old : String) (ttl : ℕ) (worktree head : String)
    (check : Bool) (s t : Store) (lock : RunnerLock)
    → acquire_lock env owner ttl worktree head s ≡ ok lock t
    → (old ≡ env.uuid → ⊥)
    → later.begin ≡ granted
    → (refresh_runner_lock later old_owner old ttl none none check t ≡ err lost_lease t)
      × (release_lock_token old_owner old none t ≡ ok false t)
acquired_lock_fences_old_token env later owner old_owner old ttl worktree head check s t lock h ne
      b =
    let (held, fresh, mine) = acquire_lock-ok env owner ttl worktree head s h in
    (
      refresh_runner_lock_fenced later old_owner old ttl none none check t lock b held
          (λ e. ne (e ∙ fresh)),
      ground (
        arith,
        release_lock_token_exact old_owner old t lock held,
        text_eq_iff lock.token old,
        fresh,
      ),
    )

-- What `recover_orphans` leaves behind an acquisition that was not refused.
recover_after :
    (env : Env) (owner : String) (lock : RunnerLock) (before : ℕ) (t : Store)
    → t.lock ≡ some lock
    → lock.owner ≡ owner
    → after_acquire env owner before (ok lock t)
      ≡ ok (before - in_progress_count (delete_lock t)) (delete_lock t)
unfolding release_lock_token
recover_after env owner lock before t h o =
    ground (arith, text_eq_iff lock.owner owner, text_eq_iff lock.token lock.token)

working_takeover :
    (env : Env) (s : Store)
    → 0 < in_progress_count s
    → (lock_takeover env s ≡ refuse) ⊎ (lock_takeover env s ≡ split)
unfolding lock_takeover
working_takeover env s w = ground arith

delete_lock-requeue_orphans :
    (env : Env) (s : Store) (lock : Option RunnerLock)
    → delete_lock (record (requeue_orphans env (delete_lock s)) { lock = lock })
      ≡ requeue_orphans env (delete_lock s)
unfolding requeue_orphans
delete_lock-requeue_orphans env s lock = refl

keep_text_idem : (s t : String) → keep_text (keep_text s t) t ≡ keep_text s t
keep_text_idem s t = ground arith

-- The transaction of `recover_orphans` on a queue with work in progress.
module _ (env : Env) (owner : String) (ttl : ℕ) (s : Store) where
  recovered : RunnerLock
  recovered = new_lock env (keep_text owner env.default_owner) ttl "" ""

  recover_split :
      keep_text owner env.default_owner ≡ owner
      → lock_takeover env s ≡ split
      → after_acquire env owner (in_progress_count s) (acquire_lock env owner ttl "" "" s)
        ≡ ok (in_progress_count s) (requeue_orphans env (delete_lock s))
  unfolding acquire_lock recovered
  recover_split mine e = rw e (
      recover_after env owner recovered (in_progress_count s) _ refl mine
      ∙ rw
          (
            delete_lock-requeue_orphans env s (some recovered),
            requeue_orphans_ends_claims env (delete_lock s),
          )
          (rw (sub-zero (in_progress_count s))))

  recover_body :
      keep_text owner env.default_owner ≡ owner
      → 0 < in_progress_count s
      → (after_acquire env owner (in_progress_count s) (acquire_lock env owner ttl "" "" s)
          ≡ ok 0 s)
        ⊎ (after_acquire env owner (in_progress_count s) (acquire_lock env owner ttl "" "" s)
            ≡ ok (in_progress_count s) (requeue_orphans env (delete_lock s)))
  unfolding acquire_lock
  recover_body mine w = elim (working_takeover env s w) [
    | inl e ↦ inl (rw e)
    | inr e ↦ inr (recover_split mine e)
  ]

-- Recovery that returns either reports 0 and wrote nothing; or it split every claim, left the lock
-- free, and reports how many claims there were, at least one.
pub recover_orphans_outcome :
    (env : Env) (owner : String) (ttl : ℕ) (s : Store) {n : ℕ} {t : Store}
    → recover_orphans env owner ttl s ≡ ok n t
    → ((n ≡ 0) × (t ≡ s))
      ⊎ ((n ≡ in_progress_count s)
          × (0 < n)
          × (t ≡ requeue_orphans env (delete_lock s))
          × (in_progress_count t ≡ 0))
unfolding recover_orphans
recover_orphans_outcome env owner ttl s h = ground (
  arith,
  immediate-ok env _ s h,
  recover_body env (keep_text owner env.default_owner) ttl s
      (keep_text_idem owner env.default_owner),
  requeue_orphans_ends_claims env (delete_lock s),
)
