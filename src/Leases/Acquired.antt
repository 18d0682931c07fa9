-- ===== src/Leases/Acquired.antt =====
-- When the runner lock can be taken, and what a taking leaves of the claims.
use mergetrain.Prelude.{
  ℕ, ◌<◌, ◌≤◌, ◌≡◌, ◌≢◌, refl, ◌⊎◌, inl, inr, false, none, some, List, [], ◌∷◌, String, arith,
  keep_text, Each, count_where, Option-cases,
}
use mergetrain.Model.{Job, RunnerLock, Liveness, dead, alive, unknown, status_column, in_progress}
use mergetrain.Store.{Store, Env, ok, err, lock_held, parse_utc, has_status}
use mergetrain.Leases.{
  refuse, split, clear, free, in_progress_count, lock_takeover, acquire_lock, new_lock,
  requeue_orphans, delete_lock,
}
use mergetrain.Leases.Split.{
  requeue_orphans_ends_claims, KeepsEvidence, requeue_orphans-KeepsEvidence,
}
use mergetrain.Leases.Fencing.{Acquired}

-- The lock in the table is not that of a dead process, and its lease has not expired or jobs are in
-- progress.
abbrev pub Blocks : Env → Store → Type 0
Blocks env s =
    (lock : RunnerLock) × (s.lock ≡ some lock)
    × (env.owner_liveness lock.owner ≢ dead)
    × ((env.now < parse_utc lock.expires_at) ⊎ (0 < in_progress_count s))

-- There is no lock, or that of a dead process, or an expired one with no job in progress.
abbrev pub Yields : Env → Store → Type 0
Yields env s =
    (s.lock ≡ none)
    ⊎ ((lock : RunnerLock) × (s.lock ≡ some lock)
        × ((env.owner_liveness lock.owner ≡ dead)
            ⊎ ((parse_utc lock.expires_at ≤ env.now) × (in_progress_count s ≡ 0))))

-- The caller's lock, and no claim but with what a split keeps
abbrev pub Taken : Env → String → Store → RunnerLock → Store → Type 0
Taken env owner s lock t =
    Acquired env owner lock t × (in_progress_count t ≡ 0) × Each KeepsEvidence s.jobs t.jobs

untouched : (js : List Job) → count_where (has_status in_progress) js ≡ 0 → Each KeepsEvidence js js
unfolding count_where
untouched [] h = tt
untouched (j ∷ js) h =
    let others : count_where (has_status in_progress) js ≡ 0 = ground arith in
    let idle : has_status in_progress j ≡ false = ground arith in
    ((refl, refl, refl, (λ claimed. absurd (ground arith)), (λ e. refl)), untouched js others)

liveness_cases : (l : Liveness) → (l ≡ dead) ⊎ (l ≢ dead)
liveness_cases dead = inl refl
liveness_cases alive = inr (λ e. cc)
liveness_cases unknown = inr (λ e. cc)

-- How the takeover decides, by the lock in the table
abbrev Decides : Env → Store → Type 0
Decides env s =
    ((lock_takeover env s ≡ refuse) × Blocks env s)
    ⊎ (Yields env s
        × ((lock_takeover env s ≡ split)
            ⊎ (((lock_takeover env s ≡ clear) ⊎ (lock_takeover env s ≡ free))
                × (in_progress_count s ≡ 0))))

work_cases : (n : ℕ) → (n ≡ 0) ⊎ (0 < n)
work_cases n = ground arith

lease_cases : (m n : ℕ) → (m < n) ⊎ (n ≤ m)
lease_cases m n = ground arith

lock_takeover-Decides : (env : Env) (s : Store) → Decides env s
unfolding lock_takeover
lock_takeover-Decides env s = elim (Option-cases s.lock) [
  | inl none_held ↦ elim (work_cases (in_progress_count s)) [
    | inl idle ↦ inr (inl none_held, inr (inr (ground arith), idle))
    | inr working ↦ inr (inl none_held, inl (ground arith))
  ]
  | inr (lock, e) ↦ elim (liveness_cases (env.owner_liveness lock.owner)) [
    | inl gone ↦ inr (inr (lock, e, inl gone), inl (ground arith))
    | inr there ↦ elim (lease_cases env.now (parse_utc lock.expires_at)) [
      | inl held ↦ inl (ground arith, (lock, e, there, inl held))
      | inr expired ↦ elim (work_cases (in_progress_count s)) [
        | inl idle ↦ inr (inr (lock, e, inr (expired, idle)), inr (inl (ground arith), idle))
        | inr working ↦ inl (ground arith, (lock, e, there, inr working))
      ]
    ]
  ]
]

-- The lock is refused, and nothing written, where the one in the table is not a dead process's and its
-- lease has not expired or jobs are in progress. Otherwise, which is where there is none, or one of a
-- dead process, or an expired one and no job in progress, it is taken: the table holds the caller's
-- lock with the fresh token, no job is in progress any more, a job whose push may have landed is parked
-- with its marker, and a row that was not in progress is as it was.
pub acquire_lock_cases :
    (env : Env) (owner : String) (ttl : ℕ) (worktree head : String) (s : Store)
    → (Blocks env s × (acquire_lock env owner ttl worktree head s ≡ err lock_held s))
      ⊎ (Yields env s
          × ((lock : RunnerLock) × (t : Store) × (acquire_lock env owner ttl worktree head s
                ≡ ok lock t)
              × Taken env owner s lock t))
unfolding acquire_lock in_progress_count requeue_orphans
acquire_lock_cases env owner ttl worktree head s =
    let lock : RunnerLock = new_lock env (keep_text owner env.default_owner) ttl worktree head in
    elim (lock_takeover-Decides env s) [
      | inl (refused, blocks) ↦ inl (blocks, rw refused refl)
      | inr (yields, inl splits) ↦ inr (
        yields,
        (
          lock,
          record (requeue_orphans env (delete_lock s)) { lock = some lock },
          rw splits refl,
          (
            (refl, refl, refl),
            requeue_orphans_ends_claims env (delete_lock s),
            requeue_orphans-KeepsEvidence env (delete_lock s),
          ),
        ),
      )
      | inr (yields, inr (inl clears, idle)) ↦ inr (
        yields,
        (
          lock,
          record s { lock = some lock },
          rw clears refl,
          ((refl, refl, refl), idle, untouched s.jobs idle),
        ),
      )
      | inr (yields, inr (inr frees, idle)) ↦ inr (
        yields,
        (
          lock,
          record s { lock = some lock },
          rw frees refl,
          ((refl, refl, refl), idle, untouched s.jobs idle),
        ),
      )
    ]
