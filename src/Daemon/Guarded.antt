-- ===== src/Daemon/Guarded.antt =====
-- When a tick of the daemon runs a batch.
use mergetrain.Prelude.{
  ℕ, Bool, true, false, not, ◌||◌, Option, none, some, List, [], ◌∷◌, String, nonempty,
  if◌then◌else◌, ltb, ◌==◌, text_column, ◌≡◌, refl, arith, Option-cases, ◌⊎◌, inl, inr,
}
use mergetrain.Model.{Job, RunnerLock}
use mergetrain.Store.{
  Store, Env, M, ◌>>=◌, ◌>>◌, return, raise, reads, Outcome, ok, err, queue_error,
}
use mergetrain.Leases.{
  in_progress_count, active_runner_lock, force_clear_lock_and_split, recover_orphans,
}
use mergetrain.Recovery.{deploy_reconcile_pending}
use mergetrain.Jobs.Trains.{validated_train_summaries}
use mergetrain.Claims.{claim_all_queued}
use mergetrain.Claims.Resolved.{Resolved, claim_all_queued-Resolved}
use mergetrain.Daemon.Grade.{TickOutcome, idle}
use mergetrain.Daemon.{
  Tick, probing, clearing, recovering, reading, claiming, Probe, stop, go_on, probe, probe_lock,
  pause, has_work, has_train, process_claimed, after_claim, claim_or_idle, request, sha_or,
  claim_with, tick_claim, tick_work, or_go_on, after_probe, daemon_tick, others_at,
}

abbrev pub with_runner : Tick → (List Job → M (List Job)) → Tick
with_runner t runner = record t { process_batch = runner }

-- No push is unresolved in the database and, where the tick validates, no train is validated.
abbrev pub Clear : Tick → Env → Store → Type 0
Clear t env s =
    (deploy_reconcile_pending env s ≡ 0)
    × (t.validate_only ≡ true → has_train (validated_train_summaries s) ≡ false)

-- The outcome is that of the batch of jobs that were claimed, from a database that was clear and had
-- work, and whose claim took over the lock and found no unresolved push.
abbrev pub Claimed : Tick → Outcome TickOutcome → Type 0
Claimed t o =
    (seen : Store) × (claimed : Store) × (job : Job) × (jobs : List Job) × (blocked_jobs : List Job)
    × (destination : String) × (policy : String) × (o
        ≡ process_claimed t job jobs blocked_jobs claimed)
    × (claim_all_queued (t.env claiming) (request t destination policy) (t.others claiming seen)
        ≡ ok (job ∷ jobs, blocked_jobs) claimed)
    × Resolved (t.env claiming) (request t destination policy) (t.others claiming seen)
    × Clear t (t.env reading) seen
    × (has_work t seen ≡ true)

abbrev Guarded : Tick → ((List Job → M (List Job)) → Outcome TickOutcome) → Type 0
Guarded t run =
    ((runner : List Job → M (List Job)) → run runner ≡ run t.process_batch)
    ⊎ Claimed t (run t.process_batch)

one_mode : (b : Bool) → not b || b ≡ true
one_mode b = ground arith

pause-Clear : (t : Tick) (env : Env) (s : Store) → pause t env s ≡ none → Clear t env s
unfolding pause
pause-Clear t env s h = (ground arith, λ validating. ground arith)

module _ (t : Tick) where
  bind-Guarded :
      {A : Type 0} (m : M A) (f : (List Job → M (List Job)) → A → M TickOutcome) (s : Store)
      → ((a : A) (u : Store) → Guarded t (λ runner. f runner a u))
      → Guarded t (λ runner. (m >>= f runner) s)
  bind-Guarded {A = A} m f s h = from (m s)
    where
      from :
          (o : Outcome A)
          → Guarded t (λ runner. elim o as (λ _. Outcome TickOutcome) [
            | ok a u ↦ f runner a u
            | err e u ↦ err e u
          ])
      from (ok a u) = h a u
      from (err e u) = inl (λ runner. refl)

  claim-Guarded :
      (seen : Store) (destination policy : String) (o : Outcome (List Job × List Job))
      → claim_all_queued (t.env claiming) (request t destination policy) (t.others claiming seen)
        ≡ o
      → Clear t (t.env reading) seen
      → has_work t seen ≡ true
      → Guarded t (λ runner. claim_or_idle (with_runner t runner) o)
  unfolding after_claim pause
  claim-Guarded seen destination policy (ok (job ∷ jobs, blocked_jobs) claimed) e clear work = inr (
    seen,
    claimed,
    job,
    jobs,
    blocked_jobs,
    destination,
    policy,
    refl,
    e,
    claim_all_queued-Resolved (t.env claiming) (request t destination policy)
        (t.others claiming seen) claimed job jobs blocked_jobs (one_mode t.validate_only) e,
    clear,
    work,
  )
  claim-Guarded seen destination policy (ok ([], job ∷ blocked_jobs) claimed) e clear work =
      inl (λ runner. refl)
  claim-Guarded seen destination policy (ok ([], []) claimed) e clear work = inl (λ runner. refl)
  claim-Guarded seen destination policy (err x claimed) e clear work = inl (λ runner. refl)

  claim_with-Guarded :
      (seen : Store) (destination policy : Option String)
      → Clear t (t.env reading) seen
      → has_work t seen ≡ true
      → Guarded t (λ runner. claim_with (with_runner t runner) destination policy seen)
  claim_with-Guarded seen (some destination) (some policy) clear work =
      claim-Guarded seen destination policy
        (claim_all_queued (t.env claiming) (request t destination policy) (t.others claiming seen))
        refl clear work
  claim_with-Guarded seen (some destination) none clear work = inl (λ runner. refl)
  claim_with-Guarded seen none policy clear work = inl (λ runner. refl)

  reading-Guarded :
      (seen : Store) (found : Option TickOutcome) (work : Bool)
      → pause t (t.env reading) seen ≡ found
      → has_work t seen ≡ work
      → Guarded t (λ runner.
        or_go_on found (if work then tick_claim (with_runner t runner) else return idle) seen)
  unfolding tick_claim
  reading-Guarded seen (some outcome) work p w = inl (λ runner. refl)
  reading-Guarded seen none false p w = inl (λ runner. refl)
  reading-Guarded seen none true p w =
      claim_with-Guarded seen (sha_or "invalid-deploy-destination" t.destination)
        (sha_or "invalid-execution-policy" t.execution_policy)
        (pause-Clear t (t.env reading) seen p) w

  tick_work-Guarded :
      (orphans : Bool) (stale : String) (s : Store)
      → Guarded t (λ runner. tick_work (with_runner t runner) orphans stale s)
  unfolding tick_work tick_claim pause has_work
  tick_work-Guarded orphans stale s =
      bind-Guarded
        (if nonempty stale
          then force_clear_lock_and_split (t.env clearing) false t.owner stale none
          else return false)
        (λ runner cleared. do
          others_at (with_runner t runner) recovering
          _ ←
              if orphans
              then recover_orphans (t.env recovering) t.owner t.lock_ttl_minutes
              else return 0
          others_at (with_runner t runner) reading
          found ← reads (pause t (t.env reading))
          work ← reads (has_work t)
          or_go_on found (if work then tick_claim (with_runner t runner) else return idle))
        (t.others clearing s)
        (λ cleared u.
          bind-Guarded
            (if orphans
              then recover_orphans (t.env recovering) t.owner t.lock_ttl_minutes
              else return 0)
            (λ runner count. do
              others_at (with_runner t runner) reading
              found ← reads (pause t (t.env reading))
              work ← reads (has_work t)
              or_go_on found (if work then tick_claim (with_runner t runner) else return idle))
            (t.others recovering u)
            (λ count v.
              reading-Guarded (t.others reading v) (pause t (t.env reading) (t.others reading v))
                (has_work t (t.others reading v)) refl refl))

  after_probe-Guarded :
      (found : Probe) (s : Store) → Guarded t (λ runner. after_probe (with_runner t runner) found s)
  after_probe-Guarded (stop outcome) s = inl (λ runner. refl)
  after_probe-Guarded (go_on orphans stale) s = opened t.opens
    where
      opened :
          (b : Bool)
          → Guarded t (λ runner.
            (if b then tick_work (with_runner t runner) orphans stale else raise queue_error) s)
      opened true = tick_work-Guarded orphans stale s
      opened false = inl (λ runner. refl)

-- The probe saw no unresolved push, for a validation no validated train, and no other runner at work.
abbrev pub Probed : Tick → Env → Store → Type 0
Probed t env s =
    Clear t env s
    × ((lock : RunnerLock)
        → active_runner_lock env s ≡ some lock
        → ((lock.owner == t.owner) ≡ true) ⊎ (in_progress_count s ≡ 0))

abbrev is_stop : Probe → Bool
is_stop (stop outcome) = true
is_stop (go_on orphans stale) = false

free_of_others :
    (owner : String) (work : Bool) (count : ℕ) (held : Option RunnerLock) (lock : RunnerLock)
    → is_stop (probe_lock owner work (ltb 0 count) held) ≡ false
    → held ≡ some lock
    → ((lock.owner == owner) ≡ true) ⊎ (count ≡ 0)
free_of_others owner work count none lock h e = absurd (ground arith)
free_of_others owner work count (some held) lock h e = ground arith

probe-Probed : (t : Tick) (env : Env) (s : Store) → is_stop (probe t env s) ≡ false → Probed t env s
unfolding probe
probe-Probed t env s h = elim (Option-cases (pause t env s)) [
  | inr (outcome, e) ↦ absurd (ground (arith, e))
  | inl e ↦
      let going : is_stop (
            probe_lock t.owner (has_work t s) (ltb 0 (in_progress_count s))
              (active_runner_lock env s))
          ≡ false =
        ground (arith, e) in
      (
        pause-Clear t env s e,
        λ lock held.
            free_of_others t.owner (has_work t s) (in_progress_count s) (active_runner_lock env s)
              lock going held,
      )
]

-- A tick either never calls the batch runner, and so ends alike with any other, or its outcome is that of
-- a batch which it claimed where nothing forbids it: its probe, where it opened, saw no unresolved push,
-- no other runner at work and, for a validation, no validated train; its second look, after the
-- recovery, saw again no unresolved push and no validated train, and had work of its kind; and the
-- transaction of the claim found no unresolved push.
pub daemon_tick-Claimed :
    (t : Tick) (s : Store)
    → ((runner : List Job → M (List Job)) → daemon_tick (with_runner t runner) s ≡ daemon_tick t s)
      ⊎ (Claimed t (daemon_tick t s) × (t.probe_opens ≡ true → Probed t (t.env probing) s))
unfolding daemon_tick probe pause has_work
daemon_tick-Claimed t s = opened t.probe_opens t.sovereign (probe t (t.env probing) s) refl
  where
    opened :
        (opens sovereign : Bool) (found : Probe)
        → probe t (t.env probing) s ≡ found
        → ((runner : List Job → M (List Job))
            → (if opens
                then after_probe (with_runner t runner) found s
                else if sovereign
                then after_probe (with_runner t runner) (go_on true "") s
                else err queue_error s)
              ≡ (if opens
                  then after_probe t found s
                  else if sovereign
                  then after_probe t (go_on true "") s
                  else err queue_error s))
          ⊎ (Claimed t (
                if opens
                then after_probe t found s
                else if sovereign
                then after_probe t (go_on true "") s
                else err queue_error s)
              × (opens ≡ true → Probed t (t.env probing) s))
    opened true sovereign (stop outcome) e = inl (λ runner. refl)
    opened true sovereign (go_on orphans stale) e =
        elim (after_probe-Guarded t (go_on orphans stale) s) [
          | inl same ↦ inl same
          | inr claimed ↦ inr (claimed, λ o. probe-Probed t (t.env probing) s (rw e refl))
        ]
    opened false true found e = elim (after_probe-Guarded t (go_on true "") s) [
      | inl same ↦ inl same
      | inr claimed ↦ inr (claimed, λ o. absurd (ground arith))
    ]
    opened false false found e = inl (λ runner. refl)
