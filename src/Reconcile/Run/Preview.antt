-- ===== src/Reconcile/Run/Preview.antt =====
-- A preview writes nothing.
use mergetrain.Prelude.{ℕ, ◌≡◌, ◌⊎◌, inl, inr, false, List, [], arith, Option-cases}
use mergetrain.Leases.{ClaimPlan, lock_takeover}
use mergetrain.Store.{Store, Env, final}
use mergetrain.Reconcile.Git.{Git}
use mergetrain.Reconcile.Groups.{classify_groups, group_by_target}
use mergetrain.Reconcile.Run.{
  Races, reconcile_locked, reconcile, write_all, jobs_to_check, stranded_for,
}

module _ (env : Env) (git : Git) (races : Races) (stranded : List ClaimPlan) (s : Store) where
  locked_preview :
      (final (reconcile_locked env git races false stranded s) ≡ s)
      ⊎ (final (reconcile_locked env git races false stranded s) ≡ races.asking s)
  unfolding reconcile_locked write_all
  locked_preview =
      elim (Option-cases
        (classify_groups git (group_by_target git [] (jobs_to_check false stranded s)))) [
          | inl unreachable ↦ ground arith
          | inr (ds, found) ↦ ground arith
        ]

-- A reconcile that is not asked to apply leaves the database as it was, but for what other processes
-- commit while it asks the remote: whatever it finds, and also where it raises.
pub reconcile_preview :
    (env : Env) (git : Git) (races : Races) (ttl : ℕ) (s : Store)
    → (final (reconcile env git races ttl false s) ≡ s)
      ⊎ (final (reconcile env git races ttl false s) ≡ races.asking s)
unfolding reconcile
reconcile_preview env git races ttl s =
    ground (arith, locked_preview env git races (stranded_for (lock_takeover env s) s) s)
