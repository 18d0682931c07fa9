-- ===== src/Examples/Lease.antt =====
-- The runner lock at concrete queues.
use mergetrain.Prelude.{
  ◌≡◌, refl, ◌⊎◌, none, some, map, Each, arith, ℕ, ◌<◌, text_eq_iff, true, false, count_where,
  update_where,
}
use mergetrain.Model.{RunnerLock}
use mergetrain.Store.{Store, ok, err, lock_held, lost_lease, immediate}
use mergetrain.Leases.{
  in_progress_count, lock_takeover, acquire_lock, release_lock_token, refresh_runner_lock,
  recover_orphans, delete_lock, requeue_orphans, stranded_claim_plan, new_lock,
}
use mergetrain.Leases.Split.{
  announced, outcomes, KeepsEvidence, stranded_claim_plan-requeue_orphans,
  requeue_orphans-KeepsEvidence, requeue_orphans_ends_claims,
}
use mergetrain.Leases.Fencing.{acquired_lock_fences_old_token, recover_orphans_outcome}
use mergetrain.Leases.Acquired.{Blocks, Yields, Taken, acquire_lock_cases}
use mergetrain.Samples.{noon, stranded}

stranded_claim_plan-requeue_orphans_example :
    map announced (stranded_claim_plan stranded)
    ≡ outcomes stranded.jobs (requeue_orphans noon stranded).jobs
stranded_claim_plan-requeue_orphans_example = stranded_claim_plan-requeue_orphans noon stranded

requeue_orphans-KeepsEvidence_example :
    Each KeepsEvidence stranded.jobs (requeue_orphans noon stranded).jobs
requeue_orphans-KeepsEvidence_example = requeue_orphans-KeepsEvidence noon stranded

requeue_orphans_ends_claims_example : in_progress_count (requeue_orphans noon stranded) ≡ 0
requeue_orphans_ends_claims_example = requeue_orphans_ends_claims noon stranded

acquire_lock_cases_example :
    (Blocks noon stranded × (acquire_lock noon "" 30 "" "" stranded ≡ err lock_held stranded))
    ⊎ (Yields noon stranded
        × ((lock : RunnerLock) × (t : Store) × (acquire_lock noon "" 30 "" "" stranded ≡ ok lock t)
            × Taken noon "" stranded lock t))
acquire_lock_cases_example = acquire_lock_cases noon "" 30 "" "" stranded

taken : Store
taken = record (requeue_orphans noon (delete_lock stranded)) {
  lock = some (new_lock noon "me:7" 30 "" "");
}

acquired_lock_fences_old_token_example :
    (refresh_runner_lock noon "them:3" "t1" 30 none none true taken ≡ err lost_lease taken)
    × (release_lock_token "them:3" "t1" none taken ≡ ok false taken)
unfolding acquire_lock lock_takeover taken
acquired_lock_fences_old_token_example =
    acquired_lock_fences_old_token noon noon "" "them:3" "t1" 30 "" "" true stranded taken
      (new_lock noon "me:7" 30 "" "") refl (ground (arith, text_eq_iff "t1" "t2")) refl

split_count : ℕ
split_count = 3

split_queue : Store
split_queue = requeue_orphans noon (delete_lock stranded)

recover_orphans_outcome_example :
    ((split_count ≡ 0) × (split_queue ≡ stranded))
    ⊎ ((split_count ≡ in_progress_count stranded)
        × (0 < split_count)
        × (split_queue ≡ requeue_orphans noon (delete_lock stranded))
        × (in_progress_count split_queue ≡ 0))
unfolding split_count split_queue recover_orphans acquire_lock lock_takeover in_progress_count
    requeue_orphans immediate release_lock_token count_where update_where
recover_orphans_outcome_example = recover_orphans_outcome noon "" 30 stranded refl
