-- ===== src/Examples/Unlock.antt =====
-- A wedged lock, cleared by force.
use mergetrain.Prelude.{◌≡◌, ◌⊎◌, refl, true, some, [], ◌∷◌}
use mergetrain.Model.{RunnerLock}
use mergetrain.Store.{Store, final, immediate, record_run_event}
use mergetrain.Leases.{force_clear_lock_and_split, release_lock_token, requeue_orphans}
use mergetrain.Reconcile.Unlock.{
  Watch, force_unlock, force_watched, lock_after_heartbeat, checked_lock_outcome, unless_checked,
  clear_watched, is_dead,
}
use mergetrain.Reconcile.Unlock.Cleared.{Wedged, probed, force_unlock-Wedged}
use mergetrain.Samples.{noon_alive, stranded}

abbrev patient : Watch
patient = record {
  polls = (λ s. s) ∷ (λ s. s) ∷ [];
  after_watch = noon_alive;
  probing = λ s. s;
  remote_reachable = true;
  clearing = noon_alive;
}

abbrev unlocked : Store
unlocked = final (force_unlock noon_alive patient true stranded)

force_unlock-Wedged_example :
    (lock : RunnerLock) × (stranded.lock ≡ some lock)
    × ((is_dead (noon_alive.owner_liveness lock.owner) ≡ true)
        ⊎ ((true ≡ true)
            × (patient.remote_reachable ≡ true)
            × (current : RunnerLock) × ((probed patient lock stranded).lock ≡ some current)
            × Wedged patient.clearing lock current))
unfolding force_unlock force_watched lock_after_heartbeat checked_lock_outcome unless_checked
    clear_watched immediate force_clear_lock_and_split release_lock_token record_run_event
    requeue_orphans
force_unlock-Wedged_example =
    force_unlock-Wedged noon_alive patient true stranded {event = 1} {t = unlocked} refl
