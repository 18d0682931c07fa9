-- ===== src/Reconcile/Unlock/Cleared.antt =====
-- What a lock that was cleared had been.
use mergetrain.Prelude.{
  ℕ, Bool, true, false, not, Option, none, some, ltb, text_column, nat_column, ◌≡◌, ◌≢◌, ap, ◌∙◌,
  text_eq_iff, ◌⊎◌, inl, inr, refl, arith, Option-cases,
}
use mergetrain.Model.{RunnerLock}
use mergetrain.Store.{
  Store, Env, ok, M, immediate-ok, parse_utc, final, >>=-eq-ok, require_then, if-ok,
  remote_unreachable,
}
use mergetrain.Reconcile.Unlock.{
  Unlock, cleared, Watch, same_stamp, lock_after_heartbeat, checked_lock_outcome, unless_checked,
  clear_watched, force_watched, force_lock, force_unlock, is_dead,
}

-- The lock that was cleared is the one inspected, unrenewed and expired at the time of the clear.
pub record Wedged (at : Env) (inspected current : RunnerLock) : Type 0 where
  pub owner : current.owner ≡ inspected.owner
  pub token : current.token ≡ inspected.token
  pub unrenewed : same_stamp current.heartbeat_at inspected.heartbeat_at ≡ true
  pub expired : ltb at.now (parse_utc current.expires_at) ≡ false

checked_none :
    (env : Env) (lock : RunnerLock) (o : Option RunnerLock)
    → checked_lock_outcome env lock o ≡ none
    → (current : RunnerLock) × (o ≡ some current) × Wedged env lock current
unfolding checked_lock_outcome
checked_none env lock none h = absurd (ground arith)
checked_none env lock (some current) h = (
  current,
  refl,
  record {
    owner = ground (arith, text_eq_iff current.owner lock.owner);
    token = ground (arith, text_eq_iff current.token lock.token);
    unrenewed = ground arith;
    expired = ground arith;
  },
)

-- What was not refused by a check.
unless_cleared :
    (o : Option Unlock) (more : M Unlock) (s : Store) {event : ℕ} {t : Store}
    → ((event : ℕ) → o ≢ some (cleared event))
    → unless_checked o more s ≡ ok (cleared event) t
    → (o ≡ none) × (more s ≡ ok (cleared event) t)
unfolding unless_checked
unless_cleared none more s n h = (refl, h)
unless_cleared (some unlock) more s {event} n h =
    let same : some unlock ≡ some (cleared event) = ground arith in absurd (n event same)

check_refuses :
    (env : Env) (lock : RunnerLock) (o : Option RunnerLock) (event : ℕ)
    → checked_lock_outcome env lock o ≢ some (cleared event)
unfolding checked_lock_outcome
check_refuses env lock none event = λ e. ground arith
check_refuses env lock (some current) event = λ e. ground arith

clear_watched-Wedged :
    (env : Env) (lock : RunnerLock) (s : Store) {event : ℕ} {t : Store}
    → clear_watched env lock s ≡ ok (cleared event) t
    → (current : RunnerLock) × (s.lock ≡ some current) × Wedged env lock current
unfolding clear_watched
clear_watched-Wedged env lock s h =
    checked_none env lock s.lock
      (unless_cleared (checked_lock_outcome env lock s.lock) _ s (check_refuses env lock s.lock)
        (immediate-ok env _ s h)).0

-- What the last transaction finds
abbrev pub probed : Watch → RunnerLock → Store → Store
probed watch lock s = watch.probing (final (lock_after_heartbeat lock watch.polls s))

force_watched-Wedged :
    (env : Env) (watch : Watch) (lock : RunnerLock) (s : Store) {event : ℕ} {t : Store}
    → force_watched env watch lock s ≡ ok (cleared event) t
    → (watch.remote_reachable ≡ true)
      × (current : RunnerLock) × ((probed watch lock s).lock ≡ some current)
      × Wedged watch.clearing lock current
unfolding force_watched
force_watched-Wedged env watch lock s h =
    let (unexpired, more) =
      unless_cleared (checked_lock_outcome env lock (some lock)) _ s
        (check_refuses env lock (some lock)) h in
    let (watched, u, ran, checked) = >>=-eq-ok (lock_after_heartbeat lock watch.polls) _ s more in
    let (still, last) =
      unless_cleared (checked_lock_outcome watch.after_watch lock watched) _ u
        (check_refuses watch.after_watch lock watched) checked in
    let (reachable, rest) = require_then watch.remote_reachable remote_unreachable _ u last in
    let at : final (lock_after_heartbeat lock watch.polls s) ≡ u = ap final ran in
    let (current, found, wedged) =
      clear_watched-Wedged watch.clearing lock (watch.probing u) rest in
    (reachable, current, ap (λ v. (watch.probing v).lock) at ∙ found, wedged)

-- A lock is cleared only where its owner is dead, or by force, with the remote reachable, where the
-- transaction of the clear finds the very lease that was inspected, still unrenewed after the heartbeat
-- watch and the probe of the remote, and expired.
pub force_unlock-Wedged :
    (env : Env) (watch : Watch) (force : Bool) (s : Store) {event : ℕ} {t : Store}
    → force_unlock env watch force s ≡ ok (cleared event) t
    → (lock : RunnerLock) × (s.lock ≡ some lock)
      × ((is_dead (env.owner_liveness lock.owner) ≡ true)
          ⊎ ((force ≡ true)
              × (watch.remote_reachable ≡ true)
              × (current : RunnerLock) × ((probed watch lock s).lock ≡ some current)
              × Wedged watch.clearing lock current))
unfolding force_unlock
force_unlock-Wedged env watch force s {event} {t} h = elim (Option-cases s.lock) [
  | inl free ↦ absurd (ground arith)
  | inr (lock, held) ↦
      let ran : force_lock env watch force lock s ≡ ok (cleared event) t = ground arith in
      (
        lock,
        held,
        elim (if-ok (is_dead (env.owner_liveness lock.owner)) _ _ s ran) [
          | inl (owner_dead, r) ↦ inl owner_dead
          | inr (owner_lives, r) ↦ elim (if-ok (not force) _ _ s r) [
            | inl (calm, q) ↦ absurd (ground arith)
            | inr (forced, q) ↦
                let (reachable, current, found, wedged) = force_watched-Wedged env watch lock s q in
                let by_force : force ≡ true = ground arith in
                inr (by_force, reachable, current, found, wedged)
          ]
        ],
      )
]
