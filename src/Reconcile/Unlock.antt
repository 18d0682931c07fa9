-- ===== src/Reconcile/Unlock.antt =====
-- The forced clear of a runner lock (src/mergetrain/recovery.py, force_unlock). The audit event's text
-- and the counts that only the output shows are left out.
pub mod Cleared
use mergetrain.Prelude.{
  ℕ, Bool, true, false, not, ◌&&◌, ◌||◌, Option, none, some, List, [], ◌∷◌, String, ltb, leb,
  if◌then◌else◌, ◌==◌, text_column, nat_column, ◌≡◌,
}
use mergetrain.Model.{RunnerLock, Liveness, alive, dead, Stamp}
use mergetrain.Store.{
  Store, Env, Outcome, ok, err, M, ◌>>=◌, ◌>>◌, return, reads, modify, require, raise, immediate,
  record_run_event, remote_unreachable, parse_utc,
}
use mergetrain.Leases.{force_clear_lock_and_split}

pub data Unlock : Type 0 where
  -- exit code 5
  no_lock : Unlock
  -- the lock changed: exit code 0, nothing cleared
  changed : Unlock
  -- exit code 4
  not_forced renewed not_expired : Unlock
  -- cleared, with the audit event
  cleared : ℕ → Unlock

-- What other processes commit before each poll of the heartbeat watch, the time after the watch, what
-- they commit while the remote is probed, whether it answers, and the time of the clear.
pub record Watch : Type 0 where
  pub polls : List (Store → Store)
  pub after_watch : Env
  pub probing : Store → Store
  pub remote_reachable : Bool
  pub clearing : Env

abbrev pub same_stamp : Stamp → Stamp → Bool
same_stamp none none = true
same_stamp none (some t) = false
same_stamp (some t) none = false
same_stamp (some t) (some u) = t == u

abbrev same_lease : RunnerLock → Option RunnerLock → Bool
same_lease lock none = false
same_lease lock (some current) =
    current.token == lock.token && same_stamp current.heartbeat_at lock.heartbeat_at

-- _lock_after_heartbeat
unfoldable pub lock_after_heartbeat : RunnerLock → List (Store → Store) → M (Option RunnerLock)
lock_after_heartbeat lock [] = return (some lock)
lock_after_heartbeat lock (others ∷ polls) = do
  modify others
  current ← reads (λ s. s.lock)
  if same_lease lock current then lock_after_heartbeat lock polls else return current

-- checked_lock_outcome
unfoldable pub checked_lock_outcome : Env → RunnerLock → Option RunnerLock → Option Unlock
checked_lock_outcome env lock none = some changed
checked_lock_outcome env lock (some current) =
    if not (current.owner == lock.owner && current.token == lock.token)
    then some changed
    else if not (same_stamp current.heartbeat_at lock.heartbeat_at)
    then some renewed
    else if ltb env.now (parse_utc current.expires_at)
    then some not_expired
    else none

-- The clear and its audit event, in one transaction.
abbrev clear_audited : Env → String → RunnerLock → Option Stamp → M Unlock
clear_audited env state lock heartbeat = do
  released ← force_clear_lock_and_split env true lock.owner lock.token heartbeat
  event ← reads (λ s. s.next_event_id)
  modify (λ s. if released then record_run_event env none "unlock" state "" "" s else s)
  return (if released then cleared event else changed)

unfoldable pub unless_checked : Option Unlock → M Unlock → M Unlock
unless_checked (some unlock) more = return unlock
unless_checked none more = more

-- The last transaction
unfoldable pub clear_watched : Env → RunnerLock → M Unlock
unfolding unless_checked checked_lock_outcome
clear_watched env lock = immediate env (do
  current ← reads (λ s. s.lock)
  unless_checked (checked_lock_outcome env lock current)
      (clear_audited env "forced" lock (some lock.heartbeat_at)))

-- From the first check on, for a lock whose owner is not dead.
unfoldable pub force_watched : Env → Watch → RunnerLock → M Unlock
unfolding unless_checked lock_after_heartbeat
force_watched env watch lock = unless_checked (checked_lock_outcome env lock (some lock)) (do
  watched ← lock_after_heartbeat lock watch.polls
  unless_checked (checked_lock_outcome watch.after_watch lock watched) (do
    require watch.remote_reachable remote_unreachable
    modify watch.probing
    clear_watched watch.clearing lock))

abbrev pub is_dead : Liveness → Bool
is_dead dead = true
is_dead _ = false

abbrev pub force_lock : Env → Watch → Bool → RunnerLock → M Unlock
force_lock env watch force lock =
    if is_dead (env.owner_liveness lock.owner)
    then immediate env (clear_audited env "cleared" lock none)
    else if not force
    then return not_forced
    else force_watched env watch lock

unfoldable pub force_unlock : Env → Watch → Bool → M Unlock
unfolding force_watched
force_unlock env watch force s = elim s.lock [
  | none ↦ ok no_lock s
  | some lock ↦ force_lock env watch force lock s
]
