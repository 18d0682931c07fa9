-- ===== src/Operations.antt =====
-- The ledger of recovery commands (src/mergetrain/persistence/operations.py).
pub mod Ledger
use mergetrain.Prelude.{
  ℕ, ◌+◌, Bool, true, false, not, ◌&&◌, ◌||◌, Option, none, some, List, [], ◌∷◌, ◌++◌, String, ltb,
  leb, if◌then◌else◌, first, exists_where, select, ◌==◌, text_column,
}
use mergetrain.Model.{
  Operation, OperationState, OperationEvent, tracking, reconcile, recover, started, success,
  conflict, lock_held, remote_unreachable, error, Stamp,
}
use mergetrain.Store.{
  Store, Env, M, ◌>>=◌, ◌>>◌, return, reads, require, or_raise, immediate, queue_error, utc_now,
  Outcome, ok, err, parse_utc,
}

abbrev pub is_command : Operation → Bool
is_command tracking = false
is_command reconcile = true
is_command recover = true

abbrev pub is_started : OperationState → Bool
is_started started = true
is_started _ = false

-- operations._insert_operation_event
unfoldable pub insert_operation_event :
    Env → String → Operation → OperationState → Bool → String → M OperationEvent
insert_operation_event env invocation_id operation state applied detail s =
    let event : OperationEvent = record {
      id = s.next_operation_id;
      invocation_id = invocation_id;
      operation = operation;
      state = state;
      applied = applied;
      detail = detail;
      created_at = utc_now env;
    } in
    ok event (record s {
      operations = s.operations ++ event ∷ [];
      next_operation_id = s.next_operation_id + 1;
    })

unfoldable pub start_recovery_operation : Env → Operation → Bool → M OperationEvent
start_recovery_operation env operation applied = do
  require (is_command operation) queue_error
  immediate env (insert_operation_event env env.uuid operation started applied "")

abbrev pub starts : String → OperationEvent → Bool
starts invocation_id e = e.invocation_id == invocation_id && is_started e.state

abbrev pub finishes : String → OperationEvent → Bool
finishes invocation_id e = e.invocation_id == invocation_id && not (is_started e.state)

unfoldable pub finish_in_transaction : Env → String → OperationState → String → M OperationEvent
finish_in_transaction env invocation_id state detail = do
  found ← reads (λ s. first (starts invocation_id) s.operations)
  start ← or_raise queue_error found
  finished ← reads (λ s. exists_where (finishes invocation_id) s.operations)
  require (not finished) queue_error
  insert_operation_event env invocation_id start.operation state start.applied detail

unfoldable pub finish_recovery_operation : Env → String → OperationState → String → M OperationEvent
finish_recovery_operation env invocation_id state detail = do
  require (not (is_started state)) queue_error
  immediate env (finish_in_transaction env invocation_id state detail)

abbrev is_tracking : Operation → Bool
is_tracking tracking = true
is_tracking _ = false

-- An invocation that began in the window
abbrev began_since : ℕ → String → OperationEvent → Bool
began_since since invocation_id e =
    starts invocation_id e && not (is_tracking e.operation) && leb since (parse_utc e.created_at)

-- An absent window is `none`.
pub list_recovery_operation_events : Option ℕ → Store → List OperationEvent
list_recovery_operation_events none s = s.operations
list_recovery_operation_events (some since) s =
    select
      (λ e.
        is_tracking e.operation || exists_where (began_since since e.invocation_id) s.operations)
      s.operations
