-- ===== src/Operations/Ledger.antt =====
-- An invocation of a recovery command ends once.
use mergetrain.Prelude.{
  ◌≡◌, Bool, true, false, some, List, [], ◌∷◌, ◌++◌, String, arith, exists_where, first,
  text_column, text_eq_refl, Option-cases, Bool-cases, inl, inr,
}
use mergetrain.Model.{OperationState, OperationEvent}
use mergetrain.Store.{Store, Env, ok, err, granted, immediate, immediate-ok, queue_error}
use mergetrain.Operations.{
  is_started, starts, finishes, insert_operation_event, finish_in_transaction,
  finish_recovery_operation,
}

exists_where-last :
    (p : OperationEvent → Bool) (es : List OperationEvent) (e : OperationEvent)
    → p e ≡ true
    → exists_where p (es ++ e ∷ []) ≡ true
unfolding exists_where
exists_where-last p [] e h = ground arith
exists_where-last p (x ∷ es) e h = ground (arith, exists_where-last p es e h)

-- The end of an invocation: that of its start, its first, and the last row of the ledger.
pub record Ended (start e : OperationEvent) (id : String) (state : OperationState) (s t : Store)
    : Type 0 where
  pub first_end : exists_where (finishes id) s.operations ≡ false
  pub same_operation : e.operation ≡ start.operation
  pub same_applied : e.applied ≡ start.applied
  pub same_invocation : e.invocation_id ≡ id
  pub in_state : e.state ≡ state
  pub appended : t.operations ≡ s.operations ++ e ∷ []

finish_in_transaction-Ended :
    (env : Env) (id : String) (state : OperationState) (detail : String) (s : Store)
    {e : OperationEvent} {t : Store}
    → finish_in_transaction env id state detail s ≡ ok e t
    → (start : OperationEvent) × (first (starts id) s.operations ≡ some start)
      × Ended start e id state s t
unfolding finish_in_transaction insert_operation_event
finish_in_transaction-Ended env id state detail s h =
    elim (Option-cases (first (starts id) s.operations)) [
      | inl missing ↦ absurd (ground arith)
      | inr (start, found) ↦ (
        start,
        found,
        record {
          first_end = ground arith;
          same_operation = ground arith;
          same_applied = ground arith;
          same_invocation = ground arith;
          in_state = ground arith;
          appended = ground arith;
        },
      )
    ]

finish_recovery_operation-ok :
    (env : Env) (id : String) (state : OperationState) (detail : String) (s : Store)
    {e : OperationEvent} {t : Store}
    → finish_recovery_operation env id state detail s ≡ ok e t
    → (is_started state ≡ false) × (finish_in_transaction env id state detail s ≡ ok e t)
unfolding finish_recovery_operation
finish_recovery_operation-ok env id state detail s h = elim (Bool-cases (is_started state)) [
  | inl started ↦ absurd (ground arith)
  | inr ends ↦ (ends, immediate-ok env (finish_in_transaction env id state detail) s (ground arith))
]

ended_twice :
    (env : Env) (id : String) (state : OperationState) (detail : String) (s : Store)
    → exists_where (finishes id) s.operations ≡ true
    → finish_in_transaction env id state detail s ≡ err queue_error s
unfolding finish_in_transaction
ended_twice env id state detail s ended = elim (Option-cases (first (starts id) s.operations)) [
  | inl missing ↦ ground arith
  | inr (start, found) ↦ ground arith
]

-- An invocation ends once, with the operation and the mode it was started with: on a free database
-- any second end, in whatever state, is refused and writes nothing.
pub finish_recovery_operation_once :
    (env later : Env) (id : String) (state again : OperationState) (detail more : String)
    (s : Store) {e : OperationEvent} {t : Store}
    → later.begin ≡ granted
    → finish_recovery_operation env id state detail s ≡ ok e t
    → ((start : OperationEvent) × (first (starts id) s.operations ≡ some start)
        × Ended start e id state s t)
      × (finish_recovery_operation later id again more t ≡ err queue_error t)
unfolding finish_recovery_operation immediate
finish_recovery_operation_once env later id state again detail more s {e} {t} free h =
    let (ends, ran) = finish_recovery_operation-ok env id state detail s h in
    let (start, found, ended) = finish_in_transaction-Ended env id state detail s ran in
    (
      (start, found, ended),
      ground (
        arith,
        ended_twice later id again more t,
        ended.appended,
        ended.in_state,
        ended.same_invocation,
        text_eq_refl id,
        exists_where-last (finishes id) s.operations e,
      ),
    )
