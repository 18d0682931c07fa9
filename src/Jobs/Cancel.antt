-- ===== src/Jobs/Cancel.antt =====
-- Cancellation and dismissal (src/mergetrain/persistence/jobs.py, cancel_job and dismiss_job). Both
-- read the job before their transaction: what other processes commit in between is an argument.
pub mod Honored
use mergetrain.Prelude.{
  ℕ, Bool, true, false, not, ◌&&◌, Option, none, some, List, [], ◌∷◌, String, if◌then◌else◌,
  nonempty, ◌<>◌, count_where, ◌==◌, nat_column, text_column, prefix,
}
use mergetrain.Model.{
  Job, status_column, is_terminal, is_reconcile_conflict, in_progress, validated, needs_reconcile,
  canceled, status_text,
}
use mergetrain.Store.{
  Store, Env, M, ◌>>=◌, ◌>>◌, return, reads, require, modify, raise, immediate, queue_error,
  assertion_error, update_counted, by_id, find_job, get_job, utc_now, has_status,
}
use mergetrain.Jobs.Reads.{refuse_reconcile_conflict, is_dismissable}
use mergetrain.Jobs.Mark.{mark_job, plain_marking}

abbrev or_text : String → String → String
or_text text default = if nonempty text then text else default

-- The members of a claim
abbrev pub claimed_by : String → Job → Bool
claimed_by token j = has_status in_progress j && j.claim_token == token

abbrev pub request_cancel : Env → ℕ → String → Job → Job
request_cancel env k note j = record j {
  cancel_requested_at = utc_now env;
  note = if by_id k j then note else j.note;
}

-- The row is still in progress under the same claim.
abbrev pub is_same_claim : String → Option Job → Bool
is_same_claim token none = false
is_same_claim token (some j) = claimed_by token j

-- With a claim the whole train is asked to stop, without one the row alone.
abbrev pub is_asked : ℕ → String → Job → Bool
is_asked k token j =
    if nonempty token then claimed_by token j else by_id k j && has_status in_progress j

unfoldable pub request_in_transaction : Env → ℕ → String → String → M (Unit {0})
request_in_transaction env k token note = do
  current ← reads (find_job k)
  require (is_same_claim token current) queue_error
  expected ← reads (λ s. if nonempty token then count_where (claimed_by token) s.jobs else 1)
  changed ← update_counted (is_asked k token) (request_cancel env k note)
  require (changed == expected) queue_error

-- The row is still validated in the same train.
abbrev pub is_validated_in : String → Job → Bool
is_validated_in train_id j = has_status validated j && j.train_id == train_id

abbrev pub is_same_train : String → Option Job → Bool
is_same_train train_id none = false
is_same_train train_id (some j) = is_validated_in train_id j

abbrev pub cancel_validated : Env → String → Job → Job
cancel_validated env note j = record j { status = canceled; note = note; finished_at = utc_now env }

abbrev cancel_train : Env → String → String → M Bool
cancel_train env train_id note = do
  expected ← reads (λ s. count_where (is_validated_in train_id) s.jobs)
  changed ← update_counted (is_validated_in train_id) (cancel_validated env note)
  require (changed == expected) queue_error
  return true

-- Whether the train was still there, and so is canceled.
unfoldable pub cancel_train_in_transaction : Env → ℕ → String → String → M Bool
cancel_train_in_transaction env k train_id note = do
  current ← reads (find_job k)
  if is_same_train train_id current then cancel_train env train_id note else return false

abbrev refuse_cancel : Job → M (Unit {0})
refuse_cancel j = do
  require (not (is_terminal j.status)) queue_error
  require (not (j.status == needs_reconcile)) queue_error
  require (not (is_reconcile_conflict j)) queue_error

-- The three ways to cancel, by what was read; `again` is the call that starts over.
unfoldable pub cancel_as : Env → ℕ → String → M Job → Job → M Job
cancel_as env k note again j =
    if j.status == in_progress
    then (do
      immediate env (
          request_in_transaction env k j.claim_token
            (or_text note "cancellation requested by user"))
      get_job k)
    else if j.status == validated && nonempty j.train_id
    then (do
      done ← immediate env (
          cancel_train_in_transaction env k j.train_id
            (or_text note ("validated train " <> j.train_id <> " canceled by user")))
      if done then get_job k else again)
    else mark_job env k (plain_marking canceled (or_text note "canceled by user")) none
        (some j.status)

-- One round for each entry of `others`: what is committed between its read and its transaction. With
-- no entry left nothing comes in between, and the call does not start over.
unfoldable pub cancel_job : Env → List (Store → Store) → ℕ → String → M Job
cancel_job env [] k note = do
  j ← get_job k
  refuse_cancel j
  cancel_as env k note (raise assertion_error) j
cancel_job env (other ∷ others) k note = do
  j ← get_job k
  refuse_cancel j
  modify other
  cancel_as env k note (cancel_job env others k note) j

abbrev dismiss_note : Job → String
dismiss_note j =
    if is_reconcile_conflict j
    then "dismissed reconcile conflict whose push of "
      <> prefix 12 j.pending_deploy_sha
      <> " may have landed"
    else "dismissed superseded " <> status_text j.status <> " job"

unfoldable pub dismiss_job : Env → (Store → Store) → ℕ → String → Bool → M Job
dismiss_job env other k note force = do
  j ← get_job k
  require (is_dismissable j) queue_error
  refuse_reconcile_conflict j force
  modify other
  mark_job env k (plain_marking canceled (or_text note (dismiss_note j))) none (some j.status)
