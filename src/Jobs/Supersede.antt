-- ===== src/Jobs/Supersede.antt =====
-- Replacement of a validated train (src/mergetrain/persistence/jobs.py, supersede_validated_train).
use mergetrain.Prelude.{
  ℕ, Bool, true, false, not, ◌&&◌, ◌||◌, none, some, List, [], ◌∷◌, String, ltb, if◌then◌else◌,
  nonempty, ◌<>◌, is_some, select, first, map, ◌==◌, nat_column, text_column, strip, one_line,
  comma_join, length, elem,
}
use mergetrain.Model.{Job, status_column, validated, canceled}
use mergetrain.Store.{
  Store, Env, M, ◌>>=◌, ◌>>◌, return, reads, require, modify, raise, immediate, queue_error,
  lock_held, duplicate_active_branch, insert_job, update_counted, get_jobs, utc_now, has_status,
  record_run_event,
}
use mergetrain.Leases.{active_runner_lock}
use mergetrain.Jobs.Reads.{active_on}
use mergetrain.Jobs.Enqueue.{fresh_job, set_queue_order}

pub record Replacement : Type 0 where
  pub task : String
  pub branch : String
  pub worktree_path : String
  pub base_sha : String
  pub head_sha : String
  pub note : String

abbrev pub text_elem : String → List String → Bool
text_elem t [] = false
text_elem t (u ∷ us) = u == t || text_elem t us

-- The loop that checks the replacements; a branch listed twice has no job in the way.
pub normalize : List String → List Replacement → M (List Replacement)
normalize seen [] = return []
normalize seen (r ∷ rs) = do
  require (nonempty (one_line r.task)) queue_error
  require (nonempty (strip r.branch)) queue_error
  require (not (text_elem (strip r.branch) seen)) (duplicate_active_branch 0)
  require (nonempty r.base_sha && nonempty r.head_sha) queue_error
  rest ← normalize (strip r.branch ∷ seen) rs
  return (record r { task = one_line r.task; branch = strip r.branch } ∷ rest)

abbrev pub ids : List Job → List ℕ
ids = map (λ j. j.id)

abbrev pub in_train : String → Job → Bool
in_train train_id j = j.train_id == train_id

-- An active job on the branch, outside the train
abbrev pub blocks : List ℕ → String → Job → Bool
blocks old_ids branch j = active_on branch j && not (elem j.id old_ids)

pub refuse_blocked : List ℕ → List Replacement → M (Unit {0})
refuse_blocked old_ids [] = return tt
refuse_blocked old_ids (r ∷ rs) = do
  other ← reads (λ s. first (blocks old_ids r.branch) s.jobs)
  elim other [ none ↦ return tt | some j ↦ raise (duplicate_active_branch j.id) ]
  refuse_blocked old_ids rs

abbrev pub replacement_job : Env → String → Replacement → ℕ → Job
replacement_job env train_id r k = record (fresh_job env k) {
  task = r.task;
  branch = r.branch;
  worktree_path = r.worktree_path;
  base_sha = r.base_sha;
  head_sha = r.head_sha;
  note = r.note;
  supersession_id = env.uuid;
  supersedes_train_id = train_id;
}

pub insert_replacements : Env → String → List Replacement → M (List ℕ)
insert_replacements env train_id [] = return []
insert_replacements env train_id (r ∷ rs) = do
  k ← insert_job (replacement_job env train_id r)
  set_queue_order k k
  ks ← insert_replacements env train_id rs
  return (k ∷ ks)

abbrev pub superseded : Env → String → Job → Job
superseded env audit j = record j {
  status = canceled;
  finished_at = utc_now env;
  note = if nonempty j.note then j.note <> "\n" <> audit else audit;
  supersession_id = env.uuid;
}

pub record_each : Env → String → String → List ℕ → Store → Store
record_each env state detail [] s = s
record_each env state detail (k ∷ ks) s =
    record_each env state detail ks (record_run_event env (some k) "superseding" state "" detail s)

all_validated : List Job → Bool
all_validated [] = true
all_validated (j ∷ js) = has_status validated j && all_validated js

pub supersede_in_transaction : Env → String → List Replacement → M (List ℕ × List ℕ)
unfolding all_validated
supersede_in_transaction env train_id replacements = do
  lock ← reads (active_runner_lock env)
  require (not (is_some lock)) lock_held
  old_jobs ← reads (λ s. select (in_train train_id) s.jobs)
  require (ltb 0 (length old_jobs)) queue_error
  require (all_validated old_jobs) queue_error
  let old_ids = ids old_jobs
  refuse_blocked old_ids replacements
  new_ids ← insert_replacements env train_id replacements
  let audit = "superseded by job(s) " <> comma_join new_ids <> "; supersession " <> env.uuid
  changed ← update_counted (λ j. elem j.id old_ids && has_status validated j) (superseded env audit)
  require (changed == length old_ids) queue_error
  let detail =
      "supersession_id="
      <> env.uuid
      <> ";superseded_train_id="
      <> train_id
      <> ";replacement_job_ids="
      <> comma_join new_ids
  modify (record_each env "success" detail old_ids)
  modify (record_each env "queued" detail new_ids)
  return (old_ids, new_ids)

pub supersede_validated_train : Env → String → List Replacement → M (List Job × List Job)
supersede_validated_train env train_id replacements = do
  require (nonempty (strip train_id)) queue_error
  require (ltb 0 (length replacements)) queue_error
  normalized ← normalize [] replacements
  (old_ids, new_ids) ← immediate env (supersede_in_transaction env (strip train_id) normalized)
  old_jobs ← get_jobs old_ids
  new_jobs ← get_jobs new_ids
  return (old_jobs, new_jobs)
