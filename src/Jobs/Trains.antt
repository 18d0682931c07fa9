-- ===== src/Jobs/Trains.antt =====
-- Validated trains and the choice of one (src/mergetrain/persistence/jobs.py,
-- validated_train_summaries and select_validated_train).
use mergetrain.Prelude.{
  ℕ, Bool, true, ◌&&◌, Option, none, some, List, [], ◌∷◌, String, ltb, if◌then◌else◌, nonempty,
  ◌<>◌, is_some, select, first, map, ◌==◌, nat_column, text_column, decimal, length, ◌++◌,
}
use mergetrain.Model.{Job, status_column, Stamp, validated}
use mergetrain.Store.{Store, M, ◌>>=◌, ◌>>◌, return, reads, require, raise, queue_error, has_status}
use mergetrain.Leases.{stamp_eq}
use mergetrain.Jobs.Reads.{list_jobs_fifo}

pub record Member : Type 0 where
  pub job_id : ℕ
  pub branch : String
  pub validated_head_sha : String

-- One summary; an absent train id is the empty text.
pub record Summary : Type 0 where
  pub train_id : String
  pub train_size : ℕ
  pub job_ids : List ℕ
  pub branches : List Member
  pub validated_at : Stamp
  pub validation_base_sha : String
  pub validation_sha : String
  pub deploy_eligible : Bool
  pub reuse_identity_complete : Bool
  pub validation_tree_sha : String
  pub validation_gate_policy_sha : String
  pub validation_environment_sha : String
  pub validation_train_sha : String

-- The jobs of a group stand under the key of the first of them.
abbrev pub group_key : Job → String
group_key j = if nonempty j.train_id then j.train_id else "legacy-job-" <> decimal j.id

abbrev pub Group : Type 0
Group = String × List Job

-- `groups.setdefault(key, []).append(job)`
pub append_to_group : Job → List Group → List Group
append_to_group j [] = (group_key j, j ∷ []) ∷ []
append_to_group j ((key, jobs) ∷ groups) =
    let rest = append_to_group j groups in
    if key == group_key j then (key, jobs ++ j ∷ []) ∷ groups else (key, jobs) ∷ rest

pub group_jobs : List Group → List Job → List Group
group_jobs groups [] = groups
group_jobs groups (j ∷ js) = group_jobs (append_to_group j groups) js

-- `len({job.column for job in jobs}) == 1`, of jobs that are not none
pub same_text : (Job → String) → Job → List Job → Bool
same_text column j [] = true
same_text column j (k ∷ ks) = column k == column j && same_text column j ks

pub same_size : Job → List Job → Bool
same_size j [] = true
same_size j (k ∷ ks) = k.train_size == j.train_size && same_size j ks

pub same_time : Job → List Job → Bool
same_time j [] = true
same_time j (k ∷ ks) = stamp_eq k.validated_at j.validated_at && same_time j ks

pub all_heads : List Job → Bool
all_heads [] = true
all_heads (k ∷ ks) = nonempty k.validated_head_sha && all_heads ks

-- `complete`: the identity by which a train may be deployed
pub is_complete : Job → List Job → Bool
unfolding same_text same_size same_time all_heads
is_complete j jobs =
    nonempty j.train_id
    && j.train_size == length jobs
    && same_size j jobs
    && same_time j jobs
    && same_text (λ k. k.validation_base_sha) j jobs
    && same_text (λ k. k.validation_sha) j jobs
    && is_some j.validated_at
    && nonempty j.validation_base_sha
    && nonempty j.validation_sha
    && all_heads jobs

pub is_reuse_complete : Job → List Job → Bool
unfolding is_complete
is_reuse_complete j jobs =
    is_complete j jobs
    && same_text (λ k. k.validation_tree_sha) j jobs
    && same_text (λ k. k.validation_gate_policy_sha) j jobs
    && same_text (λ k. k.validation_environment_sha) j jobs
    && same_text (λ k. k.validation_train_sha) j jobs
    && nonempty j.validation_tree_sha
    && nonempty j.validation_gate_policy_sha
    && nonempty j.validation_environment_sha
    && nonempty j.validation_train_sha

pub summarize : Job → List Job → Summary
unfolding is_reuse_complete
summarize j jobs = record {
  train_id = j.train_id;
  train_size = j.train_size;
  job_ids = map (λ k. k.id) jobs;
  branches =
      map
        (λ k. record {
          job_id = k.id;
          branch = k.branch;
          validated_head_sha = k.validated_head_sha;
        })
        jobs;
  validated_at = j.validated_at;
  validation_base_sha = j.validation_base_sha;
  validation_sha = j.validation_sha;
  deploy_eligible = is_complete j jobs;
  reuse_identity_complete = is_reuse_complete j jobs;
  validation_tree_sha = j.validation_tree_sha;
  validation_gate_policy_sha = j.validation_gate_policy_sha;
  validation_environment_sha = j.validation_environment_sha;
  validation_train_sha = j.validation_train_sha;
}

-- A group always has a first job.
pub summarize_groups : List Group → List Summary
unfolding summarize
summarize_groups [] = []
summarize_groups ((key, []) ∷ groups) = summarize_groups groups
summarize_groups ((key, j ∷ js) ∷ groups) = summarize j (j ∷ js) ∷ summarize_groups groups

pub validated_train_summaries : Store → List Summary
unfolding group_jobs append_to_group summarize_groups
validated_train_summaries s =
    summarize_groups (group_jobs [] (select (has_status validated) s.jobs))

-- `[summary for summary in summaries if summary["train_id"] == train_id][0]`
abbrev pub or_not_found : Option Summary → M (Option Summary)
or_not_found none = raise queue_error
or_not_found (some t) = return (some t)

unfoldable pub chosen : String → List Summary → M (Option Summary)
chosen train_id summaries = or_not_found (first (λ t. t.train_id == train_id) summaries)

-- The one deployable train; several, or validated jobs without one, are refused.
abbrev pub sole : ℕ → List Summary → M (Option Summary)
sole trains [] = if ltb 0 trains then raise queue_error else return none
sole trains (t ∷ more) = if ltb 0 (length more) then raise queue_error else return (some t)

unfoldable pub only_deployable : List Summary → M (Option Summary)
only_deployable summaries = sole (length summaries) (select (λ t. t.deploy_eligible) summaries)

unfoldable pub with_members : Option Summary → M (Option Summary × List Job)
with_members none = return (none, [])
with_members (some t) = do
  require t.deploy_eligible queue_error
  jobs ← reads (list_jobs_fifo validated)
  return (some t, select (λ j. j.train_id == t.train_id) jobs)

unfoldable pub select_validated_train : String → M (Option Summary × List Job)
unfolding chosen only_deployable with_members
select_validated_train train_id = do
  summaries ← reads validated_train_summaries
  selected ← (if nonempty train_id then chosen train_id summaries else only_deployable summaries)
  with_members selected
