-- ===== src/Reconcile/Groups.antt =====
-- The verdicts of the jobs, by the target that their interrupted push went to
-- (src/mergetrain/recovery.py, _job_push_target and _classify_group, and the grouping in reconcile).
pub mod Answers
use mergetrain.Prelude.{
  ℕ, Bool, true, false, not, ◌&&◌, ◌||◌, Option, none, some, List, [], ◌∷◌, ◌++◌, String,
  if◌then◌else◌, ◌==◌, nat_column, text_column, nonempty, keep_text, exists_where,
}
use mergetrain.Model.{Job, Status, status_column, needs_reconcile, blocked}
use mergetrain.Store.{has_status}
use mergetrain.Recovery.{unpack_push_refs}
use mergetrain.Reconcile.Git.{Git, git_remote_ref_sha, audit_ref_for_sha}
use mergetrain.Reconcile.Verdict.{JobDecision, classify, is_resolvable}

-- The remote, the refs and the endpoint hash that an interrupted push recorded.
pub record Target : Type 0 where
  pub remote : String
  pub refs : List String
  pub destination_sha : String

abbrev or_configured : List String → List String → List String
or_configured [] configured = configured
or_configured (r ∷ refs) configured = r ∷ refs

-- _job_push_target
abbrev pub job_push_target : Git → Job → Target
job_push_target git j = record {
  remote = keep_text j.pending_deploy_remote git.remote;
  refs = or_configured (unpack_push_refs j.pending_deploy_refs) git.push_refs;
  destination_sha = j.pending_deploy_destination_sha;
}

unfoldable pub same_texts : List String → List String → Bool
same_texts [] [] = true
same_texts [] (u ∷ us) = false
same_texts (t ∷ ts) [] = false
same_texts (t ∷ ts) (u ∷ us) = t == u && same_texts ts us

abbrev pub same_target : Target → Target → Bool
same_target a b =
    a.remote == b.remote && same_texts a.refs b.refs && a.destination_sha == b.destination_sha

abbrev pub Group : Type 0
Group = Target × List Job

-- `groups.setdefault(target, []).append(job)`
unfoldable pub add_to_groups : Target → Job → List Group → List Group
add_to_groups target j [] = (target, j ∷ []) ∷ []
add_to_groups target j ((other, members) ∷ groups) =
    let rest = add_to_groups target j groups in
    if same_target other target
    then (other, members ++ j ∷ []) ∷ groups
    else (other, members) ∷ rest

unfoldable pub group_by_target : Git → List Group → List Job → List Group
unfolding add_to_groups
group_by_target git groups [] = groups
group_by_target git groups (j ∷ js) =
    group_by_target git (add_to_groups (job_push_target git j) j groups) js

-- The dictionary of the tips: one entry for a ref, where it stood first.
abbrev has_ref : String → List (String × String) → Bool
has_ref ref [] = false
has_ref ref ((other, sha) ∷ shas) = other == ref || has_ref ref shas

abbrev put_ref : String → String → List (String × String) → List (String × String)
put_ref ref sha shas = if has_ref ref shas then shas else shas ++ (ref, sha) ∷ []

unfoldable pub ask_refs :
    Git → String → List (String × String) → List String → Option (List (String × String))
ask_refs git remote shas [] = some shas
ask_refs git remote shas (ref ∷ refs) = elim (git_remote_ref_sha git remote ref) [
  | none ↦ none
  | some sha ↦ ask_refs git remote (put_ref ref sha shas) refs
]

-- What the remote has at the audit ref of a job; nothing is asked for a corrupt marker.
unfoldable pub ask_audit : Git → String → Job → Option String
ask_audit git remote j =
    if nonempty (audit_ref_for_sha j.pending_deploy_sha)
    then git_remote_ref_sha git remote (audit_ref_for_sha j.pending_deploy_sha)
    else some ""

-- The verdicts of a group, or `none` where an audit ref cannot be asked for.
unfoldable pub classify_members :
    Git → String → List (String × String) → List Job → Option (List JobDecision)
classify_members git remote ref_shas [] = some []
classify_members git remote ref_shas (j ∷ js) = elim (ask_audit git remote j) [
  | none ↦ none
  | some audit_sha ↦ elim (classify_members git remote ref_shas js) [
    | none ↦ none
    | some ds ↦ some (classify git j ref_shas audit_sha ∷ ds)
  ]
]

abbrev is_endpoint : String → Option String → Bool
is_endpoint recorded none = false
is_endpoint recorded (some sha) = sha == recorded

-- _classify_group: `none` is RemoteUnreachable
unfoldable pub classify_group : Git → Target → List Job → Option (List JobDecision)
classify_group git target group =
    if not (is_endpoint target.destination_sha (git.push_endpoint_sha target.remote target.refs))
    then none
    else if not (git.fetch target.remote)
    then none
    else elim (ask_refs git target.remote [] target.refs) [
      | none ↦ none
      | some ref_shas ↦ classify_members git target.remote ref_shas group
    ]

-- A conflict that cannot be checked again stays one.
abbrev pub unchecked : Git → Job → JobDecision
unchecked git j = record {
  job = j;
  pending_sha = j.pending_deploy_sha;
  resolvable = is_resolvable git j;
  refs = [];
  decision = blocked;
  reason = "cannot re-check this conflict";
  audit_ref = audit_ref_for_sha j.pending_deploy_sha;
  audit_ref_sha = "";
}

unfoldable pub all_unchecked : Git → List Job → List JobDecision
all_unchecked git [] = []
all_unchecked git (j ∷ js) = unchecked git j ∷ all_unchecked git js

-- The verdicts of all groups; `none` where a group with a parked job cannot be asked for.
unfoldable pub classify_groups : Git → List Group → Option (List JobDecision)
unfolding all_unchecked
classify_groups git [] = some []
classify_groups git ((target, members) ∷ groups) = elim (classify_group git target members) [
  | none ↦
      if exists_where (has_status needs_reconcile) members
      then none
      else elim (classify_groups git groups) [
        | none ↦ none
        | some ds ↦ some (all_unchecked git members ++ ds)
      ]
  | some here ↦ elim (classify_groups git groups) [ none ↦ none | some ds ↦ some (here ++ ds) ]
]
