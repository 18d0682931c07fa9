-- ===== src/Examples/Reconcile.antt =====
-- The verdicts of a reconcile at a concrete remote and queue.
use mergetrain.Prelude.{
  ℕ, ◌≡◌, ◌⊎◌, inl, refl, true, false, none, some, [], ◌∷◌, All, arith, String, List, count_where,
  update_where, select, first, exists_where, strip, split_lines, has_prefix,
}
use mergetrain.Model.{Job, deployed, needs_reconcile, is_reconcile_conflict, Marker, no_marker}
use mergetrain.Store.{Store, Distinct, final, immediate, find_job, record_run_event, get_job}
use mergetrain.Leases.{lock_takeover, in_progress_count}
use mergetrain.Reconcile.Git.{
  Git, ancestor_state, audit_ref_for_sha, lower, is_commit_id, all_hex, text_length, char_at,
  git_remote_ref_sha, exact_sha,
}
use mergetrain.Reconcile.Verdict.{
  JobDecision, classify, is_resolvable, ref_verdicts, any_unknown, decide, audit_ref_present,
  all_contain, any_contains, ref_state, reconciled_verify_status,
}
use mergetrain.Jobs.Mark.{mark_job, mark_in_transaction, mark_columns, mark_guard}
use mergetrain.Recovery.{unpack_push_refs}
use mergetrain.Reconcile.Groups.{
  classify_groups, classify_group, classify_members, ask_refs, ask_audit, group_by_target,
  add_to_groups, same_texts,
}
use mergetrain.Reconcile.Verdict.Warranted.{Warrants, classify_warranted, classify_complete}
use mergetrain.Reconcile.Apply.{apply}
use mergetrain.Reconcile.Apply.Swap.{Swapped}
use mergetrain.Reconcile.Apply.Overtaken.{apply-Swapped}
use mergetrain.Reconcile.Run.{
  Races, reconcile, jobs_to_check, reconcile_locked, write_all, sort_by_id, insert_by_id, in_order,
  outcome,
}
use mergetrain.Reconcile.Run.Preview.{reconcile_preview}
use mergetrain.Reconcile.Run.Evidence.{Rests, reconcile-Rests}
use mergetrain.Samples.{noon, stranded, job}

abbrev parked_marker : Marker
parked_marker = record no_marker {
  pending_deploy_sha = "d1";
  pending_deploy_remote = "origin";
  pending_deploy_destination_sha = "q1";
}

abbrev parked_job : Job
parked_job = record (job 1 "a" needs_reconcile) { marker = parked_marker }

-- A remote whose only push ref carries the commit.
abbrev landed : Git
landed = record {
  pin_resolves = λ _. true;
  object_exists = λ _. true;
  is_ancestor = λ _ _. 0;
  push_endpoint_sha = λ _ _. some "q1";
  fetch = λ _. true;
  ls_remote = λ _ _. some (("d1", "refs/heads/main") ∷ []);
  push_in_flight = λ _. false;
  policy_without_hooks = "";
  remote = "origin";
  push_refs = "main" ∷ [];
}

abbrev parked_queue : Store
parked_queue = record stranded { jobs = parked_job ∷ []; next_id = 2; lock = none }

abbrev quiet : Races
quiet = record { acquiring = λ s. s; asking = λ s. s; writing = λ _ s. s }

abbrev tips : List (String × String)
tips = ("main", "d1") ∷ []

classify_warranted_example : Warrants landed parked_job tips "" deployed
unfolding classify is_resolvable ref_verdicts any_unknown decide audit_ref_present all_contain
    any_contains ref_state ancestor_state audit_ref_for_sha lower is_commit_id all_hex text_length
    char_at strip
classify_warranted_example = classify_warranted landed parked_job tips "" deployed refl

classify_complete_example : (classify landed parked_job tips "").decision ≡ deployed
unfolding is_resolvable ancestor_state
classify_complete_example =
    classify_complete landed parked_job tips "" deployed refl (λ e. cc)
      (refl, (λ e. cc), ((refl, refl, refl, refl), tt), inl refl)

parked-Distinct : Distinct parked_queue.jobs
unfolding count_where
parked-Distinct k = ground arith

abbrev verdict : JobDecision
verdict = classify landed parked_job tips ""

abbrev settled_queue : Store
settled_queue = final (apply noon landed verdict parked_queue)

abbrev deleted : List ℕ
deleted = 1 ∷ []

apply-Swapped_example :
    (true ≡ true → Swapped verdict parked_queue settled_queue deleted)
    × (true ≡ false → (settled_queue ≡ parked_queue) × (deleted ≡ []))
unfolding classify is_resolvable ref_verdicts any_unknown decide audit_ref_present all_contain
    any_contains ref_state ancestor_state audit_ref_for_sha lower is_commit_id all_hex text_length
    char_at strip apply mark_job mark_in_transaction mark_columns mark_guard immediate count_where
    update_where select first exists_where find_job reconciled_verify_status record_run_event
    get_job
apply-Swapped_example =
    apply-Swapped noon landed verdict parked_queue parked-Distinct {written = true} {pins = deleted}
      {t = settled_queue} (inl refl) refl

reconcile_preview_example :
    (final (reconcile noon landed quiet 30 false parked_queue) ≡ parked_queue)
    ⊎ (final (reconcile noon landed quiet 30 false parked_queue) ≡ parked_queue)
reconcile_preview_example = reconcile_preview noon landed quiet 30 parked_queue

reconcile-Rests_example : All (Rests landed) (verdict ∷ [])
unfolding classify is_resolvable ref_verdicts any_unknown decide audit_ref_present all_contain
    any_contains ref_state ancestor_state audit_ref_for_sha lower is_commit_id all_hex text_length
    char_at strip select exists_where reconcile reconcile_locked write_all classify_groups
    classify_group classify_members ask_refs ask_audit git_remote_ref_sha exact_sha has_prefix
    group_by_target add_to_groups same_texts jobs_to_check sort_by_id insert_by_id lock_takeover
    in_order is_reconcile_conflict unpack_push_refs in_progress_count count_where split_lines
reconcile-Rests_example =
    reconcile-Rests noon landed quiet 30 false parked_queue
      {o = outcome (verdict ∷ []) (verdict ∷ []) [] [] false []} {t = parked_queue} refl
