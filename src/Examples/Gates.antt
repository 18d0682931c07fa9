-- ===== src/Examples/Gates.antt =====
-- The gates of a small project: two in one group, and one for the documentation.
use mergetrain.Prelude.{
  ℕ, Bool, true, false, none, some, List, [], ◌∷◌, String, ◌==◌, text_column, if◌then◌else◌, select,
  first, exists_where, ◌≡◌, ◌⊎◌, refl, All,
}
use mergetrain.Quoting.Render.{has_char}
use mergetrain.Paths.Segment.{
  fnmatch_segment, fnmatchcase, rewrite_class, tokens, closes, match_tokens, some_suffix, admits,
  in_class,
}
use mergetrain.Paths.Gate.{path_matches, match_parts, some_tail, split_at, any_path_matches}
use mergetrain.Paths.Status.{
  is_status, all_digits, parse_fields, parse_name_status_z, distinct_texts,
}
use mergetrain.Paths.Status.Printed.{moved, print}
use mergetrain.Gates.Names.{has_name, is_subset}
use mergetrain.Gates.Config.{
  Gate, names_of, is_redundant, effective_gates, distinct_names, needs_known, gates_checked,
  is_loadable,
}
use mergetrain.Gates.Dependencies.{
  gate_dependencies, stages_from, waits_from, stage_waits, waits_of, add_to_stages, joins,
}
use mergetrain.Gates.Plan.{
  GateEvent, World, passed, failed, GateState, active, success, skipped, reused, Trace, finished,
  gate_failed, initial_of, ready, candidates, fill, next_wave, index_from, gate_events, wave_error,
  without, waves, settled, unsettled, run_configured_plan,
}
use mergetrain.Gates.Plan.Progress.{IsAnswer, run_configured_plan-IsAnswer}
use mergetrain.Gates.Plan.Outcomes.{IsOrdered, run_configured_plan-IsOrdered}
use mergetrain.Gates.Plan.Finished.{Passes}
use mergetrain.Gates.Select.{
  Diffs, output, changed_paths, selected_paths, skipped_states, reused_states, run_gates,
  run_reused_gates, planned, decision_paths, eligible_action, rerun, reuse_gate_plan,
}
use mergetrain.Gates.Select.Preview.{configured, state_of_action, reuse_gate_plan-reused_states}
use mergetrain.Gates.Select.Passed.{LeftOut, run_gates-Passes, run_reused_gates-Passes}

abbrev plain_gate : Gate
plain_gate = record {
  name = "lint";
  run = "make lint";
  always_rerun_on_deploy = false;
  paths = [];
  parallel_group = "fast";
  needs = [];
  workers = 1;
  timeout_seconds = none;
}

abbrev unit_gate : Gate
unit_gate = record plain_gate { name = "unit"; always_rerun_on_deploy = true }

abbrev docs_gate : Gate
docs_gate = record plain_gate {
  name = "docs";
  paths = "docs/*" ∷ [];
  parallel_group = "";
  needs = "unit" ∷ [];
}

-- `run: git diff --check` written out again
abbrev builtin_gate : Gate
builtin_gate = record plain_gate { name = "diff-check"; parallel_group = "" }

abbrev gates : List Gate
gates = builtin_gate ∷ plain_gate ∷ unit_gate ∷ docs_gate ∷ []

abbrev repeats : String → Bool
repeats command = true

abbrev green : World
green = record { ended = λ name. passed; stopped = λ names. false }

abbrev unit_fails : World
unit_fails = record green { ended = λ name. if name == "unit" then failed else passed }

abbrev source_moved : Diffs
source_moved = record {
  check = true;
  name_status = λ base head. output (print (moved "R90" "a.py" "b.py" ∷ []));
}

gates-is_loadable : is_loadable 2 ("smoke" ∷ []) gates ≡ true
unfolding is_loadable distinct_names gates_checked needs_known has_name
gates-is_loadable = refl

-- The first wave runs both gates of the group; a failure in it ends the plan.
failing_test : (run_configured_plan unit_fails 2 gates []).verdict ≡ gate_failed "unit"
unfolding run_configured_plan waves ready candidates fill next_wave wave_error without settled
    unsettled initial_of gate_events gate_dependencies stages_from waits_from stage_waits waits_of
    add_to_stages joins is_subset has_name select first index_from
failing_test = refl

run_configured_plan-IsAnswer_example :
    IsAnswer (run_configured_plan unit_fails 2 (effective_gates repeats gates) []).verdict
run_configured_plan-IsAnswer_example =
    run_configured_plan-IsAnswer unit_fails 2 ("smoke" ∷ []) gates repeats [] gates-is_loadable

run_configured_plan-IsOrdered_example :
    IsOrdered
      (gate_dependencies gates)
      2
      ("diff-check" ∷ names_of (settled (("docs", skipped) ∷ []) gates))
      (run_configured_plan green 2 gates (("docs", skipped) ∷ [])).waves
run_configured_plan-IsOrdered_example =
    run_configured_plan-IsOrdered green 2 gates (("docs", skipped) ∷ [])

abbrev event : String → GateState → ℕ → GateEvent
event name state index = record { name = name; state = state; index = index }

-- The listing changes no documentation, so the documentation gate is skipped.
abbrev moved_trace : Trace
moved_trace = record {
  waves = (plain_gate ∷ unit_gate ∷ []) ∷ [];
  events =
      event "diff-check" active 1
      ∷ event "diff-check" success 1
      ∷ event "docs" skipped 4
      ∷ event "lint" active 2
      ∷ event "unit" active 3
      ∷ event "lint" success 2
      ∷ event "unit" success 3
      ∷ [];
  verdict = finished;
}

moved_run :
    run_gates green source_moved 2 (effective_gates repeats gates) "base" "head"
    ≡ planned moved_trace
unfolding run_gates run_configured_plan waves ready candidates fill next_wave wave_error without
    settled unsettled initial_of gate_events gate_dependencies stages_from waits_from stage_waits
    waits_of add_to_stages joins is_subset has_name select first index_from effective_gates
    is_redundant selected_paths changed_paths skipped_states reused_states exists_where
    parse_name_status_z parse_fields is_status all_digits distinct_texts print path_matches
    match_parts some_tail split_at fnmatch_segment fnmatchcase rewrite_class tokens closes
    match_tokens some_suffix admits in_class has_char any_path_matches
moved_run = refl

run_gates-Passes_example :
    (source_moved.check ≡ true)
    × All
        (λ g. Passes green moved_trace.waves g ⊎ LeftOut source_moved "base" "head" g)
        (effective_gates repeats gates)
run_gates-Passes_example =
    run_gates-Passes green source_moved 2 ("smoke" ∷ []) gates repeats "base" "head" moved_trace
      gates-is_loadable moved_run refl

-- The deploy runs only the gate that always runs.
abbrev reused_trace : Trace
reused_trace = record {
  waves = (unit_gate ∷ []) ∷ [];
  events =
      event "diff-check" reused 1
      ∷ event "lint" reused 2
      ∷ event "docs" skipped 4
      ∷ event "unit" active 3
      ∷ event "unit" success 3
      ∷ [];
  verdict = finished;
}

reused_run :
    run_reused_gates green source_moved 2 (effective_gates repeats gates) "base" "head"
    ≡ planned reused_trace
unfolding run_reused_gates run_configured_plan waves ready candidates fill next_wave wave_error
    without settled unsettled initial_of gate_events gate_dependencies stages_from waits_from
    stage_waits waits_of add_to_stages joins is_subset has_name select first index_from
    effective_gates is_redundant selected_paths changed_paths skipped_states reused_states
    exists_where parse_name_status_z parse_fields is_status all_digits distinct_texts print
    path_matches match_parts some_tail split_at fnmatch_segment fnmatchcase rewrite_class tokens
    closes match_tokens some_suffix admits in_class has_char any_path_matches
reused_run = refl

run_reused_gates-Passes_example :
    All
      (λ g.
        (eligible_action (decision_paths source_moved "base" "head" gates) g).0 ≡ rerun
        → Passes green reused_trace.waves g)
      (effective_gates repeats gates)
run_reused_gates-Passes_example =
    run_reused_gates-Passes green source_moved 2 ("smoke" ∷ []) gates repeats "base" "head"
      reused_trace gates-is_loadable reused_run refl

reuse_gate_plan-reused_states_example :
    All
      (λ entry.
        initial_of entry.0.name (
          reused_states
            (selected_paths source_moved "base" "head" (effective_gates repeats gates))
            (effective_gates repeats gates))
        ≡ state_of_action entry.1)
      (configured (
        reuse_gate_plan false
          (some (record {
            authorized = true;
            eligible = true;
            paths = decision_paths source_moved "base" "head" gates;
          }))
          (effective_gates repeats gates)))
reuse_gate_plan-reused_states_example =
    reuse_gate_plan-reused_states source_moved 2 ("smoke" ∷ []) gates repeats false true "base"
      "head" gates-is_loadable
