-- ===== src/Gates/Select.antt =====
-- Which gates a run leaves out: changed_paths, _path_selection, run_gates and run_reused_gates of
-- src/mergetrain/gate_runner.py, the gate plan of src/mergetrain/reuse.py and the changed paths that
-- ValidationReuse.decide of src/mergetrain/validation_reuse.py passes to it. What git prints is an
-- answer.
pub mod Own
pub mod Passed
pub mod Preview
use mergetrain.Prelude.{
  ℕ, suc, zero, ◌+◌, Bool, true, false, not, ◌&&◌, ◌||◌, Option, none, some, List, [], ◌∷◌, ◌++◌,
  String, ◌==◌, text_column, nat_column, ltb, leb, nonempty, map, if◌then◌else◌, select, is_some,
  exists_where, first, length,
}
use mergetrain.Paths.Gate.{any_path_matches}
use mergetrain.Paths.Status.{
  Parsed, parse_name_status_z, paths, not_terminated, invalid_status, ended, invalid_path,
}
use mergetrain.Gates.Config.{Gate, none_of}
use mergetrain.Gates.Plan.{
  World, GateState, active, success, skipped, reused, GateEvent, Trace, Initial, initial_of,
  after_events, run_configured_plan,
}

-- How `git diff --name-status` ends: with its output, with CommandFailed, or with an error of the
-- pulse, which the run raises.
pub data Printed : Type 0 where
  output : String → Printed
  command_failed raised : Printed

-- What git answers: `check` is `git diff --check`, `name_status` takes the two refs.
pub record Diffs : Type 0 where
  pub check : Bool
  pub name_status : String → String → Printed

-- The changed paths; `unavailable` is None.
pub data Changed : Type 0 where
  changed : List String → Changed
  unavailable interrupted : Changed

abbrev pub parsed_paths : Parsed → Changed
parsed_paths (paths found) = changed found
parsed_paths not_terminated = unavailable
parsed_paths invalid_status = unavailable
parsed_paths ended = unavailable
parsed_paths invalid_path = unavailable

abbrev pub read_paths : Printed → Changed
read_paths (output text) = parsed_paths (parse_name_status_z text)
read_paths command_failed = unavailable
read_paths raised = interrupted

unfoldable pub changed_paths : Diffs → String → String → Changed
changed_paths diffs base_ref head_ref =
    if not (nonempty base_ref) || not (nonempty head_ref)
    then unavailable
    else read_paths (diffs.name_status base_ref head_ref)

abbrev pub has_paths : Gate → Bool
has_paths gate = not (none_of gate.paths)

abbrev pub misses : List String → Changed → Bool
misses patterns (changed found) = not (any_path_matches patterns found)
misses patterns unavailable = false
misses patterns interrupted = false

-- The condition of `skipped`, and of "skip" in the plan of the preview
abbrev pub is_skipped : Changed → Gate → Bool
is_skipped seen gate = has_paths gate && misses gate.paths seen

abbrev pub is_unavailable : Changed → Bool
is_unavailable (changed found) = false
is_unavailable unavailable = true
is_unavailable interrupted = false

abbrev pub with_state : GateState → Gate → String × GateState
with_state state gate = (gate.name, state)

-- _path_selection: the changed paths, and the states of the gates that they skip
unfoldable pub selected_paths : Diffs → String → String → List Gate → Changed
unfolding changed_paths
selected_paths diffs base_ref head_ref gates =
    if exists_where has_paths gates then changed_paths diffs base_ref head_ref else unavailable

unfoldable pub skipped_states : Changed → List Gate → Initial
skipped_states seen gates = map (with_state skipped) (select (is_skipped seen) gates)

abbrev pub may_reuse : Changed → Initial → Gate → Bool
may_reuse seen states gate =
    not (is_some (initial_of gate.name states))
    && not gate.always_rerun_on_deploy
    && not (has_paths gate && is_unavailable seen)

-- The loop that adds the reused gates to `initial_states`
unfoldable pub reused_states : Changed → List Gate → Initial
unfolding skipped_states initial_of
reused_states seen gates =
    skipped_states seen gates
    ++ map (with_state reused) (select (may_reuse seen (skipped_states seen gates)) gates)

-- How a run of the gates ends before the plan, or the trace of its plan.
pub data GateRun : Type 0 where
  diff_check_failed : List GateEvent → GateRun
  selection_interrupted : List GateEvent → GateRun
  planned : Trace → GateRun

abbrev pub diff_event : GateState → GateEvent
diff_event state = record { name = "diff-check"; state = state; index = 1 }

-- run_configured_plan with the states, unless the selection was interrupted
abbrev pub planned_with : World → ℕ → List Gate → List GateEvent → Changed → Initial → GateRun
planned_with world max_workers gates events (changed found) initial =
    planned (after_events events (run_configured_plan world max_workers gates initial))
planned_with world max_workers gates events unavailable initial =
    planned (after_events events (run_configured_plan world max_workers gates initial))
planned_with world max_workers gates events interrupted initial = selection_interrupted events

unfoldable pub run_gates : World → Diffs → ℕ → List Gate → String → String → GateRun
unfolding selected_paths skipped_states
run_gates world diffs max_workers gates base_ref head_ref =
    if diffs.check
    then planned_with world max_workers gates (diff_event active ∷ diff_event success ∷ [])
        (selected_paths diffs base_ref head_ref gates)
        (skipped_states (selected_paths diffs base_ref head_ref gates) gates)
    else diff_check_failed (diff_event active ∷ [])

unfoldable pub run_reused_gates : World → Diffs → ℕ → List Gate → String → String → GateRun
unfolding selected_paths reused_states
run_reused_gates world diffs max_workers gates base_ref validation_sha =
    planned_with world max_workers gates (diff_event reused ∷ [])
      (selected_paths diffs base_ref validation_sha gates)
      (reused_states (selected_paths diffs base_ref validation_sha gates) gates)

-- The changed paths of an eligible decision: `config.gates` are all the gates of the configuration.
unfoldable pub decision_paths : Diffs → String → String → List Gate → Changed
unfolding changed_paths
decision_paths diffs integration_base_sha validation_sha gates =
    if exists_where has_paths gates
    then changed_paths diffs integration_base_sha validation_sha
    else changed []

pub data Action : Type 0 where
  skip rerun reuse conditional_reuse potential_reuse conditional_run : Action

pub data Reason : Type 0 where
  no_matching_paths always_rerun_on_deploy path_discovery_unavailable exact_identity_match
        preview_required authorization_and_preview_required authorization_required
        identity_mismatch :
      Reason

-- What the plan reads of a decision
pub record Decided : Type 0 where
  pub authorized : Bool
  pub eligible : Bool
  pub paths : Changed

abbrev pub eligible_action : Changed → Gate → Action × Reason
eligible_action seen gate =
    if is_skipped seen gate
    then (skip, no_matching_paths)
    else if gate.always_rerun_on_deploy
    then (rerun, Reason.always_rerun_on_deploy)
    else if has_paths gate && is_unavailable seen
    then (rerun, path_discovery_unavailable)
    else (reuse, exact_identity_match)

abbrev pub possible_action : Bool → Gate → Action × Reason
possible_action authorized gate =
    if gate.always_rerun_on_deploy
    then (rerun, Reason.always_rerun_on_deploy)
    else if has_paths gate
    then (
      conditional_reuse,
      if authorized then preview_required else authorization_and_preview_required,
    )
    else (potential_reuse, if authorized then preview_required else authorization_required)

abbrev pub gate_action : Bool → Option Decided → Gate → Action × Reason
gate_action enabled none gate = possible_action enabled gate
gate_action enabled (some decision) gate =
    if decision.eligible
    then eligible_action decision.paths gate
    else if not decision.authorized
    then possible_action decision.authorized gate
    else (if has_paths gate then conditional_run else rerun, identity_mismatch)

abbrev built_in : Gate
built_in = record {
  name = "diff-check";
  run = "";
  always_rerun_on_deploy = false;
  paths = [];
  parallel_group = "";
  needs = [];
  workers = 1;
  timeout_seconds = none;
}

-- _reuse_gate_plan, with the gate, its action and the reason; `enabled` is deploy.reuse.enabled.
unfoldable pub reuse_gate_plan : Bool → Option Decided → List Gate → List (Gate × Action × Reason)
reuse_gate_plan enabled decision gates =
    map (λ g. (g, (gate_action enabled decision g).0, (gate_action enabled decision g).1))
      (built_in ∷ gates)
