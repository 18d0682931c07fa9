-- ===== src/Gates/Select/Passed.antt =====
-- What run_gates and run_reused_gates have done where they finish.
use mergetrain.Prelude.{
  ℕ, Bool, true, false, not, none, some, List, [], ◌∷◌, String, if◌then◌else◌, select, is_some,
  exists_where, ◌≡◌, ◌⊎◌, inl, inr, refl, ap, sym, ◌∙◌, subst, Bool-cases, Option-cases, arith, All,
}
use mergetrain.Gates.Config.{Gate, names_of, effective_gates, distinct_names, is_loadable}
use mergetrain.Gates.Plan.{
  World, active, success, skipped, reused, GateEvent, Trace, finished, Initial, initial_of,
  unsettled, run_configured_plan, stop,
}
use mergetrain.Gates.Plan.Finished.{Passes, run_configured_plan-Passes}
use mergetrain.Paths.Gate.{any_path_matches}
use mergetrain.Gates.Select.{
  Diffs, Changed, changed, unavailable, interrupted, has_paths, is_skipped, selected_paths,
  skipped_states, reused_states, changed_paths, decision_paths, rerun, eligible_action, GateRun,
  diff_check_failed, selection_interrupted, planned, planned_with, diff_event, run_gates,
  run_reused_gates,
}
use mergetrain.Gates.Select.Own.{All-both, distinct_names-append_left, distinct_names-select}
use mergetrain.Gates.Select.Preview.{
  skipped_state, StartsAs, starting_states, exists_own, same_action, state_of_action,
}

-- The trace of a run that reached its plan
abbrev trace_of : GateRun → Trace
trace_of (diff_check_failed events) = stop finished
trace_of (selection_interrupted events) = stop finished
trace_of (planned trace) = trace

abbrev is_planned : GateRun → Bool
is_planned (diff_check_failed events) = false
is_planned (selection_interrupted events) = false
is_planned (planned trace) = true

-- In a run that finished, a gate without an initial state passed.
abbrev Runs : World → Initial → List (List Gate) → Gate → Type 0
Runs world initial ws g = initial_of g.name initial ≡ none → Passes world ws g

select-Runs :
    (world : World) (initial : Initial) (ws : List (List Gate)) (gs : List Gate)
    → All (Passes world ws) (unsettled initial gs)
    → All (Runs world initial ws) gs
unfolding unsettled select
select-Runs world initial ws [] h = tt
select-Runs world initial ws (g ∷ gs) h = elim (Option-cases (initial_of g.name initial)) [
  | inl unset ↦
      let both : All (Passes world ws) (g ∷ unsettled initial gs) =
        subst
          (λ o.
            All (Passes world ws)
              (if not (is_some o) then g ∷ unsettled initial gs else unsettled initial gs))
          unset h in
      ((λ e. both.0), select-Runs world initial ws gs both.1)
  | inr (state, set) ↦
      let rest : All (Passes world ws) (unsettled initial gs) =
        subst
          (λ o.
            All (Passes world ws)
              (if not (is_some o) then g ∷ unsettled initial gs else unsettled initial gs))
          set h in
      ((λ e. absurd (ground arith)), select-Runs world initial ws gs rest)
]

-- The trace of a run is that of the plan with the states.
abbrev IsPlanOf : World → ℕ → List Gate → Initial → Trace → Type 0
IsPlanOf world max_workers gates initial trace =
    ((run_configured_plan world max_workers gates initial).waves ≡ trace.waves)
    × ((run_configured_plan world max_workers gates initial).verdict ≡ trace.verdict)

planned_with-IsPlanOf :
    (world : World) (max_workers : ℕ) (gates : List Gate) (events : List GateEvent) (seen : Changed)
    (initial : Initial) (trace : Trace)
    → planned_with world max_workers gates events seen initial ≡ planned trace
    → IsPlanOf world max_workers gates initial trace
planned_with-IsPlanOf world max_workers gates events (changed found) initial trace e =
    (ap (λ r. (trace_of r).waves) e, ap (λ r. (trace_of r).verdict) e)
planned_with-IsPlanOf world max_workers gates events unavailable initial trace e =
    (ap (λ r. (trace_of r).waves) e, ap (λ r. (trace_of r).verdict) e)
planned_with-IsPlanOf world max_workers gates events interrupted initial trace e =
    absurd (ground (arith, ap is_planned e))

finished-Runs :
    (world : World) (max_workers : ℕ) (gates : List Gate) (initial : Initial) (trace : Trace)
    → IsPlanOf world max_workers gates initial trace
    → trace.verdict ≡ finished
    → All (Runs world initial trace.waves) gates
finished-Runs world max_workers gates initial trace (waves, verdict) done =
    select-Runs world initial trace.waves gates (
      subst (λ ws. All (Passes world ws) (unsettled initial gates)) waves
        (run_configured_plan-Passes world max_workers gates initial (verdict ∙ done)))

-- No changed path matches a pattern of the gate.
abbrev pub LeftOut : Diffs → String → String → Gate → Type 0
LeftOut diffs base_ref head_ref g =
    (found : List String) × (changed_paths diffs base_ref head_ref ≡ changed found)
    × (has_paths g ≡ true)
    × (any_path_matches g.paths found ≡ false)

left_out_by :
    (seen : Changed) (g : Gate)
    → is_skipped seen g ≡ true
    → (found : List String) × (seen ≡ changed found)
      × (has_paths g ≡ true)
      × (any_path_matches g.paths found ≡ false)
left_out_by (changed found) g h = (found, refl, ground arith, ground arith)
left_out_by unavailable g h = absurd (ground arith)
left_out_by interrupted g h = absurd (ground arith)

skipped-LeftOut :
    (diffs : Diffs) (base_ref head_ref : String) (gates : List Gate) (g : Gate)
    → (has_paths g ≡ true → exists_where has_paths gates ≡ true)
    → is_skipped (selected_paths diffs base_ref head_ref gates) g ≡ true
    → LeftOut diffs base_ref head_ref g
unfolding selected_paths changed_paths
skipped-LeftOut diffs base_ref head_ref gates g own h =
    let (found, e, scoped, no_match) =
      left_out_by (selected_paths diffs base_ref head_ref gates) g h in
    let at : selected_paths diffs base_ref head_ref gates ≡ changed_paths diffs base_ref head_ref =
      rw (selected_paths, own scoped) refl in
    (found, sym at ∙ e, scoped, no_match)

effective_distinct :
    (max_workers : ℕ) (others : List String) (gates : List Gate) (repeats : String → Bool)
    → is_loadable max_workers others gates ≡ true
    → distinct_names (names_of (effective_gates repeats gates)) ≡ true
unfolding is_loadable effective_gates
effective_distinct max_workers others gates repeats h =
    distinct_names-select _ gates
      (distinct_names-append_left (names_of gates) others (ground arith))

-- Where run_gates finishes on gates that the loader accepts, `git diff --check` passed, and each gate
-- ran and passed, or has path patterns that match none of the paths that git says are changed.
pub run_gates-Passes :
    (world : World) (diffs : Diffs) (max_workers : ℕ) (others : List String) (gates : List Gate)
    (repeats : String → Bool) (base_ref head_ref : String) (trace : Trace)
    → is_loadable max_workers others gates ≡ true
    → run_gates world diffs max_workers (effective_gates repeats gates) base_ref head_ref
      ≡ planned trace
    → trace.verdict ≡ finished
    → (diffs.check ≡ true)
      × All
          (λ g. Passes world trace.waves g ⊎ LeftOut diffs base_ref head_ref g)
          (effective_gates repeats gates)
unfolding run_gates selected_paths effective_gates
run_gates-Passes world diffs max_workers others gates repeats base_ref head_ref trace h e done =
    elim (Bool-cases diffs.check) [
      | inr failed ↦
          let ended : diff_check_failed (diff_event active ∷ []) ≡ planned trace =
            sym (rw (run_gates, failed) refl) ∙ e in
          absurd (ground (arith, ap is_planned ended))
      | inl passed_check ↦
          let plan : List Gate = effective_gates repeats gates in
          let seen : Changed = selected_paths diffs base_ref head_ref plan in
          let initial : Initial = skipped_states seen plan in
          let events : List GateEvent = diff_event active ∷ diff_event success ∷ [] in
          let run : planned_with world max_workers plan events seen initial ≡ planned trace =
            sym (rw (run_gates, passed_check) refl) ∙ e in
          let runs =
            finished-Runs world max_workers plan initial trace
              (planned_with-IsPlanOf world max_workers plan events seen initial trace run) done in
          let Skips : Gate → Type 0 =
            λ g. initial_of g.name initial ≡ (if is_skipped seen g then some skipped else none) in
          let Own : Gate → Type 0 = λ g. has_paths g ≡ true → exists_where has_paths plan ≡ true in
          let Both : Gate → Type 0 = λ g. Skips g × Own g in
          (
            passed_check,
            All-both (Runs world initial trace.waves) Both _ plan
                (λ g ran both. elim (Bool-cases (is_skipped seen g)) [
                  | inl out ↦ inr (skipped-LeftOut diffs base_ref head_ref plan g both.1 out)
                  | inr stays ↦
                      inl (ran (both.0 ∙ ap (λ b. if b then some skipped else none) stays))
                ])
                runs
                (All-both Skips Own Both plan (λ g s o. (s, o))
                  (skipped_state seen plan (effective_distinct max_workers others gates repeats h))
                  (exists_own plan)),
          )
    ]

-- Where a deploy that reuses a validation finishes its gates, each gate that the preview of its
-- decision says is to be run again ran and passed.
pub run_reused_gates-Passes :
    (world : World) (diffs : Diffs) (max_workers : ℕ) (others : List String) (gates : List Gate)
    (repeats : String → Bool) (base_ref validation_sha : String) (trace : Trace)
    → is_loadable max_workers others gates ≡ true
    → run_reused_gates world diffs max_workers
        (effective_gates repeats gates)
        base_ref
        validation_sha
      ≡ planned trace
    → trace.verdict ≡ finished
    → All
        (λ g.
          (eligible_action (decision_paths diffs base_ref validation_sha gates) g).0 ≡ rerun
          → Passes world trace.waves g)
        (effective_gates repeats gates)
unfolding run_reused_gates effective_gates
run_reused_gates-Passes world diffs max_workers others gates repeats base_ref validation_sha trace h
      e done =
    let plan : List Gate = effective_gates repeats gates in
    let seen : Changed = selected_paths diffs base_ref validation_sha plan in
    let initial : Initial = reused_states seen plan in
    let Own : Gate → Type 0 = λ g. has_paths g ≡ true → exists_where has_paths plan ≡ true in
    let Both : Gate → Type 0 = λ g. StartsAs seen plan g × Own g in
    All-both (Runs world initial trace.waves) Both _ plan
      (λ g ran both again. ran (
        both.0
        ∙ ap (λ a. state_of_action a.0) (same_action diffs base_ref validation_sha gates _ g both.1)
        ∙ ap state_of_action again))
      (finished-Runs world max_workers plan initial trace
        (planned_with-IsPlanOf world max_workers plan (diff_event reused ∷ []) seen initial trace e)
        done)
      (All-both (StartsAs seen plan) Own Both plan (λ g s o. (s, o))
        (starting_states seen plan (effective_distinct max_workers others gates repeats h))
        (exists_own plan))
