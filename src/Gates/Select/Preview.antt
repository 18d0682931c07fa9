-- ===== src/Gates/Select/Preview.antt =====
-- The plan that the preview of a deploy shows, and the states with which the deploy starts its gates.
use mergetrain.Prelude.{
  ℕ, Bool, true, false, not, ◌&&◌, Option, none, some, List, [], ◌∷◌, String, map, if◌then◌else◌,
  select, is_some, exists_where, ◌≡◌, inl, inr, refl, ap, ◌∙◌, Bool-cases, arith, All,
}
use mergetrain.Gates.Names.{has_name}
use mergetrain.Gates.Config.{Gate, names_of, effective_gates, distinct_names, is_loadable}
use mergetrain.Gates.Plan.{GateState, skipped, reused, Initial, initial_of}
use mergetrain.Gates.Select.{
  Diffs, Changed, has_paths, is_skipped, is_unavailable, with_state, may_reuse, selected_paths,
  skipped_states, reused_states, decision_paths, Action, skip, rerun, reuse, conditional_reuse,
  potential_reuse, conditional_run, Reason, eligible_action, reuse_gate_plan,
}
use mergetrain.Gates.Select.Own.{
  All-both, selected_name, distinct_names-append_left, distinct_names-select, initial_of-with_state,
  first_state, initial_of-append,
}

-- The initial state that an action stands for; a gate that runs has none.
abbrev pub state_of_action : Action → Option GateState
state_of_action skip = some skipped
state_of_action rerun = none
state_of_action reuse = some reused
state_of_action conditional_reuse = none
state_of_action potential_reuse = none
state_of_action conditional_run = none

-- The entries of the configured gates, which stand after that of the built-in one
abbrev pub configured : List (Gate × Action × Reason) → List (Gate × Action × Reason)
configured [] = []
configured (built_in ∷ entries) = entries

pub skipped_state :
    (seen : Changed) (gates : List Gate)
    → distinct_names (names_of gates) ≡ true
    → All
        (λ g.
          initial_of g.name (skipped_states seen gates)
          ≡ (if is_skipped seen g then some skipped else none))
        gates
unfolding skipped_states
skipped_state seen gates h =
    let Named : Gate → Type 0 =
      λ g. has_name g.name (names_of (select (is_skipped seen) gates)) ≡ is_skipped seen g in
    let named : All Named gates = selected_name (is_skipped seen) gates h in
    All-both Named Named _ gates
      (λ g own again.
        initial_of-with_state g.name skipped (select (is_skipped seen) gates)
        ∙ ap (λ b. if b then some skipped else none) own)
      named named

abbrev pub StartsAs : Changed → List Gate → Gate → Type 0
StartsAs seen gates g =
    initial_of g.name (reused_states seen gates) ≡ state_of_action (eligible_action seen g).0

-- eligible_action, on its tests
abbrev action_by : Bool → Bool → Bool → Bool → Action × Reason
action_by s a p u =
    if s
    then (skip, Reason.no_matching_paths)
    else if a
    then (rerun, Reason.always_rerun_on_deploy)
    else if p && u
    then (rerun, Reason.path_discovery_unavailable)
    else (reuse, Reason.exact_identity_match)

abbrev skip_by : Bool → Option GateState
skip_by s = if s then some skipped else none

actions_agree :
    (s a p u : Bool)
    → first_state
        (skip_by s)
        (if not (is_some (skip_by s)) && not a && not (p && u) then some reused else none)
      ≡ state_of_action (action_by s a p u).0
actions_agree true a p u = refl
actions_agree false true p u = refl
actions_agree false false true true = refl
actions_agree false false true false = refl
actions_agree false false false u = refl

pub starting_states :
    (seen : Changed) (gates : List Gate)
    → distinct_names (names_of gates) ≡ true
    → All (StartsAs seen gates) gates
unfolding reused_states
starting_states seen gates h =
    let states : Initial = skipped_states seen gates in
    let Skips : Gate → Type 0 =
      λ g. initial_of g.name states ≡ (if is_skipped seen g then some skipped else none) in
    let Named : Gate → Type 0 = λ g.
      has_name g.name (names_of (select (may_reuse seen states) gates)) ≡ may_reuse seen states g in
    All-both Skips Named (StartsAs seen gates) gates
      (λ g skips named.
        initial_of-append g.name states
          (map (with_state reused) (select (may_reuse seen states) gates))
        ∙ ap (first_state (initial_of g.name states))
            (initial_of-with_state g.name reused (select (may_reuse seen states) gates))
        ∙ ap (λ b. first_state (initial_of g.name states) (if b then some reused else none)) named
        ∙ ap
            (λ o. first_state o (
              if not (is_some o)
                && not g.always_rerun_on_deploy
                && not (has_paths g && is_unavailable seen)
              then some reused
              else none))
            skips
        ∙ actions_agree (is_skipped seen g) g.always_rerun_on_deploy (has_paths g)
            (is_unavailable seen))
      (skipped_state seen gates h) (selected_name (may_reuse seen states) gates h)

pub exists_own :
    (gs : List Gate) → All (λ g. has_paths g ≡ true → exists_where has_paths gs ≡ true) gs
unfolding exists_where
exists_own [] = tt
exists_own (g ∷ gs) =
    let Own : Gate → Type 0 = λ k. has_paths k ≡ true → exists_where has_paths gs ≡ true in
    (
      (λ h. ground arith),
      All-both Own Own _ gs (λ k own again h. ground (arith, own h)) (exists_own gs)
          (exists_own gs),
    )

exists_where-select :
    (p : Gate → Bool) (gs : List Gate)
    → exists_where has_paths (select p gs) ≡ true
    → exists_where has_paths gs ≡ true
unfolding exists_where select
exists_where-select p [] h = h
exists_where-select p (g ∷ gs) h = ground (arith, exists_where-select p gs)

-- A gate without paths is treated in one way, whatever changed.
unscoped_action :
    (seen other : Changed) (g : Gate)
    → has_paths g ≡ false
    → eligible_action seen g ≡ eligible_action other g
unscoped_action seen other g h = rw h refl

pub same_action :
    (diffs : Diffs) (base sha : String) (gates : List Gate) (p : Gate → Bool) (g : Gate)
    → (has_paths g ≡ true → exists_where has_paths (select p gates) ≡ true)
    → eligible_action (selected_paths diffs base sha (select p gates)) g
      ≡ eligible_action (decision_paths diffs base sha gates) g
unfolding selected_paths decision_paths
same_action diffs base sha gates p g own = elim (Bool-cases (has_paths g)) [
  | inl scoped ↦ rw (own scoped, exists_where-select p gates (own scoped)) refl
  | inr all ↦ unscoped_action _ _ g all
]

All-map :
    (P : Gate × Action × Reason → Type 0) (f : Gate → Gate × Action × Reason) (gs : List Gate)
    → All (λ g. P (f g)) gs
    → All P (map f gs)
All-map P f [] h = tt
All-map P f (g ∷ gs) h = (h.0, All-map P f gs h.1)

-- For a decision that is eligible, on gates that the loader accepts, the deploy does with each gate
-- what the plan of the preview says: it starts with the gate skipped, or reused, or to be run.
pub reuse_gate_plan-reused_states :
    (diffs : Diffs) (max_workers : ℕ) (others : List String) (gates : List Gate)
    (repeats : String → Bool) (enabled authorized : Bool) (base sha : String)
    → is_loadable max_workers others gates ≡ true
    → All
        (λ entry.
          initial_of entry.0.name (
            reused_states
              (selected_paths diffs base sha (effective_gates repeats gates))
              (effective_gates repeats gates))
          ≡ state_of_action entry.1)
        (configured (
          reuse_gate_plan enabled
            (some (record {
              authorized = authorized;
              eligible = true;
              paths = decision_paths diffs base sha gates;
            }))
            (effective_gates repeats gates)))
unfolding reuse_gate_plan is_loadable effective_gates
reuse_gate_plan-reused_states diffs max_workers others gates repeats enabled authorized base sha h =
    let plan : List Gate = effective_gates repeats gates in
    let distinct : distinct_names (names_of plan) ≡ true =
      distinct_names-select _ gates
        (distinct_names-append_left (names_of gates) others (ground arith)) in
    let seen : Changed = selected_paths diffs base sha plan in
    let Own : Gate → Type 0 = λ g. has_paths g ≡ true → exists_where has_paths plan ≡ true in
    All-map _ _ plan (
      All-both (StartsAs seen plan) Own _ plan
        (λ g starts own.
          starts ∙ ap (λ a. state_of_action a.0) (same_action diffs base sha gates _ g own))
        (starting_states seen plan distinct) (exists_own plan))
