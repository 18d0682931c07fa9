-- ===== src/Gates/Dependencies.antt =====
-- gate_dependencies of src/mergetrain/gate_runner.py: a gate that names no needs waits for the stage
-- before its own.
pub mod Earlier
pub mod Resolved
use mergetrain.Prelude.{
  ℕ, Bool, true, false, ◌&&◌, ◌||◌, List, [], ◌∷◌, ◌++◌, String, ◌==◌, text_column, nonempty, map,
  if◌then◌else◌,
}
use mergetrain.Gates.Config.{Gate, names_of}

-- The group of `stages[-1][0]`
abbrev pub joins : Gate → List Gate → Bool
joins gate [] = false
joins gate (g ∷ gs) = nonempty gate.parallel_group && g.parallel_group == gate.parallel_group

unfoldable pub add_to_stages : Gate → List (List Gate) → List (List Gate)
add_to_stages gate [] = (gate ∷ []) ∷ []
add_to_stages gate (stage ∷ []) =
    if joins gate stage then (stage ++ gate ∷ []) ∷ [] else stage ∷ (gate ∷ []) ∷ []
add_to_stages gate (stage ∷ (next ∷ more)) = stage ∷ add_to_stages gate (next ∷ more)

unfoldable pub stages_from : List (List Gate) → List Gate → List (List Gate)
unfolding add_to_stages
stages_from stages [] = stages
stages_from stages (gate ∷ gates) = stages_from (add_to_stages gate stages) gates

-- `gate.needs or prior_names`
abbrev pub waits_for : List String → List String → List String
waits_for [] prior = prior
waits_for (n ∷ ns) prior = n ∷ ns

abbrev pub Waits : Type 0
Waits = List (String × List String)

unfoldable pub stage_waits : List String → List Gate → Waits
stage_waits prior [] = []
stage_waits prior (gate ∷ gates) = (gate.name, waits_for gate.needs prior) ∷ stage_waits prior gates

unfoldable pub waits_from : List String → List (List Gate) → Waits
unfolding stage_waits
waits_from prior [] = []
waits_from prior (stage ∷ stages) = stage_waits prior stage ++ waits_from (names_of stage) stages

unfoldable pub gate_dependencies : List Gate → Waits
unfolding stages_from waits_from
gate_dependencies gates = waits_from ("diff-check" ∷ []) (stages_from [] gates)

-- `dependencies[name]`; the names are distinct.
unfoldable pub waits_of : Waits → String → List String
waits_of [] name = []
waits_of ((n, waits) ∷ more) name = if n == name then waits else waits_of more name
