-- ===== src/Gates/Config.antt =====
-- A gate, and what the loader checks of the gates (src/mergetrain/config.py: GateConfig,
-- effective_gates and the end of the loader).
use mergetrain.Prelude.{
  ℕ, Bool, true, false, not, ◌&&◌, ◌||◌, Option, List, [], ◌∷◌, ◌++◌, String, ◌==◌, text_column,
  nat_column, leb, nonempty, map, if◌then◌else◌, select, is_some,
}
use mergetrain.Gates.Names.{has_name}

pub record Gate : Type 0 where
  pub name : String
  pub run : String
  pub always_rerun_on_deploy : Bool
  pub paths : List String
  pub parallel_group : String
  pub needs : List String
  pub workers : ℕ
  pub timeout_seconds : Option ℕ

abbrev pub name_of : Gate → String
name_of gate = gate.name

abbrev pub names_of : List Gate → List String
names_of gates = map name_of gates

abbrev pub none_of {ℓ} : {A : Type ℓ} → List A → Bool
none_of [] = true
none_of (x ∷ xs) = false

-- is_redundant_builtin_diff_check; `repeats` says that the commands split into the same words, which
-- is shlex's.
unfoldable pub is_redundant : (String → Bool) → Gate → Bool
is_redundant repeats gate =
    gate.name == "diff-check"
    && not gate.always_rerun_on_deploy
    && none_of gate.paths
    && not (nonempty gate.parallel_group)
    && none_of gate.needs
    && gate.workers == 1
    && not (is_some gate.timeout_seconds)
    && repeats gate.run

unfoldable pub effective_gates : (String → Bool) → List Gate → List Gate
unfolding is_redundant
effective_gates repeats gates = select (λ g. not (is_redundant repeats g)) gates

unfoldable pub distinct_names : List String → Bool
unfolding has_name
distinct_names [] = true
distinct_names (n ∷ ns) = not (has_name n ns) && distinct_names ns

-- `dependency != "diff-check" and dependency not in configured_names`, for every dependency
unfoldable pub needs_known : List String → List String → Bool
unfolding has_name
needs_known configured [] = true
needs_known configured (n ∷ ns) =
    (n == "diff-check" || has_name n configured) && needs_known configured ns

-- `closed_groups`, where the group changes
abbrev pub closed_after : String → Gate → List String → List String
closed_after current gate closed =
    if not (gate.parallel_group == current) && nonempty current then current ∷ closed else closed

-- The loop over the gates, with the names and the closed groups before each, and the current group.
unfoldable pub gates_checked : ℕ → List String → List String → String → List Gate → Bool
unfolding needs_known has_name
gates_checked max_workers configured closed current [] = true
gates_checked max_workers configured closed current (g ∷ gs) =
    let moved = not (g.parallel_group == current) in
    let now_closed = closed_after current g closed in
    not (moved && nonempty g.parallel_group && has_name g.parallel_group now_closed)
    && needs_known configured g.needs
    && leb g.workers max_workers
    && gates_checked max_workers (configured ++ g.name ∷ []) now_closed g.parallel_group gs

-- What the loader accepts: `others` are the names of the verify hooks and fingerprints.
unfoldable pub is_loadable : ℕ → List String → List Gate → Bool
unfolding distinct_names gates_checked
is_loadable max_workers others gates =
    distinct_names (names_of gates ++ others) && gates_checked max_workers [] [] "" gates
