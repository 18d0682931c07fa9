-- ===== src/Gates/Plan/Outcomes.antt =====
-- What the waves of a plan are, and what a plan that finished has done.
use mergetrain.Prelude.{
  ℕ, suc, zero, ◌+◌, ◌≤◌, true, some, List, [], ◌∷◌, ◌++◌, String, text_column, nat_column, ltb,
  length, ◌≡◌, inl, inr, Bool-cases, Option-cases, arith, All,
}
use mergetrain.Gates.Names.{is_subset}
use mergetrain.Gates.Config.{Gate, names_of, none_of}
use mergetrain.Gates.Dependencies.{Waits, waits_of, gate_dependencies}
use mergetrain.Gates.Plan.{
  World, ready, next_wave, without, wave_error, waves, Initial, settled, unsettled,
  run_configured_plan,
}
use mergetrain.Gates.Plan.Waves.{select-holds, next_wave-All}
use mergetrain.Gates.Plan.{fill, candidates}

-- The workers that a wave uses
abbrev pub total_workers : List Gate → ℕ
total_workers [] = 0
total_workers (g ∷ gs) = g.workers + total_workers gs

fill-bound :
    (max_workers used : ℕ) (gs : List Gate)
    → used ≤ max_workers
    → used + total_workers (fill max_workers used gs) ≤ max_workers
unfolding fill
fill-bound max_workers used [] h = omega arith
fill-bound max_workers used (g ∷ gs) h = elim (Bool-cases (ltb max_workers (used + g.workers))) [
  | inl over ↦ rw (fill, over) (fill-bound max_workers used gs h)
  | inr fits ↦
      let within : used + g.workers ≤ max_workers = ground arith in
      rw (fill, fits) (omega (arith, fill-bound max_workers (used + g.workers) gs within))
]

next_wave-bound :
    (max_workers : ℕ) (gs : List Gate) {name : String} {selected : List Gate}
    → next_wave max_workers gs ≡ some (name, selected)
    → total_workers selected ≤ max_workers
unfolding next_wave
next_wave-bound max_workers [] e = absurd (ground arith)
next_wave-bound max_workers (g ∷ gs) {name} {selected} e =
    let at : selected ≡ fill max_workers 0 (candidates g (g ∷ gs)) = ground arith in
    rw at (omega (arith, fill-bound max_workers 0 (candidates g (g ∷ gs))))

-- Every wave starts gates whose dependencies are completed, and is within the ceiling.
abbrev pub IsOrdered : Waits → ℕ → List String → List (List Gate) → Type 0
IsOrdered ws max_workers completed [] = Unit
IsOrdered ws max_workers completed (wave ∷ more) =
    (total_workers wave ≤ max_workers)
    × All (λ g. is_subset (waits_of ws g.name) completed ≡ true) wave
    × IsOrdered ws max_workers (completed ++ names_of wave) more

waves-IsOrdered :
    (fuel : ℕ) (world : World) (max_workers : ℕ) (gates : List Gate) (completed : List String)
    (pending : List Gate)
    → IsOrdered
        (gate_dependencies gates)
        max_workers
        completed
        (waves fuel world max_workers gates completed pending).waves
unfolding waves
waves-IsOrdered fuel world max_workers gates completed [] = tt
waves-IsOrdered zero world max_workers gates completed (p ∷ ps) = tt
waves-IsOrdered (suc fuel) world max_workers gates completed (p ∷ ps) =
    let gs : List Gate = ready (gate_dependencies gates) completed (p ∷ ps) in
    elim (Option-cases (next_wave max_workers gs)) [
      | inl stuck ↦ rw (waves, stuck) tt
      | inr ((name, selected), e) ↦
          let bound = next_wave-bound max_workers gs e in
          let able =
            next_wave-All
              (λ g. is_subset (waits_of (gate_dependencies gates) g.name) completed ≡ true)
              max_workers gs (select-holds _ (p ∷ ps)) e in
          elim (Bool-cases (none_of selected)) [
            | inl empty ↦ rw (waves, e, empty) tt
            | inr some_gate ↦ elim (Option-cases (wave_error world selected)) [
              | inr (verdict, stopped) ↦ rw (waves, e, some_gate, stopped) (bound, able, tt)
              | inl goes ↦
                  rw (waves, e, some_gate, goes)
                    (
                      bound,
                      able,
                      waves-IsOrdered fuel world max_workers gates (completed ++ names_of selected)
                          (without selected (p ∷ ps)),
                    )
            ]
          ]
    ]

-- Whatever the commands answer, each wave of a plan uses at most the configured
-- workers, and starts only gates whose dependencies were settled at the start or are in an earlier wave.
pub run_configured_plan-IsOrdered :
    (world : World) (max_workers : ℕ) (gates : List Gate) (initial : Initial)
    → IsOrdered
        (gate_dependencies gates)
        max_workers
        ("diff-check" ∷ names_of (settled initial gates))
        (run_configured_plan world max_workers gates initial).waves
unfolding run_configured_plan
run_configured_plan-IsOrdered world max_workers gates initial =
    waves-IsOrdered (length gates) world max_workers gates
      ("diff-check" ∷ names_of (settled initial gates)) (unsettled initial gates)
