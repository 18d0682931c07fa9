-- ===== src/Gates/Plan/Finished.antt =====
-- What a plan that finished has done.
use mergetrain.Prelude.{
  ℕ, suc, zero, Bool, true, false, not, ◌||◌, Option, none, some, List, [], ◌∷◌, ◌++◌, String, ◌==◌,
  text_column, nat_column, if◌then◌else◌, select, first, length, ◌≡◌, inl, inr, refl, sym, ◌∙◌,
  subst, Bool-cases, Option-cases, arith, All,
}
use mergetrain.Gates.Names.{has_name, has_name-append}
use mergetrain.Gates.Config.{Gate, names_of, none_of}
use mergetrain.Gates.Dependencies.{gate_dependencies}
use mergetrain.Gates.Plan.{
  World, ready, next_wave, without, wave_error, waves, Verdict, finished, gate_failed,
  gate_canceled, Trace, wave_then, or_else, is_failed, is_canceled, Initial, settled, unsettled,
  run_configured_plan,
}
use mergetrain.Gates.Dependencies.Earlier.{concat}
use mergetrain.Gates.Plan.{Ended, passed, canceled, failed}
use mergetrain.Prelude.{text_eq_iff, ◌≢◌}
use mergetrain.Gates.Plan.Progress.{OnSome, wave_error-OnSome}
use mergetrain.Gates.Dependencies.Resolved.{names_of-append}

first-none : (p : Gate → Bool) (gs : List Gate) → first p gs ≡ none → All (λ g. p g ≡ false) gs
unfolding first
first-none p [] h = tt
first-none p (g ∷ gs) h = (ground arith, first-none p gs (ground arith))

or_else-none :
    (o : Option Gate) (verdict : String → Verdict) (rest : Option Verdict)
    → or_else o verdict rest ≡ none
    → (o ≡ none) × (rest ≡ none)
or_else-none none verdict rest h = (refl, h)
or_else-none (some g) verdict rest h = absurd (ground arith)

passed_otherwise : (e : Ended) → is_failed e ≡ false → is_canceled e ≡ false → e ≡ passed
passed_otherwise passed f c = refl
passed_otherwise canceled f c = absurd (ground arith)
passed_otherwise failed f c = absurd (ground arith)

All-passed :
    (world : World) (gs : List Gate)
    → All (λ g. is_failed (world.ended g.name) ≡ false) gs
    → All (λ g. is_canceled (world.ended g.name) ≡ false) gs
    → All (λ g. world.ended g.name ≡ passed) gs
All-passed world [] f c = tt
All-passed world (g ∷ gs) f c =
    (passed_otherwise (world.ended g.name) f.0 c.0, All-passed world gs f.1 c.1)

-- A wave that raised nothing
quiet_wave :
    (world : World) (selected : List Gate)
    → wave_error world selected ≡ none
    → All (λ g. world.ended g.name ≡ passed) selected
unfolding wave_error
quiet_wave world selected h =
    let failure = first (λ g. is_failed (world.ended g.name)) selected in
    let cancellation = first (λ g. is_canceled (world.ended g.name)) selected in
    let runs : or_else failure gate_failed (or_else cancellation gate_canceled none) ≡ none =
      ground arith in
    let (f, rest) =
      or_else-none failure gate_failed (or_else cancellation gate_canceled none) runs in
    let (c, done) = or_else-none cancellation gate_canceled none rest in
    All-passed world selected (first-none _ selected f) (first-none _ selected c)

-- The gate was run, in one of the waves, and passed.
abbrev pub Passes : World → List (List Gate) → Gate → Type 0
Passes world ws g = (world.ended g.name ≡ passed) × (has_name g.name (names_of (concat ws)) ≡ true)

named_passed :
    (world : World) (n : String) (gs : List Gate)
    → has_name n (names_of gs) ≡ true
    → All (λ g. world.ended g.name ≡ passed) gs
    → world.ended n ≡ passed
unfolding has_name
named_passed world n [] h all = absurd (ground arith)
named_passed world n (g ∷ gs) h all = elim (Bool-cases (g.name == n)) [
  | inl same ↦ subst (λ m. world.ended m ≡ passed) ((text_eq_iff g.name n).0 same) all.0
  | inr other ↦ named_passed world n gs (ground arith) all.1
]

-- What holds of the gates of a wave and of those that are left holds of all.
All-without :
    (P : Gate → Type 0) (selected pending : List Gate)
    → ((g : Gate) → has_name g.name (names_of selected) ≡ true → P g)
    → All P (without selected pending)
    → All P pending
unfolding without select
All-without P selected [] wave left = tt
All-without P selected (g ∷ gs) wave left =
    elim (Bool-cases (has_name g.name (names_of selected))) [
      | inl ran ↦
          let rest : All P (without selected gs) =
            subst (λ b. All P (if not b then g ∷ without selected gs else without selected gs)) ran
              left in
          (wave g ran, All-without P selected gs wave rest)
      | inr stays ↦
          let rest : All P (g ∷ without selected gs) =
            subst (λ b. All P (if not b then g ∷ without selected gs else without selected gs))
              stays left in
          (rest.0, All-without P selected gs wave rest.1)
    ]

in_wave :
    (n : String) (selected : List Gate) (ws : List (List Gate))
    → has_name n (names_of selected) || has_name n (names_of (concat ws)) ≡ true
    → has_name n (names_of (concat (selected ∷ ws))) ≡ true
in_wave n selected ws h =
    subst (λ ns. has_name n ns ≡ true) (sym (names_of-append selected (concat ws)))
      (has_name-append n (names_of selected) (names_of (concat ws)) ∙ h)

later_wave :
    (world : World) (selected : List Gate) (ws : List (List Gate)) (gs : List Gate)
    → All (Passes world ws) gs
    → All (Passes world (selected ∷ ws)) gs
later_wave world selected ws [] all = tt
later_wave world selected ws (g ∷ gs) all = (
  (all.0.0, in_wave g.name selected ws (ground (arith, all.0.1))),
  later_wave world selected ws gs all.1,
)

-- Where the plan finished, the pending gates passed.
abbrev Finishes : World → List Gate → Trace → Type 0
Finishes world pending trace = trace.verdict ≡ finished → All (Passes world trace.waves) pending

not_finished :
    (world : World) (selected : List Gate) → OnSome (λ v. v ≢ finished) (wave_error world selected)
not_finished world selected =
    wave_error-OnSome (λ v. v ≢ finished) world selected (λ e. cc) (λ n e. cc) (λ n e. cc)

wave_then-Finishes :
    (world : World) (gates selected pending : List Gate) (trace : Trace)
    → All (λ g. world.ended g.name ≡ passed) selected
    → Finishes world (without selected pending) trace
    → Finishes world pending (wave_then world gates selected trace)
wave_then-Finishes world gates selected pending trace all left h =
    All-without (Passes world (selected ∷ trace.waves)) selected pending
      (λ g m. (
        named_passed world g.name selected m all,
        in_wave g.name selected trace.waves (ground arith),
      ))
      (later_wave world selected trace.waves (without selected pending) (left h))

after_wave :
    (fuel : ℕ) (world : World) (max_workers : ℕ) (gates : List Gate) (completed : List String)
    (p : Gate) (ps : List Gate) (name : String) (selected : List Gate)
    → next_wave max_workers (ready (gate_dependencies gates) completed (p ∷ ps))
      ≡ some (name, selected)
    → none_of selected ≡ false
    → wave_error world selected ≡ none
    → waves (suc fuel) world max_workers gates completed (p ∷ ps)
      ≡ wave_then world gates selected (
          waves fuel world max_workers gates
            (completed ++ names_of selected)
            (without selected (p ∷ ps)))
unfolding waves
after_wave fuel world max_workers gates completed p ps name selected e some_gate goes =
    rw (waves, e, some_gate, goes) refl

waves-Finishes :
    (fuel : ℕ) (world : World) (max_workers : ℕ) (gates : List Gate) (completed : List String)
    (pending : List Gate)
    → Finishes world pending (waves fuel world max_workers gates completed pending)
unfolding waves
waves-Finishes fuel world max_workers gates completed [] = λ h. tt
waves-Finishes zero world max_workers gates completed (p ∷ ps) = λ h. absurd (ground arith)
waves-Finishes (suc fuel) world max_workers gates completed (p ∷ ps) =
    let gs : List Gate = ready (gate_dependencies gates) completed (p ∷ ps) in
    elim (Option-cases (next_wave max_workers gs)) [
      | inl stuck ↦ rw (waves, stuck) (λ h. absurd (ground arith))
      | inr ((name, selected), e) ↦ elim (Bool-cases (none_of selected)) [
        | inl empty ↦ rw (waves, e, empty) (λ h. absurd (ground arith))
        | inr some_gate ↦ elim (Option-cases (wave_error world selected)) [
          | inr (verdict, stopped) ↦
              rw (waves, e, some_gate, stopped)
                (λ h.
                  absurd
                    (subst (OnSome (λ v. v ≢ finished)) stopped (not_finished world selected) h))
          | inl goes ↦
              subst (Finishes world (p ∷ ps))
                (sym (
                  after_wave fuel world max_workers gates completed p ps name selected e some_gate
                    goes))
                (wave_then-Finishes world gates selected (p ∷ ps)
                  (waves fuel world max_workers gates (completed ++ names_of selected)
                    (without selected (p ∷ ps)))
                  (quiet_wave world selected goes)
                  (waves-Finishes fuel world max_workers gates (completed ++ names_of selected)
                    (without selected (p ∷ ps))))
        ]
      ]
    ]

-- A plan that finished ran every gate that had no initial state, and each of them passed.
pub run_configured_plan-Passes :
    (world : World) (max_workers : ℕ) (gates : List Gate) (initial : Initial)
    → (run_configured_plan world max_workers gates initial).verdict ≡ finished
    → All
        (Passes world (run_configured_plan world max_workers gates initial).waves)
        (unsettled initial gates)
unfolding run_configured_plan
run_configured_plan-Passes world max_workers gates initial =
    waves-Finishes (length gates) world max_workers gates
      ("diff-check" ∷ names_of (settled initial gates)) (unsettled initial gates)
