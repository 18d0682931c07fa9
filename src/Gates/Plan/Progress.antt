-- ===== src/Gates/Plan/Progress.antt =====
-- A plan that the loader accepts makes progress until its gates or the monitor stop it.
use mergetrain.Prelude.{
  ℕ, suc, zero, ◌≤◌, Bool, true, false, not, Option, none, some, List, [], ◌∷◌, ◌++◌, String,
  text_column, nat_column, leb, select, is_some, first, length, ◌≡◌, inl, inr, refl, subst,
  Bool-cases, Option-cases, arith, All,
}
use mergetrain.Gates.Names.{
  has_name, is_subset, Within, has_name-append, is_subset-Within, Within-append_left, Within-trans,
  Within-join,
}
use mergetrain.Gates.Config.{
  Gate, names_of, none_of, effective_gates, gates_checked, is_loadable, closed_after,
}
use mergetrain.Gates.Dependencies.{waits_of, gate_dependencies}
use mergetrain.Gates.Dependencies.Earlier.{
  Known, waiting_names, gates_checked-Known, effective_gates-Known,
}
use mergetrain.Gates.Dependencies.Resolved.{
  gate_dependencies-names, gate_dependencies-Earlier, waits_of-Within, completed_or_Waiting,
}
use mergetrain.Gates.Plan.{
  World, ready, without, wave_error, waves, Verdict, finished, no_progress, exceeds_ceiling,
  monitor_error, gate_failed, gate_canceled, exhausted, or_else, is_failed, is_canceled, Initial,
  initial_of, settled, unsettled, run_configured_plan,
}
use mergetrain.Gates.Plan.Waves.{
  select-All, length-select, next_wave-All, next_wave-some, next_wave-nonempty, without-shorter,
  without-name, own_names,
}

-- The plan ended, or a gate or the monitor stopped it.
abbrev pub IsAnswer : Verdict → Type 0
IsAnswer finished = Unit
IsAnswer no_progress = ⊥
IsAnswer (exceeds_ceiling name) = ⊥
IsAnswer monitor_error = Unit
IsAnswer (gate_failed name) = Unit
IsAnswer (gate_canceled name) = Unit
IsAnswer exhausted = ⊥

abbrev Fits : ℕ → Gate → Type 0
Fits max_workers g = leb g.workers max_workers ≡ true

-- A gate of the plan is pending or completed.
abbrev Accounted : List Gate → List String → List Gate → Type 0
Accounted gates completed pending =
    (n : String)
    → has_name n (names_of gates) ≡ true
    → has_name n completed ≡ false
    → has_name n (names_of pending) ≡ true

abbrev pub OnSome : (Verdict → Type 0) → Option Verdict → Type 0
OnSome P none = Unit
OnSome P (some verdict) = P verdict

or_else-OnSome :
    (P : Verdict → Type 0) (o : Option Gate) (verdict : String → Verdict) (rest : Option Verdict)
    → ((n : String) → P (verdict n))
    → OnSome P rest
    → OnSome P (or_else o verdict rest)
or_else-OnSome P none verdict rest h k = k
or_else-OnSome P (some g) verdict rest h k = h g.name

-- What a wave may raise
pub wave_error-OnSome :
    (P : Verdict → Type 0) (world : World) (selected : List Gate)
    → P monitor_error
    → ((n : String) → P (gate_failed n))
    → ((n : String) → P (gate_canceled n))
    → OnSome P (wave_error world selected)
unfolding wave_error
wave_error-OnSome P world selected m f c = elim (Bool-cases (world.stopped (names_of selected))) [
  | inl stopped ↦ rw stopped m
  | inr runs ↦
      let failure = first (λ g. is_failed (world.ended g.name)) selected in
      let cancellation = first (λ g. is_canceled (world.ended g.name)) selected in
      rw runs (
        or_else-OnSome P failure gate_failed (or_else cancellation gate_canceled none) f
          (or_else-OnSome P cancellation gate_canceled none c tt))
]

module _ (gates : List Gate) (known : Known ("diff-check" ∷ []) gates) where
  -- Some pending gate is ready.
  ready_pending :
      (completed : List String) (p : Gate) (ps : List Gate)
      → Within ("diff-check" ∷ []) completed
      → Accounted gates completed (p ∷ ps)
      → (n : String) × (has_name n (names_of (p ∷ ps)) ≡ true)
        × (is_subset (waits_of (gate_dependencies gates) n) completed ≡ true)
  ready_pending completed p ps w accounted =
      let earlier = gate_dependencies-Earlier gates known in
      elim (completed_or_Waiting ("diff-check" ∷ []) (gate_dependencies gates) completed earlier
        w) [
          | inl all ↦ (
            p.name,
            (own_names (p ∷ ps)).0,
            is_subset-Within _ completed (
                Within-trans _ ("diff-check" ∷ waiting_names (gate_dependencies gates)) completed
                  (waits_of-Within ("diff-check" ∷ []) (gate_dependencies gates) p.name earlier)
                  (Within-join ("diff-check" ∷ []) (waiting_names (gate_dependencies gates))
                    completed w all)),
          )
          | inr waiting ↦
              let listed : has_name waiting.name (names_of gates) ≡ true =
                subst (λ ns. has_name waiting.name ns ≡ true) (gate_dependencies-names gates)
                  waiting.listed in
              (
                waiting.name,
                accounted waiting.name listed waiting.undone,
                is_subset-Within _ completed waiting.able,
              )
        ]

  Accounted-after :
      (completed : List String) (pending selected : List Gate)
      → Accounted gates completed pending
      → Accounted gates (completed ++ names_of selected) (without selected pending)
  Accounted-after completed pending selected accounted n listed undone =
      let (a, b) = split n undone in without-name selected n pending b (accounted n listed a)
    where
      split :
          (n : String)
          → has_name n (completed ++ names_of selected) ≡ false
          → (has_name n completed ≡ false) × (has_name n (names_of selected) ≡ false)
      split n h = ground (arith, has_name-append n completed (names_of selected))

  waves-IsAnswer :
      (fuel : ℕ) (world : World) (max_workers : ℕ) (completed : List String) (pending : List Gate)
      → length pending ≤ fuel
      → Within ("diff-check" ∷ []) completed
      → Accounted gates completed pending
      → All (Fits max_workers) pending
      → IsAnswer (waves fuel world max_workers gates completed pending).verdict
  unfolding waves
  waves-IsAnswer fuel world max_workers completed [] h w accounted fits = tt
  waves-IsAnswer zero world max_workers completed (p ∷ ps) h w accounted fits = absurd (omega arith)
  waves-IsAnswer (suc fuel) world max_workers completed (p ∷ ps) h w accounted fits =
      let (n, listed, able) = ready_pending completed p ps w accounted in
      let (name, selected, e) =
        next_wave-some (gate_dependencies gates) completed n (p ∷ ps) max_workers listed able in
      let gs : List Gate = ready (gate_dependencies gates) completed (p ∷ ps) in
      let fitting : All (Fits max_workers) gs = select-All (Fits max_workers) _ (p ∷ ps) fits in
      let some_gate : none_of selected ≡ false = next_wave-nonempty max_workers gs fitting e in
      let listed_gates : All (λ g. has_name g.name (names_of (p ∷ ps)) ≡ true) selected =
        next_wave-All (λ g. has_name g.name (names_of (p ∷ ps)) ≡ true) max_workers gs
          (select-All (λ g. has_name g.name (names_of (p ∷ ps)) ≡ true) _ (p ∷ ps)
            (own_names (p ∷ ps)))
          e in
      elim (Option-cases (wave_error world selected)) [
        | inr (verdict, stopped) ↦
            rw (waves, e, some_gate, stopped)
              (subst (OnSome IsAnswer) stopped
                (wave_error-OnSome IsAnswer world selected tt (λ n. tt) (λ n. tt)))
        | inl goes ↦
            rw (waves, e, some_gate, goes)
              (waves-IsAnswer fuel world max_workers (completed ++ names_of selected)
                (without selected (p ∷ ps))
                (omega (arith, h, without-shorter selected (p ∷ ps) some_gate listed_gates))
                (Within-trans ("diff-check" ∷ []) completed (completed ++ names_of selected) w
                  (Within-append_left completed (names_of selected)))
                (Accounted-after completed (p ∷ ps) selected accounted)
                (select-All (Fits max_workers) _ (p ∷ ps) fits))
      ]

gates_checked-Fits :
    (max_workers : ℕ) (configured closed : List String) (current : String) (gates : List Gate)
    → gates_checked max_workers configured closed current gates ≡ true
    → All (Fits max_workers) gates
unfolding gates_checked
gates_checked-Fits max_workers configured closed current [] h = tt
gates_checked-Fits max_workers configured closed current (g ∷ gs) h = (
  ground arith,
  gates_checked-Fits max_workers (configured ++ g.name ∷ []) (closed_after current g closed)
      g.parallel_group gs (ground arith),
)

kept_or_dropped :
    (p : Gate → Bool) (n : String) (gates : List Gate)
    → has_name n (names_of gates) ≡ true
    → has_name n (names_of (select p gates)) ≡ false
    → has_name n (names_of (select (λ g. not (p g)) gates)) ≡ true
unfolding select has_name
kept_or_dropped p n [] h miss = h
kept_or_dropped p n (g ∷ gs) h miss = ground (arith, kept_or_dropped p n gs)

initially-Accounted :
    (initial : Initial) (gates : List Gate)
    → Accounted gates ("diff-check" ∷ names_of (settled initial gates)) (unsettled initial gates)
unfolding settled unsettled has_name
initially-Accounted initial gates n h miss =
    kept_or_dropped (λ g. is_some (initial_of g.name initial)) n gates h (ground arith)

effective-Fits :
    (repeats : String → Bool) (max_workers : ℕ) (gates : List Gate)
    → All (Fits max_workers) gates
    → All (Fits max_workers) (effective_gates repeats gates)
unfolding effective_gates
effective-Fits repeats max_workers gates h = select-All (Fits max_workers) _ gates h

-- On gates that the loader accepts, the plan never finds its dependencies stuck or a gate above the
-- worker ceiling, and needs no more waves than it has gates: it ends with every gate done, or with
-- the failure or the cancellation of a gate, or with the error of the monitor.
pub run_configured_plan-IsAnswer :
    (world : World) (max_workers : ℕ) (others : List String) (gates : List Gate)
    (repeats : String → Bool) (initial : Initial)
    → is_loadable max_workers others gates ≡ true
    → IsAnswer
        (run_configured_plan world max_workers (effective_gates repeats gates) initial).verdict
unfolding run_configured_plan is_loadable settled unsettled
run_configured_plan-IsAnswer world max_workers others gates repeats initial h =
    let checked : gates_checked max_workers [] [] "" gates ≡ true = ground arith in
    let known =
      effective_gates-Known repeats ("diff-check" ∷ []) gates refl
        (gates_checked-Known max_workers [] [] "" gates checked) in
    let plan : List Gate = effective_gates repeats gates in
    waves-IsAnswer plan known (length plan) world max_workers
      ("diff-check" ∷ names_of (settled initial plan)) (unsettled initial plan)
      (length-select _ plan)
      (Within-append_left ("diff-check" ∷ []) (names_of (settled initial plan)))
      (initially-Accounted initial plan)
      (select-All (Fits max_workers) _ plan (
        effective-Fits repeats max_workers gates
          (gates_checked-Fits max_workers [] [] "" gates checked)))
