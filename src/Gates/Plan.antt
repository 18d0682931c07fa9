-- ===== src/Gates/Plan.antt =====
-- run_configured_plan of src/mergetrain/gate_runner.py: the gates in waves, each within the worker
-- ceiling. The commands, the clock and the pulse are answers of the world.
pub mod Waves
pub mod Progress
pub mod Outcomes
pub mod Finished
use mergetrain.Prelude.{
  ℕ, suc, zero, ◌+◌, Bool, true, false, not, ◌&&◌, ◌||◌, Option, none, some, List, [], ◌∷◌, ◌++◌,
  String, ◌==◌, text_column, nat_column, ltb, leb, nonempty, map, if◌then◌else◌, select, is_some,
  exists_where, first, length,
}
use mergetrain.Gates.Names.{has_name, is_subset}
use mergetrain.Gates.Config.{Gate, name_of, names_of, none_of}
use mergetrain.Gates.Dependencies.{Waits, waits_of, gate_dependencies}

-- How the command of a gate ends: CancellationRequested is a gate that was canceled.
pub data Ended : Type 0 where
  passed canceled failed : Ended

-- What the commands and the monitor answer: `stopped` is the timeout of the plan or an error of the
-- pulse while the wave with these gates runs.
pub record World : Type 0 where
  pub ended : String → Ended
  pub stopped : List String → Bool

pub data GateState : Type 0 where
  active success cancellation failure skipped reused : GateState

-- An event of on_gate, without its detail.
pub record GateEvent : Type 0 where
  pub name : String
  pub state : GateState
  pub index : ℕ

pub data Verdict : Type 0 where
  finished : Verdict
  -- the dependencies cannot make progress; the gate exceeds the ceiling
  no_progress : Verdict
  exceeds_ceiling : String → Verdict
  monitor_error : Verdict
  gate_failed gate_canceled : String → Verdict
  -- no fuel was left
  exhausted : Verdict

-- What a run of the plan did: its waves, its events and how it ended.
pub record Trace : Type 0 where
  pub waves : List (List Gate)
  pub events : List GateEvent
  pub verdict : Verdict

-- `[gate for gate in pending if set(dependencies[gate.name]).issubset(completed)]`
unfoldable pub ready : Waits → List String → List Gate → List Gate
unfolding is_subset waits_of
ready waits completed pending = select (λ g. is_subset (waits_of waits g.name) completed) pending

unfoldable pub candidates : Gate → List Gate → List Gate
candidates chosen gates =
    if nonempty chosen.parallel_group
    then select (λ g. g.parallel_group == chosen.parallel_group) gates
    else chosen ∷ []

-- The loop that fills the wave, with the workers in use.
unfoldable pub fill : ℕ → ℕ → List Gate → List Gate
fill max_workers used [] = []
fill max_workers used (g ∷ gs) = elim (ltb max_workers (used + g.workers)) [
  | true ↦ fill max_workers used gs
  | false ↦ g ∷ fill max_workers (used + g.workers) gs
]

-- The place of a gate in the plan, from the first configured one on.
unfoldable pub index_from : ℕ → String → List Gate → ℕ
index_from n name [] = n
index_from n name (g ∷ gs) =
    let later = index_from (suc n) name gs in if g.name == name then n else later

-- `terminal_state`
abbrev pub terminal : Bool → Ended → GateState
terminal stopped passed = if stopped then cancellation else success
terminal stopped canceled = cancellation
terminal stopped failed = failure

unfoldable pub gate_events : (Gate → GateState) → List Gate → List Gate → List GateEvent
unfolding index_from
gate_events state gates [] = []
gate_events state gates (g ∷ gs) =
    record { name = g.name; state = state g; index = index_from 2 g.name gates }
    ∷ gate_events state gates gs

abbrev pub is_failed : Ended → Bool
is_failed passed = false
is_failed canceled = false
is_failed failed = true

abbrev pub is_canceled : Ended → Bool
is_canceled passed = false
is_canceled canceled = true
is_canceled failed = false

abbrev pub or_else : Option Gate → (String → Verdict) → Option Verdict → Option Verdict
or_else (some g) verdict rest = some (verdict g.name)
or_else none verdict rest = rest

-- What the wave raises: the monitor's error, else the first failure, else the first cancellation.
unfoldable pub wave_error : World → List Gate → Option Verdict
wave_error world selected =
    if world.stopped (names_of selected)
    then some monitor_error
    else or_else (first (λ g. is_failed (world.ended g.name)) selected) gate_failed
        (or_else (first (λ g. is_canceled (world.ended g.name)) selected) gate_canceled none)

-- The gates that are left after a wave; names are distinct.
unfoldable pub without : List Gate → List Gate → List Gate
unfolding has_name
without selected pending = select (λ g. not (has_name g.name (names_of selected))) pending

abbrev pub stop : Verdict → Trace
stop verdict = record { waves = []; events = []; verdict = verdict }

abbrev pub wave_then : World → List Gate → List Gate → Trace → Trace
wave_then world gates selected trace = record {
  waves = selected ∷ trace.waves;
  events =
      gate_events (λ g. active) gates selected
      ++ (gate_events (λ g. terminal (world.stopped (names_of selected)) (world.ended g.name)) gates
            selected
          ++ trace.events);
  verdict = trace.verdict;
}

-- The gates of the next wave; `none` where nothing is ready.
unfoldable pub next_wave : ℕ → List Gate → Option (String × List Gate)
unfolding candidates fill
next_wave max_workers [] = none
next_wave max_workers (g ∷ gs) = some (g.name, fill max_workers 0 (candidates g (g ∷ gs)))

-- `while pending`, on fuel
unfoldable pub waves : ℕ → World → ℕ → List Gate → List String → List Gate → Trace
unfolding ready next_wave wave_error without gate_dependencies gate_events
waves fuel world max_workers gates completed [] = stop finished
waves zero world max_workers gates completed (p ∷ ps) = stop exhausted
waves (suc fuel) world max_workers gates completed (p ∷ ps) =
    elim (next_wave max_workers (ready (gate_dependencies gates) completed (p ∷ ps))) [
      | none ↦ stop no_progress
      | some (name, selected) ↦ elim (none_of selected) [
        | true ↦ stop (exceeds_ceiling name)
        | false ↦ elim (wave_error world selected) [
          | some verdict ↦ wave_then world gates selected (stop verdict)
          | none ↦ wave_then world gates selected (
              waves fuel world max_workers gates (completed ++ names_of selected)
                (without selected (p ∷ ps)))
        ]
      ]
    ]

-- A gate with an initial state is not run.
abbrev pub Initial : Type 0
Initial = List (String × GateState)

unfoldable pub initial_of : String → Initial → Option GateState
initial_of name [] = none
initial_of name ((n, state) ∷ more) =
    let rest = initial_of name more in if n == name then some state else rest

-- The names that are completed at the start, and their events.
unfoldable pub settled : Initial → List Gate → List Gate
unfolding initial_of
settled initial gates = select (λ g. is_some (initial_of g.name initial)) gates

unfoldable pub unsettled : Initial → List Gate → List Gate
unfolding initial_of
unsettled initial gates = select (λ g. not (is_some (initial_of g.name initial))) gates

abbrev settled_state : Option GateState → GateState
settled_state none = skipped
settled_state (some state) = state

abbrev pub after_events : List GateEvent → Trace → Trace
after_events events trace = record trace { events = events ++ trace.events }

-- run_configured_plan
unfoldable pub run_configured_plan : World → ℕ → List Gate → Initial → Trace
unfolding waves settled unsettled initial_of gate_events
run_configured_plan world max_workers gates initial =
    after_events
      (gate_events (λ g. settled_state (initial_of g.name initial)) gates (settled initial gates))
      (waves (length gates) world max_workers gates
        ("diff-check" ∷ names_of (settled initial gates)) (unsettled initial gates))
