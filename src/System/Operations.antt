-- ===== src/System/Operations.antt =====
-- Each operation keeps the queue well formed, whatever its outcome.
use mergetrain.Prelude.{ℕ, Bool, true, false, Option, String, if◌then◌else◌}
use mergetrain.Model.{Job}
use mergetrain.Store.{
  Store, Error, Env, Outcome, ok, err, M, ◌>>=◌, ◌>>◌, return, raise, reads, modify, require,
  or_raise, immediate, update_jobs, update_counted, get_job, get_jobs, record_run_event, final,
  Keeps, Keeps-return, Keeps-raise, Keeps-reads, Keeps-or_raise, Keeps-immediate, Keeps-modify,
  Keeps-require, Keeps-bind, Keeps-get_job, Keeps-get_jobs, Keeps-update_counted, has_status, by_id,
}
use mergetrain.System.WellFormed.{WellFormed, SafeUpdate, update_jobs-WellFormed}

abbrev pub Safe {ℓ} : {A : Type ℓ} → M A → Type 0
Safe m = Keeps WellFormed m

pub Safe-update : (p : Job → Bool) (f : Job → Job) → SafeUpdate p f → Safe (update_counted p f)
Safe-update p f safe = Keeps-update_counted WellFormed p f (update_jobs-WellFormed p f safe)

pub Safe-update_if :
    (test : Bool) (p : Job → Bool) (f : Job → Job)
    → SafeUpdate p f
    → Safe (modify (λ s. if test then update_jobs p f s else s))
Safe-update_if true p f safe =
    Keeps-modify WellFormed (update_jobs p f) (update_jobs-WellFormed p f safe)
Safe-update_if false p f safe = Keeps-modify WellFormed (λ s. s) (λ s w. w)

pub record_run_event-WellFormed :
    (env : Env) (job_id : Option ℕ) (phase state token detail : String) (s : Store)
    → WellFormed s
    → WellFormed (record_run_event env job_id phase state token detail s)
unfolding record_run_event
record_run_event-WellFormed env job_id phase state token detail s w = record {
  ids = w.ids;
  distinct = w.distinct;
  unique = w.unique;
  rows = w.rows;
}

pub Safe-if {ℓ} :
    {A : Type ℓ} (test : Bool) (m n : M A) → Safe m → Safe n → Safe (if test then m else n)
Safe-if true m n h k = h
Safe-if false m n h k = k

pub ruleset statements = (
  Keeps-return, Keeps-raise, Keeps-reads, Keeps-or_raise, Keeps-immediate, Keeps-require,
  Keeps-bind, Keeps-get_job, Keeps-get_jobs, Safe-update, Safe-update_if, Safe-if,
)
