-- ===== src/Reuse/Identity.antt =====
-- What identifies a validation: the train, the gate policy, the environment and the age
-- (src/mergetrain/reuse.py, environment_fingerprint of src/mergetrain/gate_runner.py and
-- identity_fields of src/mergetrain/validation_reuse.py). SHA-256 of the JSON is a parameter.
use mergetrain.Prelude.{
  ℕ, suc, ◌*◌, ◌-◌, Bool, false, not, ◌&&◌, Option, none, some, List, [], ◌∷◌, String, nonempty,
  if◌then◌else◌, length, leb, map, strip,
}
use mergetrain.Quoting.Render.{has_char}
use mergetrain.Model.{Job, Stamp}
use mergetrain.Gates.Config.{Gate}

-- A member of `members`
pub record Member : Type 0 where
  pub job_id : ℕ
  pub task : String
  pub branch : String
  pub validated_head_sha : String

-- What train_identity_sha hashes
pub record TrainIdentity : Type 0 where
  pub train_id : String
  pub train_size : ℕ
  pub members : List Member

-- A command that prints one line about the environment
pub record Fingerprint : Type 0 where
  pub name : String
  pub run : String

-- What gate_policy_sha hashes; the gates are the effective ones.
pub record GatePolicy : Type 0 where
  pub project : String
  pub integration_ref : String
  pub default_command_timeout_seconds : Option ℕ
  pub max_workers : ℕ
  pub timeout_seconds : Option ℕ
  pub gates : List Gate
  pub environment_fingerprints : List Fingerprint

-- `_sha256_json` of the three kinds of values
pub record Hashes : Type 0 where
  pub train : TrainIdentity → String
  pub policy : GatePolicy → String
  pub environment : List (String × String) → String

abbrev pub member : (Job → String) → Job → Member
member head job = record {
  job_id = job.id;
  task = job.task;
  branch = job.branch;
  validated_head_sha = head job;
}

-- train_identity_sha with all of its arguments
unfoldable pub validated_identity : List Job → String → (ℕ → String) → TrainIdentity
validated_identity jobs train_id validated_heads = record {
  train_id = train_id;
  train_size = length jobs;
  members = map (member (λ job. validated_heads job.id)) jobs;
}

-- train_identity_sha of the rows alone; `none` where there are none.
abbrev pub first_train_id : List Job → String
first_train_id [] = ""
first_train_id (job ∷ jobs) = job.train_id

abbrev pub first_train_size : List Job → ℕ
first_train_size [] = 0
first_train_size (job ∷ jobs) = job.train_size

unfoldable pub current_identity : List Job → TrainIdentity
current_identity jobs = record {
  train_id = first_train_id jobs;
  train_size = first_train_size jobs;
  members = map (member (λ job. job.validated_head_sha)) jobs;
}

-- How the command of a fingerprint ends: `busy` is QueueBusy, `failed` another error of mergetrain.
pub data FingerprintRun : Type 0 where
  printed : String → FingerprintRun
  failed busy : FingerprintRun

unfoldable pub text_length : String → ℕ
text_length String.[] = 0
text_length (String.◌∷◌ c s) = suc (text_length s)

unfoldable pub is_fingerprint : String → Bool
unfolding text_length has_char
is_fingerprint value = nonempty value && not (has_char 10 value) && leb (text_length value) 512

-- The values of the fingerprints
pub data Environment : Type 0 where
  values : List (String × String) → Environment
  unavailable busy : Environment

abbrev pub and_value : String → String → Environment → Environment
and_value name value (values more) = values ((name, value) ∷ more)
and_value name value unavailable = unavailable
and_value name value Environment.busy = Environment.busy

-- environment_fingerprint, before the hash; a fingerprint is run when those before it are valid.
unfoldable pub environment_values : (String → FingerprintRun) → List Fingerprint → Environment
unfolding is_fingerprint strip
environment_values run [] = values []
environment_values run (f ∷ fs) = elim (run f.run) [
  | printed output ↦
      if is_fingerprint (strip output)
      then and_value f.name (strip output) (environment_values run fs)
      else unavailable
  | failed ↦ unavailable
  | FingerprintRun.busy ↦ Environment.busy
]

-- validation_age_minutes is at most the maximum, with stamps in seconds; no age is infinite.
unfoldable pub is_young : ℕ → Stamp → ℕ → Bool
is_young now none max_age_minutes = false
is_young now (some validated_at) max_age_minutes =
    leb validated_at now && leb (now - validated_at) (max_age_minutes * 60)
