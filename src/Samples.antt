-- ===== src/Samples.antt =====
-- Concrete queues for the examples.
use mergetrain.Prelude.{ℕ, false, true, none, some, [], ◌∷◌, String}
use mergetrain.Model.{
  Job, RunnerLock, Liveness, alive, dead, Status, queued, in_progress, no_marker, no_approval,
  Marker, recover, started,
}
use mergetrain.Store.{Store, Env, granted}
use mergetrain.Recovery.{PendingPush}
use mergetrain.Jobs.Enqueue.{fresh_job, Submission}

abbrev pub noon : Env
noon = record {
  now = 43200;
  owner_liveness = λ _. dead;
  uuid = "t2";
  default_owner = "me:7";
  begin = granted;
  commit = granted;
}

abbrev pub noon_alive : Env
noon_alive = record noon { owner_liveness = λ _. alive }

abbrev pub noon_unknown : Env
noon_unknown = record noon { owner_liveness = λ _. Liveness.unknown }

abbrev pub old_lock : RunnerLock
old_lock = record {
  owner = "them:3";
  worktree_path = "/w";
  head_sha = "h";
  acquired_at = some 100;
  heartbeat_at = some 100;
  expires_at = some 1900;
  token = "t1";
}

abbrev pub pushed : Marker
pushed = record no_marker { pending_deploy_sha = "d1" }

abbrev pub job : ℕ → String → Status → Job
job k branch status = record (fresh_job noon k) {
  task = "fix";
  branch = branch;
  status = status;
  queue_order = k;
}

abbrev pub claimed_job : ℕ → String → Job
claimed_job k branch = record (job k branch in_progress) { claim_token = "t1" }

-- A stopped runner's claims: a clean one, a pushed one and a canceled one; and a queued job.
abbrev pub stranded : Store
stranded = record {
  jobs =
      claimed_job 1 "a"
      ∷ record (claimed_job 2 "b") { marker = pushed }
      ∷ record (claimed_job 3 "c") { cancel_requested_at = some 200 }
      ∷ job 4 "d" queued
      ∷ [];
  next_id = 5;
  lock = some old_lock;
  events = [];
  next_event_id = 1;
  operations = [];
  next_operation_id = 1;
}

abbrev pub submission : Submission
submission = record {
  task = " fix  it ";
  branch = "e ";
  worktree_path = "/w";
  base_sha = "b";
  head_sha = "h";
  note = "";
  allow_duplicate = false;
  approval = no_approval;
}

abbrev pub empty : Store
empty = record stranded { jobs = []; next_id = 1; lock = none }

abbrev pub push : PendingPush
push = record {
  deploy_sha = "d9";
  claim_token = "t1";
  remote = "origin";
  push_refs = "main" ∷ [];
  destination_sha = "q1";
  deployment_id = "";
  verification_policy_sha = "";
}

abbrev pub started_ledger : Store
started_ledger = record empty {
  operations =
      record {
        id = 1;
        invocation_id = "i1";
        operation = recover;
        state = started;
        applied = true;
        detail = "";
        created_at = some 100;
      }
      ∷ [];
  next_operation_id = 2;
}
