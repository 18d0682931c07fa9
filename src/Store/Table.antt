-- ===== src/Store/Table.antt =====
-- The statements on the tables (src/mergetrain/persistence/jobs.py, events.py): reads and updates of
-- rows, the insertion of a job, and the append to the event log with its retention.
use mergetrain.Prelude.{
  ℕ, ◌+◌, ◌-◌, Bool, Option, List, [], ◌∷◌, ◌++◌, String, ltb, first, select, count_where,
  update_where, ◌==◌, nat_column,
}
use mergetrain.Model.{Job, Status, status_column}
use mergetrain.Store.Defs.{Store, Env, M, ok, queue_error, ◌>>=◌, reads, or_raise, return, utc_now}

abbrev pub by_id : ℕ → Job → Bool
by_id k j = j.id == k

abbrev pub has_status : Status → Job → Bool
has_status st j = j.status == st

unfoldable pub find_job : ℕ → Store → Option Job
find_job k s = first (by_id k) s.jobs

unfoldable pub with_jobs : Store → List Job → Store
with_jobs s jobs = record s { jobs = jobs }

-- UPDATE deploy_queue SET f WHERE p
abbrev pub update_jobs : (Job → Bool) → (Job → Job) → Store → Store
update_jobs p f s = record s { jobs = update_where p f s.jobs }

-- The same as a statement that answers its `rowcount`.
abbrev pub update_counted : (Job → Bool) → (Job → Job) → M ℕ
update_counted p f s = ok (count_where p s.jobs) (update_jobs p f s)

-- INSERT INTO deploy_queue: the row takes the next key, which is returned.
abbrev pub insert_job : (ℕ → Job) → M ℕ
insert_job row s =
    ok s.next_id (record s { jobs = s.jobs ++ row s.next_id ∷ []; next_id = s.next_id + 1 })

-- jobs.get_job
unfoldable pub get_job : ℕ → M Job
unfolding find_job
get_job k = do found ← reads (find_job k); or_raise queue_error found

-- [get_job(conn, job_id) for job_id in ids]
unfoldable pub get_jobs : List ℕ → M (List Job)
get_jobs [] = return []
get_jobs (k ∷ ks) = do j ← get_job k; js ← get_jobs ks; return (j ∷ js)

-- events.RUN_EVENT_RETENTION
abbrev pub run_event_retention : ℕ
run_event_retention = 5000

-- events._record_run_event: the new row has the greatest id, and the oldest rows go.
unfoldable pub record_run_event : Env → Option ℕ → String → String → String → String → Store → Store
record_run_event env job_id phase state claim_token detail s = record s {
  events =
      select (λ e. ltb (s.next_event_id - run_event_retention) e.id)
        (s.events
          ++ record {
            id = s.next_event_id;
            phase = phase;
            state = state;
            created_at = utc_now env;
            job_id = job_id;
            detail = detail;
            claim_token = claim_token;
          }
            ∷ []);
  next_event_id = s.next_event_id + 1;
}
