-- ===== src/Lib.antt =====
-- The queue of mergetrain: a SQLite database of merge jobs, shared by the processes that submit
-- jobs, run them, cancel them and recover from a runner that stopped.
--
-- Parts and files (paths from the repository's root):
--   Prelude      what the parts share: tests on values, tables of rows and their laws, and the
--                string operations of Python that the queue uses.
--   Model        src/mergetrain/models.py: the job row, its statuses, the runner lock, run events
--                and the events of the recovery ledger.
--   Store        src/mergetrain/persistence/transactions.py and the tables of schema.py: the
--                database is a value of `Store`; a call is a function from a store to an outcome,
--                a result or an error, each with the store it leaves. `immediate` is one write
--                transaction: an error in it puts the store back. `Keeps` is what a call keeps.
--   Leases       src/mergetrain/persistence/leases.py: acquiring, renewing, releasing and taking
--                over the runner lock, and the split of a stopped runner's claims.
--   Jobs         src/mergetrain/persistence/jobs.py: submission, retry, supersession, status
--                writes (`mark_job`), cancellation, dismissal, verification, trains and ordering.
--   Recovery     src/mergetrain/persistence/recovery.py: the marker written ahead of a push.
--   Claims       src/mergetrain/persistence/claims.py: claims of queued jobs and of a validated
--                train.
--   Operations   src/mergetrain/persistence/operations.py: the ledger of recovery commands.
--   Reconcile    src/mergetrain/recovery.py, reconcile and force_unlock, with what they use of git_ops.py: the verdict
--                on an interrupted push, its write by compare-and-swap, the groups of jobs by the
--                target that their push recorded; and the forced clear of a wedged lock.
--   Gates        src/mergetrain/gate_runner.py and, for what the loader checks of the gates,
--                src/mergetrain/config.py: the effective gates (Config), the dependencies, the plan
--                in waves (Plan), and the gates that a run skips or reuses (Select), with the plan
--                that the preview of src/mergetrain/reuse.py shows.
--   Reuse        src/mergetrain/reuse.py and src/mergetrain/validation_reuse.py: what identifies a
--                validation (Identity), the checks on the rows (Rows) and the decision (Decide).
--   Paths        src/mergetrain/path_gates.py: file name patterns of one segment (Segment) and how
--                users write them (Segment/Globs), patterns and paths (Gate), and the listing of
--                changed paths that git prints (Status).
--   Quoting      src/mergetrain/shell_quoting.py: the escapes of a path in its shell context
--                (Render), how a shell reads quoted text (Reading), the cursor (Scan) and the rounds
--                of the scanner's loops (Rounds).
--   Daemon       src/mergetrain/daemon.py: one tick of the daemon over Leases, Claims and Recovery,
--                and the grade of its batch.
--   System       the operations together: the well-formed database, and histories of calls.
--   Samples, Examples   concrete databases, and the theorems at them.
--
-- How they interact. A runner acquires the lock (Leases), which splits the claims of one that
-- stopped; it claims jobs under the lock's token (Claims), moves them by status writes fenced by
-- that token (Jobs), and writes a marker before each push (Recovery). Other processes submit, cancel
-- and dismiss between any two transactions. `cancel_job` and `dismiss_job` read a row before their
-- transaction: what others commit in between is an argument of the model, one function of the
-- database for each round. The read with which a call returns its row follows its transaction at
-- once.
--
-- What is a parameter. `Env` holds the clock, the liveness of a process, a fresh identifier, the
-- name of the process and what SQLite answers to BEGIN IMMEDIATE and COMMIT. The callback that
-- confirms a deploy plan is an argument. `Git` (Reconcile) holds the answers of git, of the remote and
-- of the operating system during a reconcile, the lines of `git ls-remote` already split; `Races` and
-- `Watch` hold what other processes commit between the steps of a reconcile and of a forced unlock.
--
-- `World` (Gates) says how the command of each gate ends and whether the monitor stops a wave; `Diffs`
-- what git prints of the changes; `Answers` (Reuse) what git, the clock and the fingerprint commands
-- answer, and the hashes. A text that only explains, as that of a check or of an event, is left out.
--
-- `Tick` (Daemon) holds the batch runner, the answers of the configuration, and what other processes
-- commit between the steps of a tick; the reads of its probe, and those before its claim, see one
-- database each.
--
-- Representation. Rows stand in the order of their AUTOINCREMENT key. A time is a number of
-- seconds, an empty timestamp is `none`. A status is a constructor, so a text that is none of them
-- cannot be written. Numbers are natural numbers without a bound, as in Python; the subtractions,
-- in the retention of run events, the count of recovered claims and the depths of the scanner, stop
-- at 0 where the code's result is not used below 0. Every loop is over a list or over the rounds of
-- `cancel_job`; only the digits of a number, on its value and one, and the waves of a plan, on the
-- number of gates, are written on fuel: each wave finishes a gate. The scanner of shell commands
-- runs on twice the command's length and one: a round copies a character or leaves a comment.
--
-- Not modelled: the SQL of schema upgrades and of opening a connection; the runner of a train with
-- its git commands; the running of one gate and the verify hooks; the sweep of pin refs; the loop
-- around a tick of the daemon and the hub; the commands, the displays and the rest of the
-- configuration.
pub mod Prelude
pub mod Model
pub mod Store
pub mod Leases
pub mod Jobs
pub mod Recovery
pub mod Claims
pub mod Operations
pub mod Reconcile
pub mod Gates
pub mod Paths
pub mod Reuse
pub mod Daemon
pub mod Quoting
pub mod System
mod Samples
mod Examples
