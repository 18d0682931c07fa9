-- ===== src/Leases/Split.antt =====
-- The split of a stopped runner's claims: `_requeue_orphans` and `stranded_claim_plan`.
use mathlib.Core.Path.{ap₂}
use mergetrain.Prelude.{
  ap, Each, Each-map, ℕ, ◌≡◌, refl, true, false, not, ◌&&◌, List, [], ◌∷◌, if◌then◌else◌, is_some,
  select, update_where, map, arith, count_where,
}
use mergetrain.Model.{Job, Status, status_column, in_progress, needs_reconcile, has_marker}
use mergetrain.Store.{Store, Env, has_status, with_jobs}
use mergetrain.Leases.{
  ClaimPlan, is_canceled_orphan, is_pushed_orphan, cancel_orphan, park_orphan, requeue_orphan,
  requeue_orphans, plan_claim, stranded_claim_plan, in_progress_count,
}

-- What becomes of one row: the three cases told apart at once, instead of by three statements.
unfoldable pub settle : Env → Job → Job
settle env j =
    if not (has_status in_progress j)
    then j
    else if has_marker j
    then park_orphan j
    else if is_some j.cancel_requested_at
    then cancel_orphan env j
    else requeue_orphan j

split_row : Env → Job → Job
split_row env j =
    let j₁ = if is_canceled_orphan j then cancel_orphan env j else j in
    let j₂ = if is_pushed_orphan j₁ then park_orphan j₁ else j₁ in
    if has_status in_progress j₂ then requeue_orphan j₂ else j₂

split_row-settle : (env : Env) (j : Job) → split_row env j ≡ settle env j
unfolding split_row settle
split_row-settle env j = ground arith

split-map :
    (env : Env) (js : List Job)
    → update_where (has_status in_progress) requeue_orphan (
        update_where is_pushed_orphan park_orphan
          (update_where is_canceled_orphan (cancel_orphan env) js))
      ≡ map (settle env) js
unfolding update_where split_row
split-map env [] = refl
split-map env (j ∷ js) = ap₂ ◌∷◌ (split_row-settle env j) (split-map env js)

-- The three statements together settle every row by its own case, in place.
pub requeue_orphans_by_case :
    (env : Env) (s : Store) → requeue_orphans env s ≡ record s { jobs = map (settle env) s.jobs }
unfolding requeue_orphans with_jobs
requeue_orphans_by_case env s = ap (with_jobs s) (split-map env s.jobs)

-- The rows that were in progress, each with its status afterwards.
pub outcomes : List Job → List Job → List (ℕ × Status)
outcomes [] after = []
outcomes (j ∷ js) [] = []
outcomes (j ∷ js) (k ∷ ks) =
    let rest = outcomes js ks in if has_status in_progress j then (k.id, k.status) ∷ rest else rest

abbrev pub announced : ClaimPlan → ℕ × Status
announced plan = (plan.job_id, plan.decision)

plan-outcomes :
    (env : Env) (js : List Job)
    → map announced (map plan_claim (select (has_status in_progress) js))
      ≡ outcomes js (map (settle env) js)
unfolding select outcomes settle
plan-outcomes env [] = refl
plan-outcomes env (j ∷ js) = ground (arith, plan-outcomes env js)

-- The preview of a lock takeover names exactly the claims that the split moves, in order, each
-- with the status that the split then gives it.
pub stranded_claim_plan-requeue_orphans :
    (env : Env) (s : Store)
    → map announced (stranded_claim_plan s) ≡ outcomes s.jobs (requeue_orphans env s).jobs
unfolding stranded_claim_plan
stranded_claim_plan-requeue_orphans env s =
    rw (requeue_orphans_by_case env s) (plan-outcomes env s.jobs)

count-settle :
    (env : Env) (js : List Job) → count_where (has_status in_progress) (map (settle env) js) ≡ 0
unfolding count_where settle
count-settle env [] = refl
count-settle env (j ∷ js) = ground (arith, count-settle env js)

-- No claim outlives the split.
pub requeue_orphans_ends_claims :
    (env : Env) (s : Store) → in_progress_count (requeue_orphans env s) ≡ 0
unfolding in_progress_count
requeue_orphans_ends_claims env s = rw (requeue_orphans_by_case env s) (count-settle env s.jobs)

-- A row whose push may have landed keeps its marker, its cancel request and its deployment, and
-- is parked for reconcile: it is never queued to be pushed again.
abbrev pub KeepsEvidence : Job → Job → Type 0
KeepsEvidence j k =
    (k.id ≡ j.id)
    × (k.marker ≡ j.marker)
    × (k.deployment ≡ j.deployment)
    × (has_status in_progress j && has_marker j ≡ true
        → (k.status ≡ needs_reconcile) × (k.cancel_requested_at ≡ j.cancel_requested_at))
    × (has_status in_progress j ≡ false → k ≡ j)

pub settle-KeepsEvidence : (env : Env) (j : Job) → KeepsEvidence j (settle env j)
unfolding settle
settle-KeepsEvidence env j = ground arith

-- The split keeps, for every row, its id, its push marker and its deployment; a row in progress
-- with a marker is parked for reconcile with its cancel request, and a row that was not in
-- progress is as it was.
pub requeue_orphans-KeepsEvidence :
    (env : Env) (s : Store) → Each KeepsEvidence s.jobs (requeue_orphans env s).jobs
requeue_orphans-KeepsEvidence env s =
    rw (requeue_orphans_by_case env s)
      (Each-map KeepsEvidence (settle env) s.jobs (settle-KeepsEvidence env))
