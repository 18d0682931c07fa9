-- ===== src/Reconcile/Run/Evidence.antt =====
-- The verdicts that reconcile reports and applies rest on what the recorded targets answered.
use mergetrain.Prelude.{
  ℕ, ◌≡◌, ◌⊎◌, inl, inr, refl, subst, ap, sym, ◌∙◌, Bool, true, false, ◌||◌, some, List, [], ◌∷◌,
  arith, String, All, if◌then◌else◌, ◌==◌, nat_column, select, Bool-cases, Option-cases, ltb,
}
use mergetrain.Model.{
  Job, status_column, is_active, blocked, needs_reconcile, is_reconcile_conflict, RunnerLock,
}
use mergetrain.Store.{Store, Env, Outcome, ok, err, M, has_status, ◌>>=◌, >>=-eq-ok}
use mergetrain.Leases.{ClaimPlan, lock_takeover, acquire_runner_lock}
use mergetrain.Reconcile.Git.{Git}
use mergetrain.Reconcile.Verdict.{JobDecision, classify}
use mergetrain.Reconcile.Verdict.Warranted.{Warrants, classify_warranted}
use mergetrain.Reconcile.Groups.{Target, job_push_target, group_by_target, classify_groups}
use mergetrain.Reconcile.Groups.Answers.{
  Answered, All-append, group_by_target-Members, classify_groups-All,
}
use mergetrain.Reconcile.Run.{
  Races, ReconcileOutcome, insert_by_id, sort_by_id, jobs_to_check, is_checkable, will_be_parked,
  is_nil, in_order, write_all, reconcile_locked, releasing, reconcile, stranded_for,
}

-- A conflict says nothing of the remote; any other verdict is warranted by the answers of the target
-- that the job recorded.
abbrev pub Rests : Git → JobDecision → Type 0
Rests git d =
    (d.decision ≡ blocked)
    ⊎ ((tips : List (String × String)) × (audit_sha : String) × Answered git
          (job_push_target git d.job) d.job tips audit_sha
        × Warrants git d.job tips audit_sha d.decision)

abbrev pub HasActiveJob : JobDecision → Type 0
HasActiveJob d = is_active d.job.status ≡ true

abbrev Recorded : Git → Target → Job → Type 0
Recorded git target j = (job_push_target git j ≡ target) × (is_active j.status ≡ true)

select-All :
    {A : Type 0} (P : A → Type 0) (p : A → Bool) (xs : List A)
    → ((x : A) → p x ≡ true → P x)
    → All P (select p xs)
unfolding select
select-All P p [] h = tt
select-All P p (x ∷ xs) h = elim (Bool-cases (p x)) [
  | inl hit ↦ rw hit (h x hit, select-All P p xs h)
  | inr miss ↦ rw miss (select-All P p xs h)
]

All-select :
    {A : Type 0} (P : A → Type 0) (p : A → Bool) (xs : List A) → All P xs → All P (select p xs)
unfolding select
All-select P p [] all = tt
All-select P p (x ∷ xs) all = elim (Bool-cases (p x)) [
  | inl hit ↦ rw hit (all.0, All-select P p xs all.1)
  | inr miss ↦ rw miss (All-select P p xs all.1)
]

insert_by_id-All :
    (P : Job → Type 0) (j : Job) (js : List Job) → P j → All P js → All P (insert_by_id j js)
unfolding insert_by_id
insert_by_id-All P j [] p all = (p, tt)
insert_by_id-All P j (k ∷ ks) p all = elim (Bool-cases (ltb k.id j.id)) [
  | inl later ↦ rw later (all.0, insert_by_id-All P j ks p all.1)
  | inr sooner ↦ rw sooner (p, all)
]

sort_by_id-All : (P : Job → Type 0) (js : List Job) → All P js → All P (sort_by_id js)
unfolding sort_by_id
sort_by_id-All P [] all = tt
sort_by_id-All P (j ∷ js) all =
    insert_by_id-All P j (sort_by_id js) all.0 (sort_by_id-All P js all.1)

abbrev IsOpen : Job → Type 0
IsOpen j = is_active j.status ≡ true

jobs_to_check-All :
    (applied : Bool) (stranded : List ClaimPlan) (s : Store)
    → All IsOpen (jobs_to_check applied stranded s)
unfolding jobs_to_check is_reconcile_conflict
jobs_to_check-All applied stranded s = sort_by_id-All IsOpen _ (
    All-append IsOpen _ _
      (select-All IsOpen (has_status needs_reconcile) s.jobs (λ j h. ground arith))
      (All-append IsOpen _ _ (select-All IsOpen is_checkable s.jobs (λ j h. ground arith))
        (claims (applied || is_nil stranded))))
  where
    claims : (b : Bool) → All IsOpen (if b then [] else select will_be_parked s.jobs)
    claims true = tt
    claims false = select-All IsOpen will_be_parked s.jobs (λ j h. ground arith)

own_targets :
    (git : Git) (js : List Job)
    → All IsOpen js
    → All (λ j. Recorded git (job_push_target git j) j) js
own_targets git [] active = tt
own_targets git (j ∷ js) active = ((refl, active.0), own_targets git js active.1)

-- One verdict, asked for or not.
classified :
    (git : Git) (target : Target) (j : Job) (tips : List (String × String)) (audit_sha : String)
    → Answered git target j tips audit_sha
    → Recorded git target j
    → Rests git (classify git j tips audit_sha) × HasActiveJob (classify git j tips audit_sha)
unfolding classify
classified git target j tips audit_sha answered (spot, active) = (
  inr (
    tips,
    audit_sha,
    subst (λ t. Answered git t j tips audit_sha) (sym spot) answered,
    classify_warranted git j tips audit_sha _ refl,
  ),
  active,
)

verdicts-Rests :
    (git : Git) (js : List Job) {ds : List JobDecision}
    → All IsOpen js
    → classify_groups git (group_by_target git [] js) ≡ some ds
    → All (λ d. Rests git d × HasActiveJob d) ds
verdicts-Rests git js active h =
    classify_groups-All git (Recorded git) (λ d. Rests git d × HasActiveJob d) (classified git)
      (λ target j recorded. (inl refl, recorded.1)) (group_by_target git [] js)
      (group_by_target-Members git (Recorded git) [] js (own_targets git js active) tt) h

in_order-All :
    (P : JobDecision → Type 0) (js : List Job) (ds : List JobDecision)
    → All P ds
    → All P (in_order js ds)
unfolding in_order
in_order-All P [] ds all = tt
in_order-All P (j ∷ js) ds all =
    All-append P _ _ (All-select P (λ d. d.job.id == j.id) ds all) (in_order-All P js ds all)

pub reported_verdicts :
    (git : Git) (applied : Bool) (stranded : List ClaimPlan) (s : Store) {ds : List JobDecision}
    → classify_groups git (group_by_target git [] (jobs_to_check applied stranded s)) ≡ some ds
    → All (λ d. Rests git d × HasActiveJob d) (in_order (jobs_to_check applied stranded s) ds)
reported_verdicts git applied stranded s {ds} h =
    in_order-All _ (jobs_to_check applied stranded s) ds (
      verdicts-Rests git (jobs_to_check applied stranded s) (jobs_to_check-All applied stranded s)
        h)

All-first :
    (P Q : JobDecision → Type 0) (ds : List JobDecision) → All (λ d. P d × Q d) ds → All P ds
All-first P Q [] all = tt
All-first P Q (d ∷ ds) all = (all.0.0, All-first P Q ds all.1)

write_all-decisions :
    (env : Env) (git : Git) (races : Races) (applied : Bool) (stranded : List ClaimPlan)
    (ds : List JobDecision) (s : Store) {o : ReconcileOutcome} {t : Store}
    → write_all env git races applied stranded ds s ≡ ok o t
    → o.decisions ≡ ds
unfolding write_all
write_all-decisions env git races true stranded ds s h = ground arith
write_all-decisions env git races false stranded ds s h = ground arith

locked-Rests :
    (env : Env) (git : Git) (races : Races) (applied : Bool) (stranded : List ClaimPlan) (s : Store)
    {o : ReconcileOutcome} {t : Store}
    → reconcile_locked env git races applied stranded s ≡ ok o t
    → All (Rests git) o.decisions
unfolding reconcile_locked
locked-Rests env git races applied stranded s {o} {t} h =
    elim (Option-cases
      (classify_groups git (group_by_target git [] (jobs_to_check applied stranded s)))) [
        | inl silent ↦ let at : o.decisions ≡ [] = ground arith in rw at tt
        | inr (ds, found) ↦ elim (Bool-cases (is_nil (jobs_to_check applied stranded s))) [
          | inl nothing ↦ let at : o.decisions ≡ [] = ground arith in rw at tt
          | inr something ↦
              let written : write_all env git races applied stranded
                    (in_order (jobs_to_check applied stranded s) ds) (races.asking s)
                  ≡ ok o t =
                ground arith in
              let at : o.decisions ≡ in_order (jobs_to_check applied stranded s) ds =
                write_all-decisions env git races applied stranded _ (races.asking s) written in
              rw at (
                All-first (Rests git) HasActiveJob _
                  (reported_verdicts git applied stranded s found))
        ]
      ]

-- The value of a body that `releasing` runs is the value that it returns.
releasing-ok :
    (env : Env) (lock : RunnerLock) (body : M ReconcileOutcome) (s : Store) {o : ReconcileOutcome}
    {t : Store}
    → releasing env lock body s ≡ ok o t
    → (u : Store) × (body s ≡ ok o u)
releasing-ok env lock body s {o} {t} h = go (body s) refl h
  where
    go :
        (r : Outcome ReconcileOutcome)
        → body s ≡ r
        → releasing env lock (λ x. r) s ≡ ok o t
        → (u : Store) × (body s ≡ ok o u)
    go (err e u) b k = ground arith
    go (ok p u) b k = let same : p ≡ o = ground arith in (u, b ∙ ap (λ q. ok q u) same)

applied-Rests :
    (env : Env) (git : Git) (races : Races) (ttl : ℕ) (stranded : List ClaimPlan) (s : Store)
    {o : ReconcileOutcome} {t : Store}
    → (acquire_runner_lock env env.default_owner ttl "" "" >>= λ lock.
          releasing env lock (reconcile_locked env git races true stranded))
        s
      ≡ ok o t
    → All (Rests git) o.decisions
applied-Rests env git races ttl stranded s h =
    let (lock, u, taken, ran) =
      >>=-eq-ok (acquire_runner_lock env env.default_owner ttl "" "") _ s h in
    let (v, body) = releasing-ok env lock (reconcile_locked env git races true stranded) u ran in
    locked-Rests env git races true stranded u body

-- Every verdict that a reconcile reports, in a preview and where it applies them, is a conflict or
-- rests on evidence: the target that the job recorded, whose endpoint is the recorded one, was
-- reachable and answered with the tips and the audit ref that warrant the verdict.
pub reconcile-Rests :
    (env : Env) (git : Git) (races : Races) (ttl : ℕ) (applied : Bool) (s : Store)
    {o : ReconcileOutcome} {t : Store}
    → reconcile env git races ttl applied s ≡ ok o t
    → All (Rests git) o.decisions
unfolding reconcile
reconcile-Rests env git races ttl true s {o} {t} h =
    let stranded = stranded_for (lock_takeover env s) s in
    let ran : (acquire_runner_lock env env.default_owner ttl "" "" >>= λ lock.
    releasing env lock (reconcile_locked env git races true stranded))
          (races.acquiring s)
        ≡ ok o t =
      ground arith in
    applied-Rests env git races ttl stranded (races.acquiring s) ran
reconcile-Rests env git races ttl false s {o} {t} h =
    let stranded = stranded_for (lock_takeover env s) s in
    let ran : reconcile_locked env git races false stranded s ≡ ok o t = ground arith in
    locked-Rests env git races false stranded s ran
