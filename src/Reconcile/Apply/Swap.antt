-- ===== src/Reconcile/Apply/Swap.antt =====
-- What a written verdict found and left, and that an overtaken one wrote nothing.
use mergetrain.Prelude.{
  ℕ, ◌≡◌, ◌≢◌, ◌⊎◌, inl, inr, refl, ap, sym, ◌∙◌, false, Option, none, some, List, [], ◌∷◌, String,
  arith, Each,
}
use mergetrain.Model.{Job, Status, status_column, deployed, queued, canceled, blocked, no_marker}
use mergetrain.Store.{
  Store, Env, Error, Outcome, ok, err, M, find_job, get_job, Distinct, Frame, immediate_cases,
  the_row, find_job-first,
}
use mergetrain.Jobs.Mark.{Marking, mark_job, mark_in_transaction, mark_guard}
use mergetrain.Jobs.Mark.Fence.{
  marked, written, marked_settles, mark_job-IsFenced, mark_job-ok, mark_in_transaction-ok,
  guard-by_id, find_job-written,
}
use mergetrain.Reconcile.Git.{Git}
use mergetrain.Reconcile.Verdict.{JobDecision}
use mergetrain.Reconcile.Apply.{Written, attempted, overtaken, swap}

module _ (env : Env) (k : ℕ) (m : Marking) (token : Option String) (expected : Option Status)
    (s : Store) (distinct : Distinct s.jobs) where
  -- The row that a status write returns is there to be read.
  marked_row :
      {t : Store}
      → mark_in_transaction env k m token expected s ≡ ok tt t
      → (j : Job) × (find_job k t ≡ some j)
  marked_row {t} ran =
      let (one, at) = mark_in_transaction-ok env k m token expected s ran in
      let (old, found, guard) =
        the_row k (mark_guard k m.status token expected) (guard-by_id k m.status token expected)
          s.jobs (distinct k) (omega arith) in
      (
        marked env m old,
        rw at (find_job-written env k m token expected s old (find_job-first k s old found) guard),
      )

  -- A status write that raises has written nothing.
  pub mark_job-err : {e : Error} {t : Store} → mark_job env k m token expected s ≡ err e t → t ≡ s
  unfolding mark_job get_job
  mark_job-err h = elim (immediate_cases env (mark_in_transaction env k m token expected) s) [
    | inl (e, refused) ↦ ground arith
    | inr (u, t, done, ran) ↦ let (j, row) = marked_row ran in ground arith
  ]

pub overtaken-ok :
    (e : Error) (u : Store) {w : Written} {t : Store}
    → overtaken e u ≡ ok w t
    → (w ≡ (false, [])) × (t ≡ u)
overtaken-ok e u h = ground arith

pub attempted-ok :
    (m : M Job) (f : Job → Written) (s : Store) {w : Written} {t : Store}
    → attempted m f s ≡ ok w t
    → ((e : Error) × (u : Store) × (m s ≡ err e u) × (w ≡ (false, [])) × (t ≡ u))
      ⊎ ((j : Job) × (m s ≡ ok j t) × (w ≡ f j))
attempted-ok m f s {w} {t} h = by_outcome (m s) refl h
  where
    by_outcome :
        (o : Outcome Job)
        → m s ≡ o
        → elim o as (λ _. Outcome Written) [ ok j t ↦ ok (f j) t | err e t ↦ overtaken e t ]
          ≡ ok w t
        → ((e : Error) × (u : Store) × (m s ≡ err e u) × (w ≡ (false, [])) × (t ≡ u))
          ⊎ ((j : Job) × (m s ≡ ok j t) × (w ≡ f j))
    by_outcome (ok j u) e h = inr (j, ground arith, ground arith)
    by_outcome (err e u) q h =
        let (none_written, same) = overtaken-ok e u h in inl (e, u, q, none_written, same)

-- A verdict that was written found its job in the status it was read with, and left it in the
-- decided status, without its push marker unless the verdict is a conflict, which keeps it. No other
-- row changed, and the pin ref is deleted exactly where the push is settled.
pub record Swapped (d : JobDecision) (s t : Store) (pins : List ℕ) : Type 0 where
  pub old : Job
  pub new : Job
  pub found : find_job d.job.id s ≡ some old
  pub source : old.status ≡ d.job.status
  pub now : find_job d.job.id t ≡ some new
  pub decided : new.status ≡ d.decision
  pub settled : d.decision ≢ blocked → (new.marker ≡ no_marker) × (pins ≡ d.job.id ∷ [])
  pub conflict : d.decision ≡ blocked → (new.marker ≡ old.marker) × (pins ≡ [])
  pub others : Each (Frame d.job.id) s.jobs t.jobs

module _ (env : Env) (git : Git) (d : JobDecision) (s : Store) (distinct : Distinct s.jobs) where
  swap-ok :
      (m : Marking) {j : Job} {t : Store}
      → swap env d m s ≡ ok j t
      → (old : Job) × (find_job d.job.id s ≡ some old)
        × (old.status ≡ d.job.status)
        × (find_job d.job.id t ≡ some j)
        × (j ≡ marked env m old)
        × Each (Frame d.job.id) s.jobs t.jobs
  swap-ok m h =
      let (old, found, fence, written, others) =
        mark_job-IsFenced env d.job.id m none (some d.job.status) s distinct h in
      let (ran, read) = mark_job-ok env d.job.id m none (some d.job.status) s h in
      (old, found, fence.in_source d.job.status refl, read, written, others)

  -- The three settled verdicts
  pub swap_settled :
      (m : Marking) {j : Job} {t : Store}
      → m.status ≡ d.decision
      → (d.decision ≡ deployed) ⊎ (d.decision ≡ canceled) ⊎ (d.decision ≡ queued)
      → swap env d m s ≡ ok j t
      → Swapped d s t (d.job.id ∷ [])
  swap_settled m {j} same which h =
      let (old, found, source, now, written, others) = swap-ok m h in
      let facts = marked_settles env m old in
      record {
        old = old;
        new = j;
        found = found;
        source = source;
        now = now;
        decided = ap (λ j. j.status) written ∙ facts.0 ∙ same;
        settled = λ n. (ap (λ j. j.marker) written ∙ facts.1 (rw same which), refl);
        conflict = λ e. absurd (ground arith);
        others = others;
      }

  pub swap_conflict :
      (m : Marking) {j : Job} {t : Store}
      → m.status ≡ blocked
      → d.decision ≡ blocked
      → swap env d m s ≡ ok j t
      → Swapped d s t []
  swap_conflict m {j} same which h =
      let (old, found, source, now, written, others) = swap-ok m h in
      let facts = marked_settles env m old in
      record {
        old = old;
        new = j;
        found = found;
        source = source;
        now = now;
        decided = ap (λ j. j.status) written ∙ facts.0 ∙ same ∙ sym which;
        settled = λ n. absurd (n which);
        conflict = λ e. (
          ap (λ j. j.marker) written
              ∙ facts.2 (λ e. ground arith) (λ e. ground arith) (λ e. ground arith),
          refl,
        );
        others = others;
      }
