-- ===== src/Reconcile/Apply/Overtaken.antt =====
-- A verdict is written whole or not at all.
use mergetrain.Prelude.{
  ℕ, ◌≡◌, ◌⊎◌, inl, inr, refl, sym, ◌∙◌, Bool, true, false, not, none, some, List, [], arith,
  Each-refl, ◌==◌, ◌<>◌,
}
use mergetrain.Model.{Job, status_column, deployed, queued, canceled, blocked}
use mergetrain.Store.{Store, Env, ok, find_job, get_job, Distinct, Frame, if-ok}
use mergetrain.Jobs.Mark.{Marking, plain_marking}
use mergetrain.Jobs.Mark.Fence.{written}
use mergetrain.Reconcile.Git.{Git}
use mergetrain.Reconcile.Verdict.{JobDecision}
use mergetrain.Reconcile.Apply.{
  Written, attempted, swap, unpinned, kept, still_blocked, deployed_marking, reconciled, apply,
}
use mergetrain.Reconcile.Apply.Swap.{
  attempted-ok, swap_settled, swap_conflict, mark_job-err, Swapped,
}

module _ (env : Env) (git : Git) (d : JobDecision) (s : Store) (distinct : Distinct s.jobs) where
  -- A verdict that was overtaken wrote nothing.
  abbrev OutcomeOf : Written → Store → Type 0
  OutcomeOf (written, pins) t =
      (written ≡ true → Swapped d s t pins) × (written ≡ false → (t ≡ s) × (pins ≡ []))

  through :
      (m : Marking) (f : Job → Written) {w : Written} {t : Store}
      → ((j : Job) → swap env d m s ≡ ok j t → OutcomeOf (f j) t)
      → attempted (swap env d m) f s ≡ ok w t
      → OutcomeOf w t
  through m f {w} {t} h run = elim (attempted-ok (swap env d m) f s run) [
    | inl (e, u, failed, none_written, same) ↦
        let unchanged = mark_job-err env d.job.id m none (some d.job.status) s distinct failed in
        rw none_written ((λ e. cc), (λ e. (same ∙ unchanged, refl)))
    | inr (j, ran, at) ↦ rw at (h j ran)
  ]

  still :
      (j : Job) {t : Store}
      → d.job.status ≡ blocked
      → d.decision ≡ blocked
      → get_job d.job.id s ≡ ok j t
      → OutcomeOf (j.status == blocked, []) t
  unfolding get_job
  still j {t} source which read =
      let row : find_job d.job.id s ≡ some j = ground arith in
      let same : t ≡ s = ground arith in
      (
        (λ e. record {
          old = j;
          new = j;
          found = row;
          source = ground arith;
          now = rw same row;
          decided = ground arith;
          settled = λ n. absurd (n which);
          conflict = λ e. (refl, refl);
          others = rw same (Each-refl (Frame d.job.id) (λ a. (refl, λ other. refl)) s.jobs);
        }),
        (λ e. (same, refl)),
      )

  still_through :
      {w : Written} {t : Store}
      → d.job.status ≡ blocked
      → d.decision ≡ blocked
      → attempted (get_job d.job.id) still_blocked s ≡ ok w t
      → OutcomeOf w t
  unfolding get_job
  still_through source at run = elim (attempted-ok (get_job d.job.id) still_blocked s run) [
    | inl (e, u, failed, none_written, same) ↦
        let unchanged : u ≡ s = ground arith in
        rw none_written ((λ e. cc), (λ e. (same ∙ unchanged, refl)))
    | inr (j, read, value) ↦ rw value (still j source at read)
  ]

  apply-Outcome :
      {w : Written} {t : Store}
      → (d.decision ≡ deployed)
        ⊎ (d.decision ≡ canceled)
        ⊎ (d.decision ≡ queued)
        ⊎ (d.decision ≡ blocked)
      → apply env git d s ≡ ok w t
      → OutcomeOf w t
  unfolding apply
  apply-Outcome which h = elim (if-ok (d.decision == deployed) _ _ s h) [
    | inl (is_deployed, run) ↦
        let at : d.decision ≡ deployed = ground arith in
        through (deployed_marking git d) (unpinned d)
          (λ j ran. (
            (λ e. swap_settled env git d s distinct (deployed_marking git d) (sym at) (inl at) ran),
            (λ e. cc),
          ))
          run
    | inr (not_deployed, rest) ↦ elim (if-ok (d.decision == queued) _ _ s rest) [
      | inl (is_queued, run) ↦
          let at : d.decision ≡ queued = ground arith in
          through _ (unpinned d)
            (λ j ran. (
              (λ e.
                  swap_settled env git d s distinct (plain_marking queued (reconciled d.reason))
                    (sym at) (inr (inr at)) ran),
              (λ e. cc),
            ))
            run
      | inr (not_queued, rest) ↦ elim (if-ok (d.decision == canceled) _ _ s rest) [
        | inl (is_canceled, run) ↦
            let at : d.decision ≡ canceled = ground arith in
            through _ (unpinned d)
              (λ j ran. (
                (λ e.
                    swap_settled env git d s distinct (plain_marking canceled (reconciled d.reason))
                      (sym at) (inr (inl at)) ran),
                (λ e. cc),
              ))
              run
        | inr (not_canceled, rest) ↦
            let at : d.decision ≡ blocked = ground arith in
            elim (if-ok (not (d.job.status == blocked)) _ _ s rest) [
              | inl (parked, run) ↦
                  through _ kept
                    (λ j ran. (
                      (λ e.
                          swap_conflict env git d s distinct
                            (plain_marking blocked ("reconcile conflict: " <> d.reason)) refl at
                            ran),
                      (λ e. cc),
                    ))
                    run
              | inr (conflict, run) ↦ still_through (ground arith) at run
            ]
      ]
    ]
  ]

  -- Under distinct keys, applying a verdict either wrote it, to the row of its job in the status it
  -- was read with and to no other, or was overtaken and wrote nothing and deleted no pin ref.
  pub apply-Swapped :
      {written : Bool} {pins : List ℕ} {t : Store}
      → (d.decision ≡ deployed)
        ⊎ (d.decision ≡ canceled)
        ⊎ (d.decision ≡ queued)
        ⊎ (d.decision ≡ blocked)
      → apply env git d s ≡ ok (written, pins) t
      → (written ≡ true → Swapped d s t pins) × (written ≡ false → (t ≡ s) × (pins ≡ []))
  apply-Swapped which h = apply-Outcome which h
