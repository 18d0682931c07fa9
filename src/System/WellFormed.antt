-- ===== src/System/WellFormed.antt =====
-- What holds of the queue database between two statements.
use mergetrain.Prelude.{
  ℕ, ◌+◌, ◌≡◌, inl, inr, Bool, true, false, none, List, [], ◌∷◌, ◌++◌, String, arith, All,
  text_column, first, count_where, update_where, Bool-cases,
}
use mergetrain.Prelude.RowLaws.{
  count_where-update_where_le, count_where-update_where, count_where-append, count_where-none,
}
use mergetrain.Model.{Job, is_active, queued, in_progress, deployed, has_marker, status_column}
use mergetrain.Store.{Store, has_status, update_jobs, by_id}
use mergetrain.Store.{Distinct}
use mergetrain.Jobs.Reads.{active_on}
use mergetrain.Jobs.Enqueue.Unique.{
  IdsBelow, first-by_id-IdsBelow, UniqueActive, UniqueActive-append,
}

-- A claim token only while in progress; no cancel request and no push marker while queued; no push
-- marker once deployed.
pub record IsSound (j : Job) : Type 0 where
  pub unclaimed : has_status in_progress j ≡ false → j.claim_token ≡ ""
  pub fresh : has_status queued j ≡ true → (j.cancel_requested_at ≡ none) × (has_marker j ≡ false)
  pub settled : has_status deployed j ≡ true → has_marker j ≡ false

-- Keys in use are distinct and below the next one, a branch has at most one active job, every row is sound.
pub record WellFormed (s : Store) : Type 0 where
  pub ids : IdsBelow s.next_id s.jobs
  pub distinct : Distinct s.jobs
  pub unique : UniqueActive s.jobs
  pub rows : All IsSound s.jobs

-- An UPDATE that keeps ids and branches, makes no ended job active, and leaves sound rows.
pub record SafeUpdate (p : Job → Bool) (f : Job → Job) : Type 0 where
  pub same_id : (j : Job) → (f j).id ≡ j.id
  pub same_branch : (j : Job) → (f j).branch ≡ j.branch
  pub no_revival :
      (j : Job) → p j ≡ true → is_active (f j).status ≡ true → is_active j.status ≡ true
  pub sound : (j : Job) → p j ≡ true → IsSound j → IsSound (f j)

module _ (p : Job → Bool) (f : Job → Job) (safe : SafeUpdate p f) where
  update-IdsBelow : (n : ℕ) (js : List Job) → IdsBelow n js → IdsBelow n (update_where p f js)
  unfolding update_where
  update-IdsBelow n [] h = tt
  update-IdsBelow n (j ∷ js) h = (ground (arith, safe.same_id j), update-IdsBelow n js h.1)

  update-IsSound : (js : List Job) → All IsSound js → All IsSound (update_where p f js)
  unfolding update_where
  update-IsSound [] h = tt
  update-IsSound (j ∷ js) h = elim (Bool-cases (p j)) [
    | inl hit ↦ rw hit (safe.sound j hit h.0, update-IsSound js h.1)
    | inr miss ↦ rw miss (h.0, update-IsSound js h.1)
  ]

  update-active_on :
      (branch : String) (j : Job)
      → p j ≡ true
      → active_on branch (f j) ≡ true
      → active_on branch j ≡ true
  update-active_on branch j hit h = ground (arith, safe.same_branch j, safe.no_revival j hit)

  update-UniqueActive : (js : List Job) → UniqueActive js → UniqueActive (update_where p f js)
  update-UniqueActive js u branch = omega (
    arith,
    u branch,
    count_where-update_where_le (active_on branch) p f (update-active_on branch) js,
  )

  pub update_jobs-WellFormed : (s : Store) → WellFormed s → WellFormed (update_jobs p f s)
  update_jobs-WellFormed s w = record {
    ids = update-IdsBelow s.next_id s.jobs w.ids;
    distinct = λ k.
        rw (count_where-update_where (by_id k) p f (λ j. rw (safe.same_id j)) s.jobs)
          (w.distinct k);
    unique = update-UniqueActive s.jobs w.unique;
    rows = update-IsSound s.jobs w.rows;
  }

IdsBelow-append :
    (n : ℕ) (js : List Job) (j : Job) → IdsBelow n js → j.id ≡ n → IdsBelow (n + 1) (js ++ j ∷ [])
IdsBelow-append n [] j h e = (omega arith, tt)
IdsBelow-append n (k ∷ js) j h e = (omega arith, IdsBelow-append n js j h.1 e)

Distinct-append :
    (n : ℕ) (js : List Job) (j : Job)
    → IdsBelow n js
    → Distinct js
    → j.id ≡ n
    → Distinct (js ++ j ∷ [])
unfolding count_where
Distinct-append n js j below distinct e k = ground (
  arith,
  distinct k,
  count_where-append (by_id k) js (j ∷ []),
  count_where-none (by_id k) js,
  first-by_id-IdsBelow n k js below,
)

All-append : (js : List Job) (j : Job) → All IsSound js → IsSound j → All IsSound (js ++ j ∷ [])
All-append [] j h e = (e, tt)
All-append (k ∷ js) j h e = (h.0, All-append js j h.1 e)

-- A new row under the next key, sound, on a branch with no active job.
pub append-WellFormed :
    (s : Store) (j : Job)
    → WellFormed s
    → j.id ≡ s.next_id
    → IsSound j
    → first (active_on j.branch) s.jobs ≡ none
    → WellFormed (record s { jobs = s.jobs ++ j ∷ []; next_id = s.next_id + 1 })
append-WellFormed s j w e sound free = record {
  ids = IdsBelow-append s.next_id s.jobs j w.ids e;
  distinct = Distinct-append s.next_id s.jobs j w.ids w.distinct e;
  unique = UniqueActive-append s.jobs j w.unique free;
  rows = All-append s.jobs j w.rows sound;
}
