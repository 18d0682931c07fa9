-- ===== src/Jobs/Enqueue/Unique.antt =====
-- A branch has at most one active job: submissions keep it so.
use mergetrain.Prelude.{
  ℕ, ◌+◌, ◌≤◌, ◌≡◌, refl, ◌⊎◌, inl, inr, true, false, Option, none, some, List, [], ◌∷◌, ◌++◌,
  String, if◌then◌else◌, nonempty, first, count_where, update_where, nat_column, text_column,
  text_eq_iff, strip, one_line, arith, All, nat_eq_refl, Option-cases, ap, ◌<◌,
}
use mergetrain.Prelude.RowLaws.{
  count_where-append, count_where-none, update_where-append, update_where-none, first-append,
}
use mergetrain.Model.{Job}
use mergetrain.Store.{
  Store, Env, ok, err, immediate, granted, by_id, get_job, find_job, duplicate_active_branch,
}
use mergetrain.Jobs.Reads.{active_on, active_branch_job_id}
use mergetrain.Jobs.Enqueue.{Submission, submitted_job, insert_submission, enqueue_job}

abbrev pub UniqueActive : List Job → Type 0
UniqueActive js = (branch : String) → count_where (active_on branch) js ≤ 1

-- A queued row at the end keeps a branch unique, if no active job was on its branch.
pub UniqueActive-append :
    (js : List Job) (j : Job)
    → UniqueActive js
    → first (active_on j.branch) js ≡ none
    → UniqueActive (js ++ j ∷ [])
unfolding count_where
UniqueActive-append js j u free branch = ground (
  arith,
  u branch,
  text_eq_iff j.branch branch,
  count_where-append (active_on branch) js (j ∷ []),
  count_where-none (active_on branch) js,
)

-- AUTOINCREMENT: every key in use is below the next one.
abbrev pub IdsBelow : ℕ → List Job → Type 0
IdsBelow n js = All (λ j. j.id < n) js

pub first-by_id-IdsBelow :
    (n k : ℕ) (js : List Job) → IdsBelow n js → n ≤ k → first (by_id k) js ≡ none
unfolding first
first-by_id-IdsBelow n k [] b h = refl
first-by_id-IdsBelow n k (j ∷ js) b h = ground (arith, first-by_id-IdsBelow n k js b.1 h)

-- The row of a submission, at its place in the order.
abbrev pub queued_row : Env → Submission → ℕ → Job
queued_row env sub k = record (submitted_job env sub k) { queue_order = k }

-- The store with one more row at the end.
abbrev pub with_row : Store → Job → Store
with_row s j = record s { jobs = s.jobs ++ j ∷ []; next_id = s.next_id + 1 }

append_row :
    (env : Env) (sub : Submission) (s : Store)
    → IdsBelow s.next_id s.jobs
    → update_where
        (by_id s.next_id)
        (λ j. record j { queue_order = s.next_id })
        (s.jobs ++ submitted_job env sub s.next_id ∷ [])
      ≡ s.jobs ++ queued_row env sub s.next_id ∷ []
unfolding update_where
append_row env sub s b =
    rw (update_where-append (by_id s.next_id) (λ j. record j { queue_order = s.next_id }) s.jobs) (
      rw
        (update_where-none (by_id s.next_id) _ s.jobs
          (first-by_id-IdsBelow _ _ s.jobs b (omega arith)))
        (rw (nat_eq_refl s.next_id)))

unfoldable pub duplicate_id : Submission → Store → Option ℕ
duplicate_id sub s = if sub.allow_duplicate then none else active_branch_job_id (strip sub.branch) s

-- Inserting a submission whose branch is free appends its row.
pub insert_free :
    (env : Env) (sub : Submission) (s : Store)
    → IdsBelow s.next_id s.jobs
    → duplicate_id sub s ≡ none
    → insert_submission env sub s ≡ ok s.next_id (with_row s (queued_row env sub s.next_id))
unfolding insert_submission duplicate_id
insert_free env sub s b free = rw free (
    ap (λ js. ok s.next_id (record s { jobs = js; next_id = s.next_id + 1 }))
      (append_row env sub s b))

pub insert_taken :
    (env : Env) (sub : Submission) (s : Store) (other : ℕ)
    → duplicate_id sub s ≡ some other
    → insert_submission env sub s ≡ err (duplicate_active_branch other) s
unfolding insert_submission duplicate_id
insert_taken env sub s other taken = rw taken

get_new_row :
    (s : Store) (j : Job)
    → IdsBelow s.next_id s.jobs
    → j.id ≡ s.next_id
    → get_job s.next_id (with_row s j) ≡ ok j (with_row s j)
unfolding get_job find_job first
get_new_row s j b e = ground (
  arith,
  first-append (by_id s.next_id) s.jobs (j ∷ []),
  first-by_id-IdsBelow s.next_id s.next_id s.jobs b,
)

-- On a free database a submission with a task and a branch is refused with the id of the active
-- job on its branch, and then nothing is written; or, where there is none or duplicates are
-- allowed, exactly one queued row is appended and returned.
pub enqueue_job_cases :
    (env : Env) (sub : Submission) (s : Store)
    → env.begin ≡ granted
    → env.commit ≡ granted
    → IdsBelow s.next_id s.jobs
    → nonempty (one_line sub.task) ≡ true
    → nonempty (strip sub.branch) ≡ true
    → ((other : ℕ) × (active_branch_job_id (strip sub.branch) s ≡ some other)
        × (sub.allow_duplicate ≡ false)
        × (enqueue_job env sub s ≡ err (duplicate_active_branch other) s))
      ⊎ (((sub.allow_duplicate ≡ true) ⊎ (active_branch_job_id (strip sub.branch) s ≡ none))
          × (enqueue_job env sub s
              ≡ ok (queued_row env sub s.next_id) (with_row s (queued_row env sub s.next_id))))
unfolding enqueue_job immediate duplicate_id
enqueue_job_cases env sub s b c fresh task branch = elim (Option-cases (duplicate_id sub s)) [
  | inl free ↦ inr (
    ground arith,
    ground (
      arith,
      insert_free env sub s fresh free,
      get_new_row s (queued_row env sub s.next_id) fresh refl,
    ),
  )
  | inr (other, taken) ↦
      inl (other, ground arith, ground arith, ground (arith, insert_taken env sub s other taken))
]

-- No id is found only where there is no row.
pub active_branch_job_id-none :
    (branch : String) (s : Store)
    → active_branch_job_id branch s ≡ none
    → first (active_on branch) s.jobs ≡ none
unfolding active_branch_job_id
active_branch_job_id-none branch s h = ground arith
