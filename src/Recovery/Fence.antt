-- ===== src/Recovery/Fence.antt =====
-- The fence of a push: what `record_pending_push` needs of every job of the batch.
use mergetrain.Prelude.{
  ℕ, ◌≡◌, ◌<◌, refl, ap, subst, Bool, true, ◌&&◌, none, some, List, [], ◌∷◌, arith, ◌⊎◌, All, inl,
  inr, first, count_where, exists_where, elem, dedup, length, ◌==◌, nat_column, nonempty,
  text_column, text_eq_iff, Bool-cases, is_some,
}
use mergetrain.Prelude.RowLaws.{first-true}
use mergetrain.Model.{Job, in_progress}
use mergetrain.Store.{
  Store, Env, ok, err, granted, immediate, immediate-ok, if-ok, find_job, by_id, update_jobs,
  Distinct, the_row, count_where-elem, count_where-split, count_where_mono, find_job-update_jobs,
  find_job-first, cancellation_requested,
}
use mergetrain.Recovery.{
  PendingPush, may_push, mark_pending, is_canceled_push, push_in_transaction, record_pending_push,
}

abbrev Passing : (Job → Bool) → List Job → ℕ → Type 0
Passing p js k = (j : Job) × (first (by_id k) js ≡ some j) × (p j ≡ true)

All-weaken :
    (p q : Job → Bool) (js : List Job)
    → ((j : Job) → p j ≡ true → q j ≡ true)
    → (ks : List ℕ) → All (Passing p js) ks
    → All (Passing q js) ks
All-weaken p q js h [] all = tt
All-weaken p q js h (k ∷ ks) ((j, found, hit), all) =
    ((j, found, h j hit), All-weaken p q js h ks all)

-- A test that counts as many rows as keys were given is passed by the row of every key.
every_row :
    (ks : List ℕ) (p : Job → Bool) (js : List Job)
    → ((j : Job) → p j ≡ true → elem j.id ks ≡ true)
    → Distinct js
    → count_where p js ≡ length ks
    → All (Passing p js) ks
unfolding elem
every_row [] p js h distinct all = tt
every_row (k ∷ ks) p js h distinct all =
    let here : Job → Bool = λ j. p j && by_id k j in
    let there : Job → Bool = λ j. p j && elem j.id ks in
    let split = count_where-split p here there (λ j hit. ground (arith, h j)) js in
    let one = count_where_mono here (by_id k) (λ j hit. ground arith) js in
    let rest = count_where_mono there (λ j. elem j.id ks) (λ j hit. ground arith) js in
    let most = count_where-elem ks js distinct in
    let (j, found, hit) =
      the_row k here (λ j hit. ground arith) js (distinct k) (omega (arith, split, rest, most)) in
    let more =
      every_row ks there js (λ j hit. ground arith) distinct
        (omega (arith, split, one, rest, most, distinct k)) in
    ((j, found, ground arith), All-weaken there p js (λ j hit. ground arith) ks more)

All-elem : (P : ℕ → Type 0) (k : ℕ) (ks : List ℕ) → All P ks → elem k ks ≡ true → P k
unfolding elem
All-elem P k [] all h = absurd (ground arith)
All-elem P k (m ∷ ks) all h = elim (Bool-cases (m == k)) [
  | inl same ↦ subst P (ground arith) all.0
  | inr other ↦ All-elem P k ks all.1 (ground arith)
]

elem-length : (k : ℕ) (ks : List ℕ) → elem k ks ≡ true → 0 < length ks
unfolding elem
elem-length k [] h = ground arith
elem-length k (m ∷ ks) h = omega arith

push_in_transaction-ok :
    (env : Env) (ids : List ℕ) (p : PendingPush) (s : Store) {t : Store}
    → push_in_transaction env ids p s ≡ ok tt t
    → (count_where (may_push ids p.claim_token) s.jobs ≡ length ids)
      × (t ≡ update_jobs (may_push ids p.claim_token) (mark_pending env p) s)
unfolding push_in_transaction
push_in_transaction-ok env ids p s h = ground arith

no_ids : (P : ℕ → Type 0) (ks : List ℕ) → length ks ≡ 0 → All P ks
no_ids P [] h = tt
no_ids P (k ∷ ks) h = absurd (omega arith)

-- The row of one job of the batch, before and after its push is recorded.
abbrev pub Recorded : Env → PendingPush → Store → Store → ℕ → Type 0
Recorded env p s t k =
    (j : Job) × (find_job k s ≡ some j)
    × (j.status ≡ in_progress)
    × (j.claim_token ≡ p.claim_token)
    × (j.cancel_requested_at ≡ none)
    × (find_job k t ≡ some (mark_pending env p j))

module _ (env : Env) (ids : List ℕ) (p : PendingPush) (s : Store) where
  Passing-Recorded :
      (ks : List ℕ)
      → All (Passing (may_push ids p.claim_token) s.jobs) ks
      → All (Recorded env p s (update_jobs (may_push ids p.claim_token) (mark_pending env p) s)) ks
  Passing-Recorded [] all = tt
  Passing-Recorded (k ∷ ks) ((j, found, hit), all) = (
    (
      j,
      find_job-first k s j found,
      ground arith,
      ground (arith, text_eq_iff j.claim_token p.claim_token),
      ground arith,
      ground (
        arith,
        find_job-update_jobs k (may_push ids p.claim_token) (mark_pending env p) (λ j. refl) s,
        find_job-first k s j found,
      ),
    ),
    Passing-Recorded ks all,
  )

  pushed_rows :
      Distinct s.jobs
      → count_where (may_push ids p.claim_token) s.jobs ≡ length ids
      → All (Passing (may_push ids p.claim_token) s.jobs) ids
  pushed_rows distinct all =
      every_row ids (may_push ids p.claim_token) s.jobs (λ j hit. ground arith) distinct all

record_pending_push-ok :
    (env : Env) (job_ids : List ℕ) (p : PendingPush) (s : Store) {t : Store}
    → record_pending_push env job_ids p s ≡ ok tt t
    → ((length (dedup job_ids) ≡ 0) × (t ≡ s))
      ⊎ ((nonempty p.deploy_sha ≡ true) × (push_in_transaction env (dedup job_ids) p s ≡ ok tt t))
unfolding record_pending_push
record_pending_push-ok env job_ids p s {t} h = elim (if-ok (length (dedup job_ids) == 0) _ _ s h) [
  | inl (none_given, same) ↦ inl (ground arith, ground arith)
  | inr (some_given, rest) ↦ elim (if-ok (nonempty p.deploy_sha) _ _ s rest) [
    | inl (sha, ran) ↦ inr (sha, immediate-ok env (push_in_transaction env (dedup job_ids) p) s ran)
    | inr (missing, refused) ↦ absurd (ground arith)
  ]
]

-- Under distinct keys, a push that was allowed found the row of every job of its batch in progress
-- under its claim with no cancel request, and left on each the marker of exactly this push.
pub record_pending_push_fenced :
    (env : Env) (job_ids : List ℕ) (p : PendingPush) (s : Store) {t : Store}
    → Distinct s.jobs
    → record_pending_push env job_ids p s ≡ ok tt t
    → All (Recorded env p s t) (dedup job_ids)
record_pending_push_fenced env job_ids p s {t} distinct h =
    elim (record_pending_push-ok env job_ids p s h) [
      | inl (none_given, same) ↦ no_ids _ (dedup job_ids) none_given
      | inr (sha, ran) ↦
          let (all, at) = push_in_transaction-ok env (dedup job_ids) p s ran in
          rw at (
            Passing-Recorded env (dedup job_ids) p s (dedup job_ids)
              (pushed_rows env (dedup job_ids) p s distinct all))
    ]

exists_where-first :
    (k : ℕ) (q : Job → Bool) (js : List Job) {j : Job}
    → first (by_id k) js ≡ some j
    → q j ≡ true
    → exists_where q js ≡ true
unfolding first exists_where
exists_where-first k q [] found hit = absurd (ground arith)
exists_where-first k q (i ∷ js) {j} found hit = elim (Bool-cases (by_id k i)) [
  | inl key ↦ let same : i ≡ j = ground arith in rw (ap q same, hit) refl
  | inr other ↦ ground (arith, exists_where-first k q js {j = j} (ground arith) hit)
]

first-find_job :
    (k : ℕ) (s : Store) {j : Job} → find_job k s ≡ some j → first (by_id k) s.jobs ≡ some j
unfolding find_job
first-find_job k s h = h

module _ (env : Env) (ids : List ℕ) (p : PendingPush) (s : Store) (k : ℕ) (j : Job)
    (found : find_job k s ≡ some j) (canceled : is_canceled_push ids p.claim_token j ≡ true)
    (distinct : Distinct s.jobs) where
  not_all : (count_where (may_push ids p.claim_token) s.jobs ≡ length ids) → ⊥
  not_all all =
      let (i, row, hit) =
        All-elem (Passing (may_push ids p.claim_token) s.jobs) j.id ids
          (pushed_rows env ids p s distinct all) (ground arith) in
      ground
        (arith, first-find_job k s found, first-true (by_id k) s.jobs j (first-find_job k s found))

  pushed_store : Store
  pushed_store = update_jobs (may_push ids p.claim_token) (mark_pending env p) s

  still_there : find_job k pushed_store ≡ some j
  unfolding pushed_store
  still_there = ground (
    arith,
    find_job-update_jobs k (may_push ids p.claim_token) (mark_pending env p) (λ j. refl) s,
  )

  push_canceled : push_in_transaction env ids p s ≡ err cancellation_requested pushed_store
  unfolding push_in_transaction pushed_store
  push_canceled = ground (
    arith,
    not_all,
    exists_where-first k (is_canceled_push ids p.claim_token) pushed_store.jobs
        (first-find_job k pushed_store still_there) canceled,
  )

-- Under distinct keys, on a free database, one cancel request in the batch under the claim stops
-- its push with the cancellation error, and nothing is written.
pub record_pending_push_canceled :
    (env : Env) (job_ids : List ℕ) (p : PendingPush) (s : Store) (k : ℕ) (j : Job)
    → env.begin ≡ granted
    → Distinct s.jobs
    → nonempty p.deploy_sha ≡ true
    → find_job k s ≡ some j
    → elem k (dedup job_ids) ≡ true
    → j.status ≡ in_progress
    → j.claim_token ≡ p.claim_token
    → is_some j.cancel_requested_at ≡ true
    → record_pending_push env job_ids p s ≡ err cancellation_requested s
unfolding record_pending_push immediate
record_pending_push_canceled env job_ids p s k j free distinct sha found asked working claim
      canceled =
    let key = first-true (by_id k) s.jobs j (first-find_job k s found) in
    let hit : is_canceled_push (dedup job_ids) p.claim_token j ≡ true =
      ground (arith, key, text_eq_iff j.claim_token p.claim_token) in
    ground (
      arith,
      push_canceled env (dedup job_ids) p s k j found hit distinct,
      elem-length k (dedup job_ids),
    )
