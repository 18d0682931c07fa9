-- ===== src/Jobs/Cancel/Honored.antt =====
-- What a cancellation that returns has done.
use mergetrain.Prelude.{
  ℕ, ◌≡◌, ◌⊎◌, inl, inr, refl, ap, ◌∙◌, true, false, ◌&&◌, none, some, List, [], ◌∷◌, String, arith,
  All, if◌then◌else◌, nonempty, ◌==◌, text_column, Option-cases,
}
use mergetrain.Model.{Job, status_column, in_progress, validated, canceled}
use mergetrain.Store.{
  Store, Env, M, ok, ◌>>=◌, ◌>>◌, find_job, get_job, immediate, immediate-ok, if-ok,
  find_job-update_jobs, find_job-by_id, Distinct, utc_now, >>=-eq-ok, raise, modify,
  assertion_error,
}
use mergetrain.Jobs.Mark.{plain_marking, mark_job}
use mergetrain.Jobs.Mark.Fence.{marked_settles, mark_job-IsFenced}
use mergetrain.Jobs.Cancel.{
  is_asked, request_cancel, request_in_transaction, is_validated_in, cancel_validated,
  cancel_train_in_transaction, cancel_as, cancel_job, refuse_cancel,
}

-- The job is canceled, or its runner, which is at work, has been asked now to stop.
abbrev pub Honored : Env → Job → Type 0
Honored env j =
    (j.status ≡ canceled) ⊎ ((j.status ≡ in_progress) × (j.cancel_requested_at ≡ utc_now env))

then_read :
    (m : M (Unit {0})) (k : ℕ) (s : Store) {j : Job} {t : Store}
    → (m >> get_job k) s ≡ ok j t
    → (m s ≡ ok tt t) × (find_job k t ≡ some j)
unfolding get_job
then_read m k s h = ground arith

request-Honored :
    (env : Env) (k : ℕ) (token note : String) (s : Store) {j : Job} {t : Store}
    → request_in_transaction env k token note s ≡ ok tt t
    → find_job k t ≡ some j
    → Honored env j
unfolding request_in_transaction
request-Honored env k token note s h found = elim (Option-cases (find_job k s)) [
  | inl missing ↦ absurd (ground arith)
  | inr (current, row) ↦ ground (
    arith,
    find_job-update_jobs k (is_asked k token) (request_cancel env k note) (λ j. refl) s,
    find_job-by_id k s current row,
  )
]

train-Honored :
    (env : Env) (k : ℕ) (train note : String) (s : Store) {j : Job} {t : Store}
    → cancel_train_in_transaction env k train note s ≡ ok true t
    → find_job k t ≡ some j
    → Honored env j
unfolding cancel_train_in_transaction
train-Honored env k train note s h found = elim (Option-cases (find_job k s)) [
  | inl missing ↦ absurd (ground arith)
  | inr (current, row) ↦ ground (
    arith,
    find_job-update_jobs k (is_validated_in train) (cancel_validated env note) (λ j. refl) s,
  )
]

-- A train that was not there any more is left as it is.
train-gone :
    (env : Env) (k : ℕ) (train note : String) (s : Store) {t : Store}
    → cancel_train_in_transaction env k train note s ≡ ok false t
    → t ≡ s
unfolding cancel_train_in_transaction
train-gone env k train note s h = elim (Option-cases (find_job k s)) [
  | inl missing ↦ ground arith
  | inr (current, row) ↦ ground arith
]

mark-Honored :
    (env : Env) (k : ℕ) (note : String) (j : Job) (s : Store) {i : Job} {t : Store}
    → Distinct s.jobs
    → mark_job env k (plain_marking canceled note) none (some j.status) s ≡ ok i t
    → Honored env i
mark-Honored env k note j s distinct h =
    let (old, found, fence, written, frame) =
      mark_job-IsFenced env k (plain_marking canceled note) none (some j.status) s distinct h in
    inl (ap (λ i. i.status) written ∙ (marked_settles env (plain_marking canceled note) old).0)

train_then :
    (env : Env) (k : ℕ) (train note : String) (again : M Job) (s : Store) {i : Job} {t : Store}
    → (do
      done ← immediate env (cancel_train_in_transaction env k train note)
      if done then get_job k else again)
        s
      ≡ ok i t
    → ((u : Store) × (cancel_train_in_transaction env k train note s ≡ ok true u)
        × (find_job k u ≡ some i))
      ⊎ (again s ≡ ok i t)
unfolding get_job
train_then env k train note again s {i} {t} h =
    let (done, u, ran, rest) =
      >>=-eq-ok (immediate env (cancel_train_in_transaction env k train note)) _ s h in
    let body = immediate-ok env (cancel_train_in_transaction env k train note) s ran in
    elim (if-ok done _ _ u rest) [
      | inl (still, read) ↦ inl (u, ground arith, ground arith)
      | inr (gone, more) ↦
          let same : u ≡ s = train-gone env k train note s (ground arith) in inr (ground arith)
    ]

module _ (env : Env) (k : ℕ) (note : String) (again : M Job) (j : Job) (s : Store)
    (distinct : Distinct s.jobs)
    (retried : (i : Job) (t : Store) → again s ≡ ok i t → Honored env i) where
  cancel_as-Honored :
      {i : Job} {t : Store} → cancel_as env k note again j s ≡ ok i t → Honored env i
  unfolding cancel_as
  cancel_as-Honored {i} {t} h = elim (if-ok (j.status == in_progress) _ _ s h) [
    | inl (working, ran) ↦
        let (asked, read) =
          then_read (immediate env (request_in_transaction env k j.claim_token _)) k s ran in
        request-Honored env k j.claim_token _ s (immediate-ok env _ s asked) read
    | inr (idle, rest) ↦ elim (if-ok (j.status == validated && nonempty j.train_id) _ _ s rest) [
      | inl (ready, ran) ↦ elim (train_then env k j.train_id _ again s ran) [
        | inl (u, done, read) ↦ train-Honored env k j.train_id _ s done read
        | inr more ↦ retried i t more
      ]
      | inr (other, ran) ↦ mark-Honored env k _ j s distinct ran
    ]
  ]

abbrev KeepsDistinct : (Store → Store) → Type 0
KeepsDistinct other = (s : Store) → Distinct s.jobs → Distinct (other s).jobs

read_then :
    (k : ℕ) (f : Job → M Job) (s : Store) {i : Job} {t : Store}
    → (get_job k >>= f) s ≡ ok i t
    → (j : Job) × (f j s ≡ ok i t)
unfolding get_job
read_then k f s h = elim (Option-cases (find_job k s)) [
  | inl missing ↦ absurd (ground arith)
  | inr (j, row) ↦ (j, ground arith)
]

refuse_then :
    (j : Job) (m : M Job) (s : Store) {i : Job} {t : Store}
    → (refuse_cancel j >> m) s ≡ ok i t
    → m s ≡ ok i t
refuse_then j m s h = ground arith

-- Under distinct keys, which other processes keep too, a cancellation that returns has canceled the
-- job it returns, or has asked its runner now to stop: also when it started over, and whatever
-- others committed between its reads and its transactions.
pub cancel_job-Honored :
    (env : Env) (others : List (Store → Store)) (k : ℕ) (note : String) (s : Store) {i : Job}
    {t : Store}
    → Distinct s.jobs
    → All KeepsDistinct others
    → cancel_job env others k note s ≡ ok i t
    → Honored env i
unfolding cancel_job
cancel_job-Honored env [] k note s {i} {t} distinct keep h =
    let (j, ran) = read_then k _ s h in
    cancel_as-Honored env k note (raise assertion_error) j s distinct
      (λ i t raised. absurd (ground arith))
      (refuse_then j (cancel_as env k note (raise assertion_error) j) s ran)
cancel_job-Honored env (other ∷ others) k note s {i} {t} distinct keep h =
    let (j, ran) = read_then k _ s h in
    let again : M Job = cancel_job env others k note in
    let later = keep.0 s distinct in
    cancel_as-Honored env k note again j (other s) later
      (λ i t returned. cancel_job-Honored env others k note (other s) later keep.1 returned)
      (refuse_then j (modify other >> cancel_as env k note again j) s ran)
