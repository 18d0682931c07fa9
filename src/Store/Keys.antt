-- ===== src/Store/Keys.antt =====
-- Rows under distinct keys: a statement on one key touches one row.
use mergetrain.Prelude.{
  ◌⊎◌, Each, Each-update_where, ℕ, ◌+◌, ◌≤◌, ◌<◌, ◌≡◌, refl, inl, inr, Bool, true, false, some,
  List, [], ◌∷◌, arith, first, count_where, update_where, elem, length, if◌then◌else◌, nat_column,
  Bool-cases,
}
use mergetrain.Prelude.RowLaws.{option_map, first-update_where, first-true}
use mergetrain.Model.{Job}
use mergetrain.Store.Defs.{Store}
use mergetrain.Store.Table.{by_id, find_job, update_jobs}

abbrev pub Distinct : List Job → Type 0
Distinct js = (k : ℕ) → count_where (by_id k) js ≤ 1

-- What implies a test counts at most as often.
pub count_where_mono :
    (p q : Job → Bool)
    → ((j : Job) → p j ≡ true → q j ≡ true)
    → (js : List Job) → count_where p js ≤ count_where q js
unfolding count_where
count_where_mono p q h [] = omega arith
count_where_mono p q h (j ∷ js) = ground (arith, h j, count_where_mono p q h js)

-- A test of one key that one row passes is passed by the row that the key finds.
pub the_row :
    (k : ℕ) (p : Job → Bool)
    → ((j : Job) → p j ≡ true → by_id k j ≡ true)
    → (js : List Job) → count_where (by_id k) js ≤ 1
    → 0 < count_where p js
    → (j : Job) × (first (by_id k) js ≡ some j) × (p j ≡ true)
unfolding count_where first
the_row k p h [] one some_row = absurd (omega arith)
the_row k p h (j ∷ js) one some_row = elim (Bool-cases (p j)) [
  | inl hit ↦ (j, rw (h j hit), hit)
  | inr miss ↦ elim (Bool-cases (by_id k j)) [
    | inl key ↦ absurd (ground (arith, count_where_mono p (by_id k) h js))
    | inr other ↦ ground (arith, the_row k p h js)
  ]
]

-- A test that implies one of two others counts at most as often as the two.
pub count_where-split :
    (r p q : Job → Bool)
    → ((j : Job) → r j ≡ true → (p j ≡ true) ⊎ (q j ≡ true))
    → (js : List Job) → count_where r js ≤ count_where p js + count_where q js
unfolding count_where
count_where-split r p q h [] = omega arith
count_where-split r p q h (j ∷ js) = ground (arith, h j, count_where-split r p q h js)

count_where-false :
    (p : Job → Bool) → ((j : Job) → p j ≡ false) → (js : List Job) → count_where p js ≡ 0
unfolding count_where
count_where-false p h [] = refl
count_where-false p h (j ∷ js) = ground (arith, h j, count_where-false p h js)

-- No more rows have a key of a list than the list is long.
pub count_where-elem :
    (ks : List ℕ) (js : List Job) → Distinct js → count_where (λ j. elem j.id ks) js ≤ length ks
unfolding elem
count_where-elem [] js d = omega (arith, count_where-false (λ j. elem j.id []) (λ j. refl) js)
count_where-elem (k ∷ ks) js d = omega (
  arith,
  d k,
  count_where-elem ks js d,
  count_where-split (λ j. elem j.id (k ∷ ks)) (by_id k) (λ j. elem j.id ks) (λ j h. ground arith)
      js,
)

-- What an update does to the row under a key.
pub find_job-update_jobs :
    (k : ℕ) (p : Job → Bool) (f : Job → Job)
    → ((j : Job) → (f j).id ≡ j.id)
    → (s : Store)
    → find_job k (update_jobs p f s) ≡ option_map (λ j. if p j then f j else j) (find_job k s)
unfolding find_job
find_job-update_jobs k p f same s = first-update_where (by_id k) p f (λ j. rw (same j)) s.jobs

pub find_job-by_id : (k : ℕ) (s : Store) (j : Job) → find_job k s ≡ some j → by_id k j ≡ true
unfolding find_job
find_job-by_id k s j h = first-true (by_id k) s.jobs j h

-- A row is as it was, unless it has the key.
abbrev pub Frame : ℕ → Job → Job → Type 0
Frame k a b = (b.id ≡ a.id) × (by_id k a ≡ false → b ≡ a)

pub Frame-trans : (k : ℕ) (a b c : Job) → Frame k a b → Frame k b c → Frame k a c
Frame-trans k a b c f g = (ground arith, λ other. ground (arith, f.1 other))

pub Frame-update_where :
    (k : ℕ) (p : Job → Bool) (f : Job → Job)
    → ((j : Job) → (f j).id ≡ j.id)
    → ((j : Job) → p j ≡ true → by_id k j ≡ true)
    → (js : List Job) → Each (Frame k) js (update_where p f js)
Frame-update_where k p f same key js =
    Each-update_where (Frame k) p f js (λ j hit. (same j, λ other. ground (arith, key j hit)))
      (λ j miss. (refl, λ other. refl))

pub find_job-first :
    (k : ℕ) (s : Store) (j : Job) → first (by_id k) s.jobs ≡ some j → find_job k s ≡ some j
unfolding find_job
find_job-first k s j h = h
