-- ===== src/Reuse/Rows/Sets.antt =====
-- Columns with one value: what a set of one element says of the rows.
use mergetrain.Prelude.{
  ℕ, true, false, List, [], ◌∷◌, String, nonempty, if◌then◌else◌, length, map, select, text_column,
  nat_column, ◌≡◌, ◌⊎◌, inl, inr, refl, ap, sym, ◌∙◌, subst, Bool-cases, arith, All,
}
use mergetrain.Model.{Job}
use mergetrain.Paths.Status.{distinct_texts}
use mergetrain.Gates.Config.{none_of}
use mergetrain.Gates.Plan.Waves.{select-All, select-holds}
use mergetrain.Reuse.Rows.{
  all_values, values_of, is_one, only_text, first_of, first_size, is_shared, is_whole_train,
}
use mergetrain.Reuse.Rows.Distinct.{
  one_value, head_or, distinct, one-distinct, distinct_texts-distinct, dedup-distinct,
}

one-distinct_texts :
    (xs : List String) → is_one (distinct_texts xs) ≡ true → All (λ y. y ≡ head_or "" xs) xs
one-distinct_texts xs h =
    one-distinct "" xs (subst (λ ys. is_one ys ≡ true) (distinct_texts-distinct xs) h)

only-distinct_texts :
    (xs : List String)
    → is_one (distinct_texts xs) ≡ true
    → only_text (distinct_texts xs) ≡ head_or "" xs
unfolding distinct_texts
only-distinct_texts [] h = refl
only-distinct_texts (x ∷ xs) h =
    let (y, e) = one_value (distinct_texts (x ∷ xs)) h in
    ap (λ ys. only_text ys) e ∙ ap (λ ys. head_or "" ys) (sym e)

some_head :
    (xs : List String)
    → is_one (distinct_texts xs) ≡ true
    → (x : String) × (rest : List String) × (xs ≡ x ∷ rest)
unfolding distinct_texts
some_head [] h = absurd (ground arith)
some_head (x ∷ xs) h = (x, xs, refl)

All-map :
    {A B : Type 0} (P : B → Type 0) (f : A → B) (xs : List A)
    → All P (map f xs)
    → All (λ x. P (f x)) xs
All-map P f [] h = tt
All-map P f (x ∷ xs) h = (h.0, All-map P f xs h.1)

empty_text : (s : String) → nonempty s ≡ false → s ≡ ""
empty_text String.[] h = refl
empty_text (String.◌∷◌ c s) h = absurd (ground arith)

kept_values :
    (column : Job → String) (v : String) (jobs : List Job)
    → All (λ s. s ≡ v) (select nonempty (map column jobs))
    → All (λ j. (column j ≡ v) ⊎ (column j ≡ "")) jobs
unfolding select
kept_values column v [] h = tt
kept_values column v (j ∷ js) h = elim (Bool-cases (nonempty (column j))) [
  | inl set ↦
      let both : All (λ s. s ≡ v) (column j ∷ select nonempty (map column js)) =
        subst
          (λ b.
            All (λ s. s ≡ v)
              (if b
                then column j ∷ select nonempty (map column js)
                else select nonempty (map column js)))
          set h in
      (inl both.0, kept_values column v js both.1)
  | inr unset ↦
      let rest : All (λ s. s ≡ v) (select nonempty (map column js)) =
        subst
          (λ b.
            All (λ s. s ≡ v)
              (if b
                then column j ∷ select nonempty (map column js)
                else select nonempty (map column js)))
          unset h in
      (inr (empty_text (column j) unset), kept_values column v js rest)
]

-- The column has this value in each job that has it set.
abbrev pub Agree : (Job → String) → String → List Job → Type 0
Agree column v jobs = All (λ j. (column j ≡ v) ⊎ (column j ≡ "")) jobs

first_holds : (x v : String) (xs rest : List String) → xs ≡ x ∷ rest → All (λ s. s ≡ v) xs → x ≡ v
first_holds x v xs rest e h = (subst (λ ys. All (λ s. s ≡ v) ys) e h).0

nonempty_head :
    (xs : List String)
    → is_one (distinct_texts (select nonempty xs)) ≡ true
    → nonempty (head_or "" (select nonempty xs)) ≡ true
nonempty_head xs h =
    let (x, rest, e) = some_head (select nonempty xs) h in
    let set : All (λ s. nonempty s ≡ true) (x ∷ rest) =
      subst (λ ys. All (λ s. nonempty s ≡ true) ys) e (select-holds nonempty xs) in
    subst (λ ys. nonempty (head_or "" ys) ≡ true) (sym e) set.0

pub values_of-Agree :
    (column : Job → String) (jobs : List Job)
    → is_one (values_of column jobs) ≡ true
    → (nonempty (only_text (values_of column jobs)) ≡ true)
      × Agree column (only_text (values_of column jobs)) jobs
unfolding values_of
values_of-Agree column jobs h =
    let kept : List String = select nonempty (map column jobs) in
    let only = only-distinct_texts kept h in
    (
      ap nonempty only ∙ nonempty_head (map column jobs) h,
      subst (λ v. Agree column v jobs) (sym only)
          (kept_values column (head_or "" kept) jobs (one-distinct_texts kept h)),
    )

as_long :
    {A B : Type 0} (xs : List A) (ys : List B)
    → is_one xs ≡ true
    → length xs ≡ length ys
    → is_one ys ≡ true
as_long xs [] h e = let (x, at) = one_value xs h in absurd (ground (arith, ap length at))
as_long xs (y ∷ []) h e = refl
as_long xs (y ∷ (z ∷ zs)) h e =
    let (x, at) = one_value xs h in absurd (ground (arith, ap length at))

head_of-map :
    (column : Job → String) (jobs : List Job) → head_or "" (map column jobs) ≡ first_of column jobs
head_of-map column [] = refl
head_of-map column (j ∷ js) = refl

-- The jobs share the column, and it is not empty.
abbrev pub Shared : (Job → String) → List Job → Type 0
Shared column jobs =
    (nonempty (first_of column jobs) ≡ true) × All (λ j. column j ≡ first_of column jobs) jobs

pub is_shared-Shared :
    (column : Job → String) (jobs : List Job) → is_shared column jobs ≡ true → Shared column jobs
unfolding is_shared values_of all_values
is_shared-Shared column jobs h =
    let texts : List String = map column jobs in
    let one : is_one (distinct_texts (select nonempty texts)) ≡ true = ground arith in
    let lengths : length (distinct_texts (select nonempty texts)) ≡ length (distinct_texts texts) =
      ground arith in
    let all : All (λ s. s ≡ first_of column jobs) texts =
      subst (λ v. All (λ s. s ≡ v) texts) (head_of-map column jobs)
        (one-distinct_texts texts
          (as_long (distinct_texts (select nonempty texts)) (distinct_texts texts) one lengths)) in
    let (x, rest, e) = some_head (select nonempty texts) one in
    let same : x ≡ first_of column jobs =
      first_holds x (first_of column jobs) (select nonempty texts) rest e
        (select-All (λ s. s ≡ first_of column jobs) nonempty texts all) in
    let set : nonempty x ≡ true =
      subst (λ ys. nonempty (head_or "" ys) ≡ true) e (nonempty_head texts one) in
    (
      subst (λ s. nonempty s ≡ true) same set,
      All-map (λ s. s ≡ first_of column jobs) column jobs all,
    )

first_is :
    (n : ℕ) (jobs : List Job)
    → none_of jobs ≡ false
    → head_or n (map (λ j. j.train_size) jobs) ≡ first_size jobs
first_is n [] h = absurd (ground arith)
first_is n (j ∷ js) h = refl

All-to :
    {A : Type 0} (f : A → ℕ) (m n : ℕ) (xs : List A)
    → m ≡ n
    → All (λ x. f x ≡ m) xs
    → All (λ x. f x ≡ n) xs
All-to f m n xs e h = subst (λ k. All (λ x. f x ≡ k) xs) e h

pub is_whole_train-All :
    (jobs : List Job) → is_whole_train jobs ≡ true → All (λ j. j.train_size ≡ length jobs) jobs
unfolding is_whole_train
is_whole_train-All jobs h =
    let sizes : List ℕ = map (λ j. j.train_size) jobs in
    let one : is_one (distinct sizes) ≡ true =
      subst (λ ns. is_one ns ≡ true) (dedup-distinct sizes) (ground arith) in
    let some_job : none_of jobs ≡ false = ground arith in
    let size : first_size jobs ≡ length jobs = ground arith in
    All-to (λ j. j.train_size) (head_or 0 sizes) (length jobs) jobs
      (first_is 0 jobs some_job ∙ size)
      (All-map (λ n. n ≡ head_or 0 sizes) (λ j. j.train_size) jobs (one-distinct 0 sizes one))
