-- ===== src/Reuse/Rows/Distinct.antt =====
-- Lists without repetition, and what one of length one says.
use mergetrain.Prelude.{
  ℕ, Bool, true, not, List, [], ◌∷◌, String, select, dedup, ◌==◌, Column, text_column, nat_column,
  ◌≡◌, inl, inr, refl, ap, sym, subst, Bool-cases, arith, All,
}
use mergetrain.Paths.Status.{distinct_texts}
use mergetrain.Gates.Config.{none_of}
use mergetrain.Reuse.Rows.{is_one}

pub one_value : {A : Type 0} (xs : List A) → is_one xs ≡ true → (x : A) × (xs ≡ x ∷ [])
one_value [] h = absurd (ground arith)
one_value (x ∷ []) h = (x, refl)
one_value (x ∷ (y ∷ ys)) h = absurd (ground arith)

abbrev pub head_or : {A : Type 0} → A → List A → A
head_or z [] = z
head_or z (x ∷ xs) = x

pub one_rest : {A : Type 0} (x : A) (xs : List A) → is_one (x ∷ xs) ≡ true → none_of xs ≡ true
one_rest x [] h = refl
one_rest x (y ∷ ys) h = absurd (ground arith)

module _ {A : Type 0} ⦃c : Column A⦄ where
  pub distinct : List A → List A
  distinct [] = []
  distinct (x ∷ xs) = x ∷ select (λ y. not (x == y)) (distinct xs)

  select-twice : (p : A → Bool) (xs : List A) → select p (select p xs) ≡ select p xs
  unfolding select
  select-twice p [] = refl
  select-twice p (x ∷ xs) = elim (Bool-cases (p x)) [
    | inl hit ↦ rw (hit, hit) (ap (λ ys. x ∷ ys) (select-twice p xs))
    | inr miss ↦ rw miss (select-twice p xs)
  ]

  no_other :
      (x : A) (xs : List A)
      → none_of (select (λ y. not (x == y)) (distinct xs)) ≡ true
      → All (λ y. y ≡ x) xs
  unfolding distinct select
  no_other x [] h = tt
  no_other x (y ∷ ys) h = elim (Bool-cases (x == y)) [
    | inl same ↦
        let at : x ≡ y = (c.same_iff x y).0 same in
        let left : none_of (select (λ z. not (x == z)) (select (λ z. not (y == z)) (distinct ys)))
            ≡ true =
          ground (arith, same) in
        let again : none_of (select (λ z. not (x == z)) (select (λ z. not (x == z)) (distinct ys)))
            ≡ true =
          subst
            (λ k.
              none_of (select (λ z. not (x == z)) (select (λ z. not (k == z)) (distinct ys)))
              ≡ true)
            (sym at) left in
        (
          sym at,
          no_other x ys (
              subst (λ zs. none_of zs ≡ true) (select-twice (λ z. not (x == z)) (distinct ys))
                again),
        )
    | inr other ↦ absurd (ground (arith, other))
  ]

  pub one-distinct :
      (z : A) (xs : List A) → is_one (distinct xs) ≡ true → All (λ y. y ≡ head_or z xs) xs
  unfolding distinct
  one-distinct z [] h = tt
  one-distinct z (x ∷ xs) h = (refl, no_other x xs (one_rest x _ h))

pub distinct_texts-distinct : (xs : List String) → distinct_texts xs ≡ distinct xs
unfolding distinct_texts distinct
distinct_texts-distinct [] = refl
distinct_texts-distinct (x ∷ xs) =
    ap (λ ys. x ∷ select (λ y. not (x == y)) ys) (distinct_texts-distinct xs)

pub dedup-distinct : (ns : List ℕ) → dedup ns ≡ distinct ns
unfolding dedup distinct
dedup-distinct [] = refl
dedup-distinct (n ∷ ns) = ap (λ ms. n ∷ select (λ m. not (n == m)) ms) (dedup-distinct ns)
