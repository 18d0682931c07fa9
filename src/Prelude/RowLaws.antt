-- ===== src/Prelude/RowLaws.antt =====
-- Laws of the table statements.
use Prim.Native.Nat.{◌+◌, ◌≤◌}
use mathlib.Core.Path.{◌≡◌, refl}
use mathlib.Core.Bool.{Bool, true}
use mathlib.Core.Option.{Option, none, some}
use mathlib.Core.List.{List, [], ◌∷◌, ◌++◌}
use native.Mathlib.Omega.{arith}
use mergetrain.Prelude.Tests.{if◌then◌else◌, ltb}
use mergetrain.Prelude.Rows.{select, first, count_where, update_where, exists_where, length}

abbrev pub or_else {ℓ} : {A : Type ℓ} → Option A → Option A → Option A
or_else none o = o
or_else (some a) o = some a

abbrev pub option_map {ℓ κ} : {A : Type ℓ} {B : Type κ} → (A → B) → Option A → Option B
option_map f none = none
option_map f (some a) = some (f a)

module _ {ℓ} {A : Type ℓ} (p : A → Bool) where
  pub count_where-append :
      (xs ys : List A) → count_where p (xs ++ ys) ≡ count_where p xs + count_where p ys
  unfolding count_where
  count_where-append [] ys = omega arith
  count_where-append (x ∷ xs) ys = ground (arith, count_where-append xs ys)

  pub count_where-none : (xs : List A) → first p xs ≡ none → count_where p xs ≡ 0
  unfolding count_where first
  count_where-none [] h = refl
  count_where-none (x ∷ xs) h = ground (arith, count_where-none xs)

  pub first-true : (xs : List A) (x : A) → first p xs ≡ some x → p x ≡ true
  unfolding first
  first-true [] x h = cc
  first-true (y ∷ ys) x h = ground (arith, first-true ys x)

  pub update_where-none : (f : A → A) (xs : List A) → first p xs ≡ none → update_where p f xs ≡ xs
  unfolding first update_where
  update_where-none f [] h = refl
  update_where-none f (x ∷ xs) h = ground (arith, update_where-none f xs)

  pub update_where-count_where :
      (f : A → A) (xs : List A) → count_where p xs ≡ 0 → update_where p f xs ≡ xs
  unfolding count_where update_where
  update_where-count_where f [] h = refl
  update_where-count_where f (x ∷ xs) h = ground (arith, update_where-count_where f xs)

  pub first-append : (xs ys : List A) → first p (xs ++ ys) ≡ or_else (first p xs) (first p ys)
  unfolding first
  first-append [] ys = refl
  first-append (x ∷ xs) ys = ground (arith, first-append xs ys)

  pub exists_where-count_where : (xs : List A) → exists_where p xs ≡ ltb 0 (count_where p xs)
  unfolding exists_where count_where
  exists_where-count_where [] = refl
  exists_where-count_where (x ∷ xs) = ground (arith, exists_where-count_where xs)

  pub length-select : (xs : List A) → length (select p xs) ≡ count_where p xs
  unfolding select count_where
  length-select [] = refl
  length-select (x ∷ xs) = ground (arith, length-select xs)

module _ {ℓ} {A : Type ℓ} (q p : A → Bool) (f : A → A) where
  -- An update of rows that does not make the test true makes it true of no more rows.
  pub count_where-update_where_le :
      ((x : A) → p x ≡ true → q (f x) ≡ true → q x ≡ true)
      → (xs : List A) → count_where q (update_where p f xs) ≤ count_where q xs
  unfolding count_where update_where
  count_where-update_where_le keep [] = omega arith
  count_where-update_where_le keep (x ∷ xs) =
      ground (arith, keep x, count_where-update_where_le keep xs)

  -- A test that the update does not touch finds the same row, updated.
  pub first-update_where :
      ((x : A) → q (f x) ≡ q x)
      → (xs : List A)
      → first q (update_where p f xs) ≡ option_map (λ x. if p x then f x else x) (first q xs)
  unfolding first update_where
  first-update_where same [] = refl
  first-update_where same (x ∷ xs) = ground (arith, same x, first-update_where same xs)

  pub count_where-update_where :
      ((x : A) → q (f x) ≡ q x)
      → (xs : List A) → count_where q (update_where p f xs) ≡ count_where q xs
  unfolding count_where update_where
  count_where-update_where same [] = refl
  count_where-update_where same (x ∷ xs) = ground (arith, same x, count_where-update_where same xs)

pub update_where-append {ℓ} :
    {A : Type ℓ} (p : A → Bool) (f : A → A) (xs ys : List A)
    → update_where p f (xs ++ ys) ≡ update_where p f xs ++ update_where p f ys
unfolding update_where
update_where-append p f [] ys = refl
update_where-append p f (x ∷ xs) ys = ground (arith, update_where-append p f xs ys)
