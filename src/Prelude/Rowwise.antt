-- ===== src/Prelude/Rowwise.antt =====
-- Two tables row by row, and a property of every row.
use mathlib.Core.Bool.{Bool, true, false}
use mathlib.Core.Path.{◌≡◌}
use mathlib.Core.List.{List, [], ◌∷◌, map}
use mathlib.Core.Logic.{◌⊎◌, inl, inr}
use mergetrain.Prelude.Tests.{Bool-cases}
use mergetrain.Prelude.Rows.{update_where}

-- The tables have as many rows, and each row is related to the one at its place.
abbrev pub Each {ℓ} : {A : Type ℓ} → (A → A → Type 0) → List A → List A → Type 0
Each R [] [] = Unit
Each R [] (y ∷ ys) = ⊥
Each R (x ∷ xs) [] = ⊥
Each R (x ∷ xs) (y ∷ ys) = R x y × Each R xs ys

abbrev pub All {ℓ κ} : {A : Type ℓ} → (A → Type κ) → List A → Type κ
All P [] = Unit
All P (x ∷ xs) = P x × All P xs

abbrev pub Among : {A : Type 0} → A → List A → Type 0
Among x [] = ⊥
Among x (y ∷ ys) = (x ≡ y) ⊎ Among x ys

pub Each-map {ℓ} :
    {A : Type ℓ} (R : A → A → Type 0) (f : A → A) (xs : List A)
    → ((x : A) → R x (f x))
    → Each R xs (map f xs)
Each-map R f [] h = tt
Each-map R f (x ∷ xs) h = (h x, Each-map R f xs h)

pub Each-update_where {ℓ} :
    {A : Type ℓ} (R : A → A → Type 0) (p : A → Bool) (f : A → A) (xs : List A)
    → ((x : A) → p x ≡ true → R x (f x))
    → ((x : A) → p x ≡ false → R x x)
    → Each R xs (update_where p f xs)
unfolding update_where
Each-update_where R p f [] hit miss = tt
Each-update_where R p f (x ∷ xs) hit miss = elim (Bool-cases (p x)) [
  | inl e ↦ rw e (hit x e, Each-update_where R p f xs hit miss)
  | inr e ↦ rw e (miss x e, Each-update_where R p f xs hit miss)
]

pub Each-refl {ℓ} :
    {A : Type ℓ} (R : A → A → Type 0) → ((x : A) → R x x) → (xs : List A) → Each R xs xs
Each-refl R h [] = tt
Each-refl R h (x ∷ xs) = (h x, Each-refl R h xs)

pub Each-trans {ℓ} :
    {A : Type ℓ} (R : A → A → Type 0)
    → ((x y z : A) → R x y → R y z → R x z)
    → (xs ys zs : List A) → Each R xs ys
    → Each R ys zs
    → Each R xs zs
Each-trans R h [] [] [] a b = tt
Each-trans R h [] [] (z ∷ zs) a b = b
Each-trans R h [] (y ∷ ys) zs a b = absurd a
Each-trans R h (x ∷ xs) [] zs a b = absurd a
Each-trans R h (x ∷ xs) (y ∷ ys) [] a b = b
Each-trans R h (x ∷ xs) (y ∷ ys) (z ∷ zs) a b = (h x y z a.0 b.0, Each-trans R h xs ys zs a.1 b.1)
