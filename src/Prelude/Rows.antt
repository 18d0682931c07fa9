-- ===== src/Prelude/Rows.antt =====
-- The statements of SQL that the store uses, over a table as a list of rows in the order of `id`.
use Prim.Native.Nat.{ℕ, zero, suc}
use mathlib.Core.Bool.{Bool, false, not, ◌||◌}
use mathlib.Core.Option.{Option, none, some}
use mathlib.Core.List.{List, [], ◌∷◌}
use mergetrain.Prelude.Tests.{if◌then◌else◌, nat_eq}

module _ {ℓ} {A : Type ℓ} where
  abbrev pub length : List A → ℕ
  length [] = 0
  length (_ ∷ xs) = suc (length xs)

  -- SELECT * ... WHERE p ORDER BY id ASC
  unfoldable pub select : (A → Bool) → List A → List A
  select p [] = []
  select p (x ∷ xs) = let rest = select p xs in if p x then x ∷ rest else rest

  -- SELECT ... WHERE p ORDER BY id ASC LIMIT 1
  unfoldable pub first : (A → Bool) → List A → Option A
  first p [] = none
  first p (x ∷ xs) = if p x then some x else first p xs

  -- SELECT COUNT(*) ... WHERE p, and the `rowcount` of an UPDATE
  unfoldable pub count_where : (A → Bool) → List A → ℕ
  count_where p [] = 0
  count_where p (x ∷ xs) = let rest = count_where p xs in if p x then suc rest else rest

  -- UPDATE ... SET f WHERE p
  unfoldable pub update_where : (A → Bool) → (A → A) → List A → List A
  update_where p f [] = []
  update_where p f (x ∷ xs) = (if p x then f x else x) ∷ update_where p f xs

  -- EXISTS (SELECT 1 ... WHERE p)
  unfoldable pub exists_where : (A → Bool) → List A → Bool
  exists_where p [] = false
  exists_where p (x ∷ xs) = p x || exists_where p xs

  -- LIMIT n
  abbrev pub take : ℕ → List A → List A
  take zero xs = []
  take (suc n) [] = []
  take (suc n) (x ∷ xs) = x ∷ take n xs

-- `id IN (...)`
unfoldable pub elem : ℕ → List ℕ → Bool
elem k [] = false
elem k (n ∷ ns) = nat_eq n k || elem k ns

-- `list(dict.fromkeys(ids))`: the ids without repetition, in the order of their first places.
unfoldable pub dedup : List ℕ → List ℕ
unfolding elem select
dedup [] = []
dedup (n ∷ ns) = n ∷ select (λ m. not (nat_eq n m)) (dedup ns)
