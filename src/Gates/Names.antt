-- ===== src/Gates/Names.antt =====
-- Sets of names, as lists.
use mergetrain.Prelude.{
  Bool, true, false, ◌&&◌, ◌||◌, List, [], ◌∷◌, ◌++◌, String, ◌==◌, text_column, ◌≡◌, inl, inr,
  Bool-cases, text_eq_iff, text_eq_refl, arith, refl,
}

-- `name in names`
unfoldable pub has_name : String → List String → Bool
has_name n [] = false
has_name n (m ∷ ms) = m == n || has_name n ms

-- `set(names).issubset(others)`
unfoldable pub is_subset : List String → List String → Bool
unfolding has_name
is_subset [] ms = true
is_subset (n ∷ ns) ms = has_name n ms && is_subset ns ms

abbrev pub Within : List String → List String → Type 0
Within ns ms = (n : String) → has_name n ns ≡ true → has_name n ms ≡ true

pub has_name-append :
    (n : String) (ns ms : List String) → has_name n (ns ++ ms) ≡ has_name n ns || has_name n ms
unfolding has_name
has_name-append n [] ms = refl
has_name-append n (k ∷ ks) ms =
    let tail : has_name n (ks ++ ms) ≡ has_name n ks || has_name n ms = has_name-append n ks ms in
    ground arith

pub is_subset-Within : (ns ms : List String) → Within ns ms → is_subset ns ms ≡ true
unfolding is_subset has_name
is_subset-Within [] ms h = refl
is_subset-Within (n ∷ ns) ms h =
    let here : has_name n ms ≡ true = h n (ground (arith, text_eq_refl n)) in
    let others : is_subset ns ms ≡ true = is_subset-Within ns ms (λ k m. h k (ground arith)) in
    ground arith

pub Within-append_left : (ns ms : List String) → Within ns (ns ++ ms)
Within-append_left ns ms n h = ground (arith, has_name-append n ns ms)

pub Within-append_right : (ns ms : List String) → Within ms (ns ++ ms)
Within-append_right ns ms n h = ground (arith, has_name-append n ns ms)

pub Within-trans : (a b c : List String) → Within a b → Within b c → Within a c
Within-trans a b c f g n h = g n (f n h)

pub Within-join : (a b c : List String) → Within a c → Within b c → Within (a ++ b) c
Within-join a b c f g n h = elim (Bool-cases (has_name n a)) [
  | inl here ↦ f n here
  | inr elsewhere ↦ g n (ground (arith, has_name-append n a b))
]

pub has_name-one : (n : String) (ns : List String) → has_name n ns ≡ true → Within (n ∷ []) ns
unfolding has_name
has_name-one n ns h k m = let same : n ≡ k = (text_eq_iff n k).0 (ground arith) in rw (← same) h
