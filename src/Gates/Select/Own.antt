-- ===== src/Gates/Select/Own.antt =====
-- Names of selected gates: with distinct names, a gate is named among the selected ones where the
-- test holds of it.
use mergetrain.Prelude.{
  Bool, true, false, Option, none, some, List, [], ◌∷◌, ◌++◌, String, ◌==◌, text_column, map,
  if◌then◌else◌, select, ◌≡◌, inl, inr, refl, sym, Bool-cases, arith, All, text_eq_iff,
  text_eq_refl,
}
use mergetrain.Gates.Names.{has_name, has_name-append}
use mergetrain.Gates.Config.{Gate, names_of, distinct_names}
use mergetrain.Gates.Plan.{GateState, Initial, initial_of}
use mergetrain.Gates.Select.{with_state}

-- What holds of two properties of every gate
pub All-both :
    (P Q R : Gate → Type 0) (gs : List Gate)
    → ((g : Gate) → P g → Q g → R g)
    → All P gs
    → All Q gs
    → All R gs
All-both P Q R [] f ps qs = tt
All-both P Q R (g ∷ gs) f ps qs = (f g ps.0 qs.0, All-both P Q R gs f ps.1 qs.1)

has_name-select :
    (p : Gate → Bool) (n : String) (gs : List Gate)
    → has_name n (names_of (select p gs)) ≡ true
    → has_name n (names_of gs) ≡ true
unfolding has_name select
has_name-select p n [] h = h
has_name-select p n (g ∷ gs) h = ground (arith, has_name-select p n gs)

other_names :
    (n : String) (gs : List Gate)
    → has_name n (names_of gs) ≡ false
    → All (λ g. (n == g.name) ≡ false) gs
unfolding has_name
other_names n [] h = tt
other_names n (g ∷ gs) h = (
  elim (Bool-cases (n == g.name)) [
    | inl same ↦
        let at : n ≡ g.name = (text_eq_iff n g.name).0 same in
        let back : (g.name == n) ≡ true = (text_eq_iff g.name n).1 (sym at) in absurd (ground arith)
    | inr other ↦ other
  ],
  other_names n gs (ground arith),
)

pub selected_name :
    (p : Gate → Bool) (gs : List Gate)
    → distinct_names (names_of gs) ≡ true
    → All (λ g. has_name g.name (names_of (select p gs)) ≡ p g) gs
unfolding distinct_names has_name select
selected_name p [] h = tt
selected_name p (g ∷ gs) h =
    let later = selected_name p gs (ground arith) in
    let unnamed : has_name g.name (names_of gs) ≡ false = ground arith in
    let Named : Gate → Type 0 = λ k. has_name k.name (names_of (select p gs)) ≡ p k in
    let Other : Gate → Type 0 = λ k. (g.name == k.name) ≡ false in
    let Kept : Gate → Type 0 = λ k. has_name k.name (names_of (select p (g ∷ gs))) ≡ p k in
    elim (Bool-cases (p g)) [
      | inl hit ↦ (
        rw (hit, text_eq_refl g.name) refl,
        All-both Named Other Kept gs (λ k own other. rw (hit, other) own) later
            (other_names g.name gs unnamed),
      )
      | inr miss ↦ (
        rw miss (ground (arith, has_name-select p g.name gs)),
        All-both Named Other Kept gs (λ k own other. rw miss own) later
            (other_names g.name gs unnamed),
      )
    ]

pub distinct_names-append_left :
    (ns ms : List String) → distinct_names (ns ++ ms) ≡ true → distinct_names ns ≡ true
unfolding distinct_names
distinct_names-append_left [] ms h = refl
distinct_names-append_left (n ∷ ns) ms h =
    let rest : distinct_names ns ≡ true = distinct_names-append_left ns ms (ground arith) in
    ground (arith, has_name-append n ns ms)

pub distinct_names-select :
    (p : Gate → Bool) (gs : List Gate)
    → distinct_names (names_of gs) ≡ true
    → distinct_names (names_of (select p gs)) ≡ true
unfolding distinct_names select
distinct_names-select p [] h = h
distinct_names-select p (g ∷ gs) h =
    let rest : distinct_names (names_of (select p gs)) ≡ true =
      distinct_names-select p gs (ground arith) in
    elim (Bool-cases (p g)) [
      | inl hit ↦ rw hit (ground (arith, has_name-select p g.name gs))
      | inr miss ↦ rw miss rest
    ]

-- The state of a gate of a list that has one state
pub initial_of-with_state :
    (n : String) (state : GateState) (gs : List Gate)
    → initial_of n (map (with_state state) gs)
      ≡ (if has_name n (names_of gs) then some state else none)
unfolding initial_of has_name
initial_of-with_state n state [] = refl
initial_of-with_state n state (g ∷ gs) =
    let later = initial_of-with_state n state gs in
    elim (Bool-cases (g.name == n)) [ inl same ↦ rw same refl | inr other ↦ rw other later ]

abbrev pub first_state : Option GateState → Option GateState → Option GateState
first_state (some state) later = some state
first_state none later = later

pub initial_of-append :
    (n : String) (xs ys : Initial)
    → initial_of n (xs ++ ys) ≡ first_state (initial_of n xs) (initial_of n ys)
unfolding initial_of
initial_of-append n [] ys = refl
initial_of-append n ((m, state) ∷ xs) ys =
    let later = initial_of-append n xs ys in
    elim (Bool-cases (m == n)) [ inl same ↦ rw same refl | inr other ↦ rw other later ]
