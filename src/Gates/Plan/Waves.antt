-- ===== src/Gates/Plan/Waves.antt =====
-- One wave: which gates are in it, and what is left after it.
use mergetrain.Prelude.{
  ℕ, ◌+◌, ◌≤◌, ◌<◌, Bool, true, false, not, some, List, [], ◌∷◌, String, ◌==◌, text_column,
  nat_column, ltb, leb, nonempty, select, length, ◌≡◌, inl, inr, refl, Bool-cases, arith,
  text_eq_iff, text_eq_refl, All,
}
use mergetrain.Gates.Names.{has_name, is_subset}
use mergetrain.Gates.Config.{Gate, names_of, none_of}
use mergetrain.Gates.Dependencies.{Waits, waits_of}
use mergetrain.Gates.Plan.{ready, candidates, fill, next_wave, without}

pub select-All :
    {A : Type 0} (P : A → Type 0) (p : A → Bool) (xs : List A) → All P xs → All P (select p xs)
unfolding select
select-All P p [] h = tt
select-All P p (x ∷ xs) h = elim (Bool-cases (p x)) [
  | inl hit ↦ rw hit (h.0, select-All P p xs h.1)
  | inr miss ↦ rw miss (select-All P p xs h.1)
]

pub select-holds : {A : Type 0} (p : A → Bool) (xs : List A) → All (λ x. p x ≡ true) (select p xs)
unfolding select
select-holds p [] = tt
select-holds p (x ∷ xs) = elim (Bool-cases (p x)) [
  | inl hit ↦ rw hit (hit, select-holds p xs)
  | inr miss ↦ rw miss (select-holds p xs)
]

pub length-select : {A : Type 0} (p : A → Bool) (xs : List A) → length (select p xs) ≤ length xs
unfolding select
length-select p [] = omega arith
length-select p (x ∷ xs) = ground (arith, length-select p xs)

-- The gates of a wave are candidates, and the candidates are ready.
pub fill-All :
    (P : Gate → Type 0) (max_workers used : ℕ) (gs : List Gate)
    → All P gs
    → All P (fill max_workers used gs)
unfolding fill
fill-All P max_workers used [] h = tt
fill-All P max_workers used (g ∷ gs) h = elim (Bool-cases (ltb max_workers (used + g.workers))) [
  | inl over ↦ rw (fill, over) (fill-All P max_workers used gs h.1)
  | inr fits ↦ rw (fill, fits) (h.0, fill-All P max_workers (used + g.workers) gs h.1)
]

candidates-All :
    (P : Gate → Type 0) (g : Gate) (gs : List Gate) → P g → All P gs → All P (candidates g gs)
unfolding candidates
candidates-All P g gs p h = elim (Bool-cases (nonempty g.parallel_group)) [
  | inl grouped ↦ rw grouped (select-All P (λ k. k.parallel_group == g.parallel_group) gs h)
  | inr alone ↦ rw alone (p, tt)
]

pub next_wave-All :
    (P : Gate → Type 0) (max_workers : ℕ) (gs : List Gate) {name : String} {selected : List Gate}
    → All P gs
    → next_wave max_workers gs ≡ some (name, selected)
    → All P selected
unfolding next_wave
next_wave-All P max_workers [] h e = absurd (ground arith)
next_wave-All P max_workers (g ∷ gs) {name} {selected} h e =
    let at : selected ≡ fill max_workers 0 (candidates g (g ∷ gs)) = ground arith in
    rw at (fill-All P max_workers 0 (candidates g (g ∷ gs)) (candidates-All P g (g ∷ gs) h.0 h))

-- A name that is ready
ready_name :
    (ws : Waits) (completed : List String) (n : String) (pending : List Gate)
    → has_name n (names_of pending) ≡ true
    → is_subset (waits_of ws n) completed ≡ true
    → none_of (ready ws completed pending) ≡ false
unfolding ready select has_name
ready_name ws completed n [] h able = absurd (ground arith)
ready_name ws completed n (g ∷ gs) h able =
    elim (Bool-cases (is_subset (waits_of ws g.name) completed)) [
      | inl hit ↦ rw hit refl
      | inr miss ↦
          let other : (g.name == n) ≡ false = elim (Bool-cases (g.name == n)) [
            | inl same ↦
                let at : g.name ≡ n = (text_eq_iff g.name n).0 same in
                let here : is_subset (waits_of ws g.name) completed ≡ true = rw at able in
                absurd (ground arith)
            | inr other ↦ other
          ] in
          rw miss (ready_name ws completed n gs (ground arith) able)
    ]

some_wave :
    (max_workers : ℕ) (gs : List Gate)
    → none_of gs ≡ false
    → (name : String) × (selected : List Gate) × (next_wave max_workers gs ≡ some (name, selected))
unfolding next_wave
some_wave max_workers [] e = absurd (ground arith)
some_wave max_workers (g ∷ gs) e = (g.name, fill max_workers 0 (candidates g (g ∷ gs)), refl)

pub next_wave-some :
    (ws : Waits) (completed : List String) (n : String) (pending : List Gate) (max_workers : ℕ)
    → has_name n (names_of pending) ≡ true
    → is_subset (waits_of ws n) completed ≡ true
    → (name : String) × (selected : List Gate) × (next_wave max_workers (ready ws completed pending)
        ≡ some (name, selected))
next_wave-some ws completed n pending max_workers h able =
    some_wave max_workers (ready ws completed pending) (ready_name ws completed n pending h able)

candidates_head :
    (g : Gate) (gs : List Gate) → (more : List Gate) × (candidates g (g ∷ gs) ≡ g ∷ more)
unfolding candidates select
candidates_head g gs = elim (Bool-cases (nonempty g.parallel_group)) [
  | inl grouped ↦ (
    select (λ k. k.parallel_group == g.parallel_group) gs,
    rw (grouped, text_eq_refl g.parallel_group) refl,
  )
  | inr alone ↦ ([], rw alone refl)
]

fill-head :
    (max_workers : ℕ) (g : Gate) (gs : List Gate)
    → leb g.workers max_workers ≡ true
    → none_of (fill max_workers 0 (g ∷ gs)) ≡ false
unfolding fill
fill-head max_workers g gs h =
    let fits : ltb max_workers (0 + g.workers) ≡ false = ground arith in rw (fill, fits) refl

-- The first gate of a wave that fits is in it.
pub next_wave-nonempty :
    (max_workers : ℕ) (gs : List Gate) {name : String} {selected : List Gate}
    → All (λ g. leb g.workers max_workers ≡ true) gs
    → next_wave max_workers gs ≡ some (name, selected)
    → none_of selected ≡ false
unfolding next_wave
next_wave-nonempty max_workers [] h e = absurd (ground arith)
next_wave-nonempty max_workers (g ∷ gs) {name} {selected} h e =
    let at : selected ≡ fill max_workers 0 (candidates g (g ∷ gs)) = ground arith in
    let (more, head) = candidates_head g gs in rw (at, head) (fill-head max_workers g more h.0)

-- A wave with a gate that was pending leaves fewer.
select-shorter :
    (p : String → Bool) (n : String) (gs : List Gate)
    → has_name n (names_of gs) ≡ true
    → p n ≡ false
    → length (select (λ g. p g.name) gs) < length gs
unfolding select has_name
select-shorter p n [] h miss = absurd (ground arith)
select-shorter p n (g ∷ gs) h miss = elim (Bool-cases (g.name == n)) [
  | inl same ↦
      let gone : p g.name ≡ false = rw ((text_eq_iff g.name n).0 same) miss in
      rw gone (omega (arith, length-select (λ k. p k.name) gs))
  | inr other ↦ let shorter = select-shorter p n gs (ground arith) miss in ground (arith, shorter)
]

pub without-shorter :
    (selected pending : List Gate)
    → none_of selected ≡ false
    → All (λ g. has_name g.name (names_of pending) ≡ true) selected
    → length (without selected pending) < length pending
unfolding without has_name
without-shorter [] pending e h = absurd (ground arith)
without-shorter (g ∷ gs) pending e h =
    select-shorter (λ n. not (has_name n (names_of (g ∷ gs)))) g.name pending h.0
      (ground (arith, text_eq_refl g.name))

-- What a wave does not run stays pending.
pub without-name :
    (selected : List Gate) (n : String) (pending : List Gate)
    → has_name n (names_of selected) ≡ false
    → has_name n (names_of pending) ≡ true
    → has_name n (names_of (without selected pending)) ≡ true
unfolding without select has_name
without-name selected n [] miss h = absurd (ground arith)
without-name selected n (g ∷ gs) miss h = elim (Bool-cases (g.name == n)) [
  | inl same ↦
      let stays : has_name g.name (names_of selected) ≡ false =
        rw ((text_eq_iff g.name n).0 same) miss in
      rw stays (ground arith)
  | inr other ↦
      let later : has_name n (names_of (without selected gs)) ≡ true =
        without-name selected n gs miss (ground arith) in
      elim (Bool-cases (has_name g.name (names_of selected))) [
        | inl ran ↦ rw ran later
        | inr stays ↦ rw stays (ground arith)
      ]
]

pub own_names : (gs : List Gate) → All (λ g. has_name g.name (names_of gs) ≡ true) gs
unfolding has_name
own_names [] = tt
own_names (g ∷ gs) = (ground (arith, text_eq_refl g.name), widen gs g.name (own_names gs))
  where
    widen :
        (hs : List Gate) (n : String)
        → All (λ k. has_name k.name (names_of gs) ≡ true) hs
        → All (λ k. has_name k.name (n ∷ names_of gs) ≡ true) hs
    widen [] n h = tt
    widen (k ∷ ks) n h = (ground arith, widen ks n h.1)
