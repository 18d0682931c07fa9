-- ===== src/Jobs/Reads/Ordered.antt =====
-- The job that ordered processing takes next.
use mergetrain.Prelude.{
  ◌≡◌, ◌<◌, ◌≤◌, ◌⊎◌, inl, inr, refl, ◌∙◌, true, false, ◌&&◌, none, some, List, [], ◌∷◌, arith, All,
  Among, if◌then◌else◌, nat_column, Bool-cases,
}
use mergetrain.Model.{Job, is_active}
use mergetrain.Store.{Store}
use mergetrain.Jobs.Reads.{position, comes_before, earliest, ordered_head}

-- In the order of positions, and of ids where these are equal.
abbrev pub NotAfter : Job → Job → Type 0
NotAfter j k = (position j < position k) ⊎ ((position j ≡ position k) × (j.id ≤ k.id))

NotAfter-trans : (i j k : Job) → NotAfter i j → NotAfter j k → NotAfter i k
NotAfter-trans i j k a b = ground arith

-- The active job of the list that is after no other.
pub record IsHead (h : Job) (js : List Job) : Type 0 where
  pub active : is_active h.status ≡ true
  pub there : Among h js
  pub least : All (λ k. is_active k.status ≡ true → NotAfter h k) js

abbrev better : Job → Job → Job
better b j = if is_active j.status && comes_before j b then j else b

better-NotAfter :
    (b j : Job) → NotAfter (better b j) b × (is_active j.status ≡ true → NotAfter (better b j) j)
better-NotAfter b j = ground arith

better_one : (b j : Job) → (better b j ≡ b) ⊎ (better b j ≡ j)
better_one b j = elim (Bool-cases (is_active j.status && comes_before j b)) [
  | inl sooner ↦ inr (rw sooner refl)
  | inr later ↦ inl (rw later refl)
]

better-Among : (b j h : Job) (js : List Job) → Among h (better b j ∷ js) → Among h (b ∷ j ∷ js)
better-Among b j h js (inr later) = inr (inr later)
better-Among b j h js (inl first) = elim (better_one b j) [
  | inl same ↦ inl (first ∙ same)
  | inr other ↦ inr (inl (first ∙ other))
]

earliest-IsHead :
    (b : Job) (js : List Job)
    → is_active b.status ≡ true
    → (h : Job) × (earliest (some b) js ≡ some h) × IsHead h (b ∷ js)
unfolding earliest
earliest-IsHead b [] active =
    (b, refl, record { active = active; there = inl refl; least = ((λ a. ground arith), tt) })
earliest-IsHead b (j ∷ js) active =
    let still : is_active (better b j).status ≡ true = ground arith in
    let (h, found, head) = earliest-IsHead (better b j) js still in
    (
      h,
      found,
      record {
        active = head.active;
        there = better-Among b j h js head.there;
        least = (
          (λ a. NotAfter-trans h (better b j) b (head.least.0 still) (better-NotAfter b j).0),
          (
            (λ a. NotAfter-trans h (better b j) j (head.least.0 still) ((better-NotAfter b j).1 a)),
            head.least.1,
          ),
        );
      },
    )

earliest_cases :
    (js : List Job)
    → ((earliest none js ≡ none) × All (λ k. is_active k.status ≡ false) js)
      ⊎ ((h : Job) × (earliest none js ≡ some h) × IsHead h js)
unfolding earliest
earliest_cases [] = inl (refl, tt)
earliest_cases (j ∷ js) = elim (Bool-cases (is_active j.status)) [
  | inl active ↦ rw active (inr (earliest-IsHead j js active))
  | inr idle ↦ rw idle (elim (earliest_cases js) [
    | inl (empty, rest) ↦ inl (empty, (refl, rest))
    | inr (h, found, head) ↦ inr (
      h,
      found,
      record {
        active = head.active;
        there = inr head.there;
        least = ((λ a. ground arith), head.least);
      },
    )
  ])
]

-- Ordered processing finds no job exactly where no job is active, and otherwise an active job of the
-- table with no active job before it, by position and, where positions are equal, by id.
pub ordered_head_cases :
    (s : Store)
    → ((ordered_head s ≡ none) × All (λ k. is_active k.status ≡ false) s.jobs)
      ⊎ ((h : Job) × (ordered_head s ≡ some h) × IsHead h s.jobs)
unfolding ordered_head
ordered_head_cases s = earliest_cases s.jobs
