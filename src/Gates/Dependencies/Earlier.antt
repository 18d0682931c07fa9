-- ===== src/Gates/Dependencies/Earlier.antt =====
-- A gate waits for the built-in check and earlier gates only.
use mathlib.Core.List.{append-nil, append_assoc}
use mergetrain.Prelude.{
  ℕ, Bool, true, ◌||◌, List, [], ◌∷◌, ◌++◌, String, ◌==◌, text_column, ◌≡◌, inl, inr, refl, ap, sym,
  ◌∙◌, Bool-cases, arith, text_eq_iff, select, nat_column,
}
use mergetrain.Gates.Names.{
  has_name, Within, Within-append_left, Within-append_right, Within-trans, Within-join,
  has_name-one,
}
use mergetrain.Gates.Config.{
  Gate, is_redundant, effective_gates, needs_known, gates_checked, closed_after,
}
use mergetrain.Gates.Dependencies.{joins, add_to_stages, stages_from, Waits}

-- Each gate needs only what stands before it.
abbrev pub Known : List String → List Gate → Type 0
Known before [] = Unit
Known before (g ∷ gs) = Within g.needs before × Known (before ++ g.name ∷ []) gs

abbrev pub Earlier : List String → Waits → Type 0
Earlier before [] = Unit
Earlier before ((n, waits) ∷ more) = Within waits before × Earlier (before ++ n ∷ []) more

abbrev pub waiting_names : Waits → List String
waiting_names [] = []
waiting_names ((n, waits) ∷ more) = n ∷ waiting_names more

needs_known-Within :
    (configured needs : List String)
    → needs_known configured needs ≡ true
    → Within needs ("diff-check" ∷ configured)
unfolding needs_known has_name
needs_known-Within configured [] h n m = absurd (ground arith)
needs_known-Within configured (k ∷ ks) h n m = elim (Bool-cases (k == n)) [
  | inl same ↦
      let at : k ≡ n = (text_eq_iff k n).0 same in
      let known : k == "diff-check" || has_name k configured ≡ true = ground arith in
      let turned : (k == "diff-check") ≡ true → ("diff-check" == k) ≡ true =
        λ e. rw ((text_eq_iff k "diff-check").0 e) refl in
      rw (← at) (ground arith)
  | inr other ↦ needs_known-Within configured ks (ground arith) n (ground arith)
]

pub gates_checked-Known :
    (max_workers : ℕ) (configured closed : List String) (current : String) (gates : List Gate)
    → gates_checked max_workers configured closed current gates ≡ true
    → Known ("diff-check" ∷ configured) gates
unfolding gates_checked
gates_checked-Known max_workers configured closed current [] h = tt
gates_checked-Known max_workers configured closed current (g ∷ gs) h =
    let known : needs_known configured g.needs ≡ true = ground arith in
    (
      needs_known-Within configured g.needs known,
      gates_checked-Known max_workers (configured ++ g.name ∷ []) (closed_after current g closed)
          g.parallel_group gs (ground arith),
    )

Known-Within : (b c : List String) (gs : List Gate) → Within b c → Known b gs → Known c gs
Known-Within b c [] h k = tt
Known-Within b c (g ∷ gs) h k = (
  Within-trans g.needs b c k.0 h,
  Known-Within (b ++ g.name ∷ []) (c ++ g.name ∷ []) gs
      (Within-join b (g.name ∷ []) (c ++ g.name ∷ [])
        (Within-trans b c (c ++ g.name ∷ []) h (Within-append_left c (g.name ∷ [])))
        (Within-append_right c (g.name ∷ [])))
      k.1,
)

-- The redundant check that the plan leaves out has the built-in check's name.
redundant_name :
    (repeats : String → Bool) (g : Gate) → is_redundant repeats g ≡ true → g.name ≡ "diff-check"
unfolding is_redundant
redundant_name repeats g h = (text_eq_iff g.name "diff-check").0 (ground arith)

pub effective_gates-Known :
    (repeats : String → Bool) (before : List String) (gates : List Gate)
    → has_name "diff-check" before ≡ true
    → Known before gates
    → Known before (effective_gates repeats gates)
unfolding effective_gates select
effective_gates-Known repeats before [] h k = tt
effective_gates-Known repeats before (g ∷ gs) h k = elim (Bool-cases (is_redundant repeats g)) [
  | inl gone ↦
      let dropped : Within (g.name ∷ []) before =
        has_name-one g.name before (rw (redundant_name repeats g gone) h) in
      let rest : Known before gs =
        Known-Within (before ++ g.name ∷ []) before gs
          (Within-join before (g.name ∷ []) before (λ n m. m) dropped) k.1 in
      rw gone (effective_gates-Known repeats before gs h rest)
  | inr stays ↦
      let later : has_name "diff-check" (before ++ g.name ∷ []) ≡ true =
        Within-append_left before (g.name ∷ []) "diff-check" h in
      rw stays (k.0, effective_gates-Known repeats (before ++ g.name ∷ []) gs later k.1)
]

-- The gates of the stages, in their order
abbrev pub concat : List (List Gate) → List Gate
concat [] = []
concat (stage ∷ stages) = stage ++ concat stages

add_to_stages-concat :
    (gate : Gate) (stages : List (List Gate))
    → concat (add_to_stages gate stages) ≡ concat stages ++ gate ∷ []
unfolding add_to_stages
add_to_stages-concat gate [] = refl
add_to_stages-concat gate (stage ∷ []) = elim (Bool-cases (joins gate stage)) [
  | inl same ↦ rw (same, append-nil stage) (append-nil (stage ++ gate ∷ []))
  | inr other ↦ rw (other, append-nil stage) refl
]
add_to_stages-concat gate (stage ∷ (next ∷ more)) =
    ap (◌++◌ stage) (add_to_stages-concat gate (next ∷ more))
    ∙ sym (append_assoc stage (concat (next ∷ more)) (gate ∷ []))

pub stages_from-concat :
    (stages : List (List Gate)) (gates : List Gate)
    → concat (stages_from stages gates) ≡ concat stages ++ gates
unfolding stages_from
stages_from-concat stages [] = sym (append-nil (concat stages))
stages_from-concat stages (g ∷ gs) =
    stages_from-concat (add_to_stages g stages) gs
    ∙ ap (λ xs. xs ++ gs) (add_to_stages-concat g stages)
    ∙ append_assoc (concat stages) (g ∷ []) gs
