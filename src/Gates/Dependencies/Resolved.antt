-- ===== src/Gates/Dependencies/Resolved.antt =====
-- The resolved dependencies of a plan: each gate waits for earlier ones, and some gate that is not
-- completed waits for completed ones only.
use mathlib.Core.List.{append-nil, append_assoc}
use mergetrain.Prelude.{
  true, false, List, [], ◌∷◌, ◌++◌, String, ◌==◌, text_column, ◌≡◌, ◌⊎◌, inl, inr, refl, ap, sym,
  ◌∙◌, subst, Bool-cases, arith, text_eq_iff, text_eq_refl, nat_column,
}
use mergetrain.Gates.Names.{
  has_name, Within, Within-append_left, Within-append_right, Within-trans, Within-join,
  has_name-one,
}
use mergetrain.Gates.Config.{Gate, names_of}
use mergetrain.Gates.Dependencies.{
  stages_from, waits_for, Waits, stage_waits, waits_from, gate_dependencies, waits_of,
}
use mergetrain.Gates.Dependencies.Earlier.{
  Known, Earlier, waiting_names, concat, stages_from-concat,
}

waits_for-Within :
    (needs prior before : List String)
    → Within prior before
    → Within needs before
    → Within (waits_for needs prior) before
waits_for-Within [] prior before p n = p
waits_for-Within (k ∷ ks) prior before p n = n

pub names_of-append : (xs ys : List Gate) → names_of (xs ++ ys) ≡ names_of xs ++ names_of ys
names_of-append [] ys = refl
names_of-append (x ∷ xs) ys = ap (◌∷◌ x.name) (names_of-append xs ys)

-- From the names before a list to those after it
shift :
    (P : List String → Type 0) (before : List String) (n : String) (ns : List String)
    → P ((before ++ n ∷ []) ++ ns)
    → P (before ++ n ∷ ns)
shift P before n ns p = subst P (append_assoc before (n ∷ []) ns) p

Known-split :
    (before : List String) (xs ys : List Gate)
    → Known before (xs ++ ys)
    → Known before xs × Known (before ++ names_of xs) ys
Known-split before [] ys k = (tt, subst (λ b. Known b ys) (sym (append-nil before)) k)
Known-split before (x ∷ xs) ys k =
    let (here, later) = Known-split (before ++ x.name ∷ []) xs ys k.1 in
    ((k.0, here), shift (λ b. Known b ys) before x.name (names_of xs) later)

Earlier-join :
    (before : List String) (xs ys : Waits)
    → Earlier before xs
    → Earlier (before ++ waiting_names xs) ys
    → Earlier before (xs ++ ys)
Earlier-join before [] ys h k = subst (λ b. Earlier b ys) (append-nil before) k
Earlier-join before ((n, waits) ∷ more) ys h k = (
  h.0,
  Earlier-join (before ++ n ∷ []) more ys h.1
      (subst (λ b. Earlier b ys) (sym (append_assoc before (n ∷ []) (waiting_names more))) k),
)

stage_waits-names :
    (prior : List String) (gs : List Gate) → waiting_names (stage_waits prior gs) ≡ names_of gs
unfolding stage_waits
stage_waits-names prior [] = refl
stage_waits-names prior (g ∷ gs) = ap (◌∷◌ g.name) (stage_waits-names prior gs)

stage_waits-Earlier :
    (prior before : List String) (gs : List Gate)
    → Within prior before
    → Known before gs
    → Earlier before (stage_waits prior gs)
unfolding stage_waits
stage_waits-Earlier prior before [] p k = tt
stage_waits-Earlier prior before (g ∷ gs) p k = (
  waits_for-Within g.needs prior before p k.0,
  stage_waits-Earlier prior (before ++ g.name ∷ []) gs
      (Within-trans prior before (before ++ g.name ∷ []) p
        (Within-append_left before (g.name ∷ [])))
      k.1,
)

waits_from-Earlier :
    (prior before : List String) (stages : List (List Gate))
    → Within prior before
    → Known before (concat stages)
    → Earlier before (waits_from prior stages)
unfolding waits_from
waits_from-Earlier prior before [] p k = tt
waits_from-Earlier prior before (stage ∷ stages) p k =
    let (here, later) = Known-split before stage (concat stages) k in
    Earlier-join before (stage_waits prior stage) (waits_from (names_of stage) stages)
      (stage_waits-Earlier prior before stage p here)
      (subst (λ ns. Earlier (before ++ ns) (waits_from (names_of stage) stages))
        (sym (stage_waits-names prior stage))
        (waits_from-Earlier (names_of stage) (before ++ names_of stage) stages
          (Within-append_right before (names_of stage)) later))

waiting_names-append :
    (xs ys : Waits) → waiting_names (xs ++ ys) ≡ waiting_names xs ++ waiting_names ys
waiting_names-append [] ys = refl
waiting_names-append ((n, waits) ∷ more) ys = ap (◌∷◌ n) (waiting_names-append more ys)

waits_from-names :
    (prior : List String) (stages : List (List Gate))
    → waiting_names (waits_from prior stages) ≡ names_of (concat stages)
unfolding waits_from
waits_from-names prior [] = refl
waits_from-names prior (stage ∷ stages) =
    waiting_names-append (stage_waits prior stage) (waits_from (names_of stage) stages)
    ∙ ap (λ ns. ns ++ waiting_names (waits_from (names_of stage) stages))
        (stage_waits-names prior stage)
    ∙ ap (◌++◌ (names_of stage)) (waits_from-names (names_of stage) stages)
    ∙ sym (names_of-append stage (concat stages))

pub gate_dependencies-names :
    (gates : List Gate) → waiting_names (gate_dependencies gates) ≡ names_of gates
unfolding gate_dependencies
gate_dependencies-names gates =
    waits_from-names ("diff-check" ∷ []) (stages_from [] gates)
    ∙ ap names_of (stages_from-concat [] gates)

pub gate_dependencies-Earlier :
    (gates : List Gate)
    → Known ("diff-check" ∷ []) gates
    → Earlier ("diff-check" ∷ []) (gate_dependencies gates)
unfolding gate_dependencies
gate_dependencies-Earlier gates k =
    waits_from-Earlier ("diff-check" ∷ []) ("diff-check" ∷ []) (stages_from [] gates) (λ n m. m)
      (subst (Known ("diff-check" ∷ [])) (sym (stages_from-concat [] gates)) k)

no_names : (m : String) → has_name m [] ≡ true → ⊥
unfolding has_name
no_names m h = ground arith

pub waits_of-Within :
    (before : List String) (ws : Waits) (n : String)
    → Earlier before ws
    → Within (waits_of ws n) (before ++ waiting_names ws)
unfolding waits_of
waits_of-Within before [] n e = λ m h. absurd (no_names m h)
waits_of-Within before ((k, waits) ∷ more) n e = elim (Bool-cases (k == n)) [
  | inl here ↦ rw here (
      Within-trans waits before (before ++ k ∷ waiting_names more) e.0
        (Within-append_left before (k ∷ waiting_names more)))
  | inr later ↦ rw later (
      subst (λ b. Within (waits_of more n) b) (append_assoc before (k ∷ []) (waiting_names more))
        (waits_of-Within (before ++ k ∷ []) more n e.1))
]

-- A gate that is not completed, and what it waits for is.
pub record Waiting (ws : Waits) (completed : List String) : Type 0 where
  pub name : String
  pub undone : has_name name completed ≡ false
  pub listed : has_name name (waiting_names ws) ≡ true
  pub able : Within (waits_of ws name) completed

-- A name in the set is no name outside it.
other_name :
    (k n : String) (completed : List String)
    → has_name k completed ≡ true
    → has_name n completed ≡ false
    → (k == n) ≡ false
other_name k n completed h m = elim (Bool-cases (k == n)) [
  | inl same ↦
      let at : k ≡ n = (text_eq_iff k n).0 same in
      let here : has_name n completed ≡ true = subst (λ x. has_name x completed ≡ true) at h in
      absurd (ground arith)
  | inr other ↦ other
]

keep-Waiting :
    (k : String) (waits : List String) (more : Waits) (completed : List String)
    → has_name k completed ≡ true
    → Waiting more completed
    → Waiting ((k, waits) ∷ more) completed
unfolding waits_of has_name
keep-Waiting k waits more completed done w = record {
  name = w.name;
  undone = w.undone;
  listed = ground (arith, w.listed);
  able = rw (waits_of, other_name k w.name completed done w.undone) w.able;
}

pub completed_or_Waiting :
    (before : List String) (ws : Waits) (completed : List String)
    → Earlier before ws
    → Within before completed
    → Within (waiting_names ws) completed ⊎ Waiting ws completed
unfolding waits_of has_name
completed_or_Waiting before [] completed e w = inl (λ n h. absurd (ground arith))
completed_or_Waiting before ((k, waits) ∷ more) completed e w =
    elim (Bool-cases (has_name k completed)) [
      | inl done ↦
          let rest =
            completed_or_Waiting (before ++ k ∷ []) more completed e.1
              (Within-join before (k ∷ []) completed w (has_name-one k completed done)) in
          elim rest [
            | inl all ↦ inl (
                Within-join (k ∷ []) (waiting_names more) completed (has_name-one k completed done)
                  all)
            | inr waiting ↦ inr (keep-Waiting k waits more completed done waiting)
          ]
      | inr undone ↦ inr (record {
        name = k;
        undone = undone;
        listed = ground (arith, text_eq_refl k);
        able = rw (text_eq_refl k) (Within-trans waits before completed e.0 w);
      })
    ]
