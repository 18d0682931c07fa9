-- ===== src/Reconcile/Groups/Answers.antt =====
-- Every verdict of the groups rests on the answers of the target that its job recorded.
use mergetrain.Prelude.{
  ◌≡◌, refl, sym, subst, true, Option, none, some, List, [], ◌∷◌, ◌++◌, String, arith, All,
  text_column, text_eq_iff, Bool-cases, Option-cases, inl, inr,
}
use mergetrain.Model.{Job}
use mergetrain.Reconcile.Git.{Git}
use mergetrain.Reconcile.Verdict.{JobDecision, classify}
use mergetrain.Reconcile.Groups.{
  Target, Group, job_push_target, same_texts, same_target, add_to_groups, group_by_target, ask_refs,
  ask_audit, classify_members, classify_group, unchecked, all_unchecked, classify_groups,
  is_endpoint,
}

same_texts-eq : (ts us : List String) → same_texts ts us ≡ true → ts ≡ us
unfolding same_texts
same_texts-eq [] [] h = refl
same_texts-eq [] (u ∷ us) h = cc
same_texts-eq (t ∷ ts) [] h = cc
same_texts-eq (t ∷ ts) (u ∷ us) h = ground (arith, text_eq_iff t u, same_texts-eq ts us)

same_target-eq : (a b : Target) → same_target a b ≡ true → a ≡ b
same_target-eq a b h = ground (
  arith,
  text_eq_iff a.remote b.remote,
  same_texts-eq a.refs b.refs,
  text_eq_iff a.destination_sha b.destination_sha,
)

pub All-append {ℓ} :
    {A : Type ℓ} (P : A → Type 0) (xs ys : List A) → All P xs → All P ys → All P (xs ++ ys)
All-append P [] ys a b = b
All-append P (x ∷ xs) ys a b = (a.0, All-append P xs ys a.1 b)

-- A property of a job and the target of its group, that holds of every member.
abbrev pub Members : (Target → Job → Type 0) → Group → Type 0
Members Q (target, members) = All (Q target) members

module _ (git : Git) (Q : Target → Job → Type 0) where
  add_to_groups-Members :
      (target : Target) (j : Job) (groups : List Group)
      → Q target j
      → All (Members Q) groups
      → All (Members Q) (add_to_groups target j groups)
  unfolding add_to_groups
  add_to_groups-Members target j [] q all = ((q, tt), tt)
  add_to_groups-Members target j ((other, members) ∷ groups) q all =
      elim (Bool-cases (same_target other target)) [
        | inl same ↦
            let at : target ≡ other = sym (same_target-eq other target same) in
            rw same
              (All-append (Q other) members (j ∷ []) all.0 (subst (λ t. Q t j) at q, tt), all.1)
        | inr differs ↦ rw differs (all.0, add_to_groups-Members target j groups q all.1)
      ]

  pub group_by_target-Members :
      (groups : List Group) (js : List Job)
      → All (λ j. Q (job_push_target git j) j) js
      → All (Members Q) groups
      → All (Members Q) (group_by_target git groups js)
  unfolding group_by_target
  group_by_target-Members groups [] q all = all
  group_by_target-Members groups (j ∷ js) q all =
      group_by_target-Members (add_to_groups (job_push_target git j) j groups) js q.1
        (add_to_groups-Members (job_push_target git j) j groups q.0 all)

-- What was asked of a target for a job, and answered: its endpoint is the recorded one, its remote
-- answers, and these are the tips of its refs and the commit at the audit ref of the job.
pub record Answered (git : Git) (target : Target) (j : Job) (tips : List (String × String))
    (audit_sha : String) : Type 0 where
  pub endpoint : git.push_endpoint_sha target.remote target.refs ≡ some target.destination_sha
  pub reachable : git.fetch target.remote ≡ true
  pub asked_refs : ask_refs git target.remote [] target.refs ≡ some tips
  pub asked_audit : ask_audit git target.remote j ≡ some audit_sha

module _ (git : Git) (Q : Target → Job → Type 0) (P : JobDecision → Type 0)
    (from_answers : (target : Target) (j : Job) (tips : List (String × String)) (audit_sha : String)
      → Answered git target j tips audit_sha
      → Q target j
      → P (classify git j tips audit_sha))
    (from_silence : (target : Target) (j : Job) → Q target j → P (unchecked git j)) where
  all_unchecked-All :
      (target : Target) (js : List Job) → All (Q target) js → All P (all_unchecked git js)
  unfolding all_unchecked
  all_unchecked-All target [] q = tt
  all_unchecked-All target (j ∷ js) q = (from_silence target j q.0, all_unchecked-All target js q.1)

  classify_members-All :
      (target : Target) (tips : List (String × String)) (js : List Job) {ds : List JobDecision}
      → git.push_endpoint_sha target.remote target.refs ≡ some target.destination_sha
      → git.fetch target.remote ≡ true
      → ask_refs git target.remote [] target.refs ≡ some tips
      → All (Q target) js
      → classify_members git target.remote tips js ≡ some ds
      → All P ds
  unfolding classify_members
  classify_members-All target tips [] {ds} e f a q h =
      let at : [] ≡ ds = ground arith in subst (All P) at tt
  classify_members-All target tips (j ∷ js) {ds} e f a q h =
      elim (Option-cases (ask_audit git target.remote j)) [
        | inl silent ↦ absurd (ground arith)
        | inr (audit_sha, said) ↦ elim (Option-cases (classify_members git target.remote tips js)) [
          | inl silent ↦ absurd (ground arith)
          | inr (rest, found) ↦
              let answered : Answered git target j tips audit_sha = record {
                endpoint = e;
                reachable = f;
                asked_refs = a;
                asked_audit = said;
              } in
              let at : classify git j tips audit_sha ∷ rest ≡ ds = ground arith in
              subst (All P) at (
                from_answers target j tips audit_sha answered q.0,
                classify_members-All target tips js e f a q.1 found,
              )
        ]
      ]

  is_endpoint-eq : (sha : String) (o : Option String) → is_endpoint sha o ≡ true → o ≡ some sha
  is_endpoint-eq sha none h = cc
  is_endpoint-eq sha (some other) h = ground (arith, text_eq_iff other sha)

  classify_group-All :
      (target : Target) (js : List Job) {ds : List JobDecision}
      → All (Q target) js
      → classify_group git target js ≡ some ds
      → All P ds
  unfolding classify_group
  classify_group-All target js {ds} q h =
      elim (Bool-cases
        (is_endpoint target.destination_sha (git.push_endpoint_sha target.remote target.refs))) [
          | inr other ↦ absurd (ground arith)
          | inl same ↦ elim (Bool-cases (git.fetch target.remote)) [
            | inr silent ↦ absurd (ground arith)
            | inl answers ↦ elim (Option-cases (ask_refs git target.remote [] target.refs)) [
              | inl silent ↦ absurd (ground arith)
              | inr (tips, found) ↦
                  classify_members-All target tips js (is_endpoint-eq _ _ same) answers found q
                    (ground arith)
            ]
          ]
        ]

  pub classify_groups-All :
      (groups : List Group) {ds : List JobDecision}
      → All (Members Q) groups
      → classify_groups git groups ≡ some ds
      → All P ds
  unfolding classify_groups
  classify_groups-All [] {ds} q h = let at : [] ≡ ds = ground arith in subst (All P) at tt
  classify_groups-All ((target, members) ∷ groups) {ds} q h =
      elim (Option-cases (classify_groups git groups)) [
        | inl silent ↦ absurd (ground arith)
        | inr (rest, found) ↦ elim (Option-cases (classify_group git target members)) [
          | inl silent ↦
              let at : all_unchecked git members ++ rest ≡ ds = ground arith in
              subst (All P) at (
                All-append P (all_unchecked git members) rest (all_unchecked-All target members q.0)
                  (classify_groups-All groups q.1 found))
          | inr (here, known) ↦
              let at : here ++ rest ≡ ds = ground arith in
              subst (All P) at (
                All-append P here rest (classify_group-All target members q.0 known)
                  (classify_groups-All groups q.1 found))
        ]
      ]
