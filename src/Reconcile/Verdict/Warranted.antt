-- ===== src/Reconcile/Verdict/Warranted.antt =====
-- What a verdict rests on: each decision, from what git and the remote answered.
use mergetrain.Prelude.{
  ◌≡◌, ◌≢◌, ◌⊎◌, inl, inr, refl, ◌∙◌, Bool, true, false, not, ◌&&◌, none, List, [], String, arith,
  All, if◌then◌else◌, nat_column, text_column, nonempty, is_some, Bool-cases, text_eq_iff,
}
use mergetrain.Model.{Job, Status, deployed, queued, canceled, blocked}
use mergetrain.Reconcile.Git.{Git, lower, audit_ref_for_sha}
use mergetrain.Reconcile.Verdict.{
  RefVerdict, classify, decide, is_resolvable, ref_verdicts, any_unknown, any_contains,
  audit_ref_present,
}
use mergetrain.Reconcile.Verdict.Evidence.{
  Carries, Lacks, carry_resolvable, empty_text, lack_resolvable, lower-nonempty, not_asked,
  resolvable_carry, resolvable_lack, some_contain,
}
use mergetrain.Reconcile.Verdict.Decided.{
  decide_canceled, decide_deployed, decide_others, decide_queued, deployed_decided,
  undeployed_decided,
}

-- What a decision needs of its job and of the answers about it.
abbrev pub Warrants : Git → Job → List (String × String) → String → Status → Type 0
Warrants git j refs audit_sha deployed =
    (is_resolvable git j ≡ true)
    × (refs ≢ [])
    × All (Carries git j.pending_deploy_sha) refs
    × ((audit_sha ≡ "")
        ⊎ ((nonempty (audit_ref_for_sha j.pending_deploy_sha) ≡ true)
            × (lower audit_sha ≡ lower j.pending_deploy_sha)))
Warrants git j refs audit_sha queued =
    (is_resolvable git j ≡ true)
    × All (Lacks git j.pending_deploy_sha) refs
    × (audit_sha ≡ "")
    × (j.cancel_requested_at ≡ none)
Warrants git j refs audit_sha canceled =
    (is_resolvable git j ≡ true)
    × All (Lacks git j.pending_deploy_sha) refs
    × (audit_sha ≡ "")
    × (is_some j.cancel_requested_at ≡ true)
Warrants git j refs audit_sha blocked = Unit
Warrants git j refs audit_sha _ = ⊥

module _ (git : Git) (j : Job) (refs : List (String × String)) (audit_sha : String) where
  pending : String
  pending = j.pending_deploy_sha

  present : Bool
  present = audit_ref_present j audit_sha

  verdicts : List RefVerdict
  verdicts = ref_verdicts git (is_resolvable git j) pending refs

  decided : Status
  decided =
      (decide (is_resolvable git j) (any_unknown git (is_resolvable git j) pending refs)
        (nonempty audit_sha && not present) present verdicts (is_some j.cancel_requested_at)).0

  no_audit : (nonempty audit_sha && not present) ≡ false → present ≡ false → audit_sha ≡ ""
  no_audit a b = empty_text audit_sha (ground arith)

  audit_agrees :
      (nonempty audit_sha && not present) ≡ false
      → (audit_sha ≡ "")
        ⊎ ((nonempty (audit_ref_for_sha pending) ≡ true) × (lower audit_sha ≡ lower pending))
  unfolding present pending audit_ref_present
  audit_agrees a = elim (Bool-cases (nonempty audit_sha)) [
    | inl found ↦ inr (ground (arith, text_eq_iff (lower audit_sha) (lower j.pending_deploy_sha)))
    | inr missing ↦ inl (empty_text audit_sha missing)
  ]

  deployed_warranted : decided ≡ deployed → Warrants git j refs audit_sha deployed
  unfolding decided verdicts pending
  deployed_warranted h =
      let (r, u, o, e, a) = decide_deployed _ _ _ _ _ _ h in
      let (some_ref, carry) =
        resolvable_carry git j.pending_deploy_sha refs (is_resolvable git j) r u a e in
      (r, some_ref, carry, audit_agrees o)

  queued_warranted : decided ≡ queued → Warrants git j refs audit_sha queued
  unfolding decided verdicts pending
  queued_warranted h =
      let (r, u, o, n, a, c) = decide_queued _ _ _ _ _ _ h in
      (
        r,
        resolvable_lack git j.pending_deploy_sha refs (is_resolvable git j) r u n,
        no_audit o a,
        not_asked j.cancel_requested_at c,
      )

  canceled_warranted : decided ≡ canceled → Warrants git j refs audit_sha canceled
  unfolding decided verdicts pending
  canceled_warranted h =
      let (r, u, o, n, a, c) = decide_canceled _ _ _ _ _ _ h in
      (
        r,
        resolvable_lack git j.pending_deploy_sha refs (is_resolvable git j) r u n,
        no_audit o a,
        c,
      )

  decided_others :
      (decided ≡ deployed) ⊎ (decided ≡ queued) ⊎ (decided ≡ canceled) ⊎ (decided ≡ blocked)
  unfolding decided
  decided_others = decide_others _ _ _ _ _ _

  -- Every verdict is one of four and rests on evidence. Deployed: the commit is resolvable, there is
  -- a push ref, the remote carries the commit on every one, and an audit ref that it has agrees.
  -- Queued: the commit is resolvable, the remote lacks it on every ref, it has no audit ref, and no
  -- cancellation was asked for; canceled is the same where one was. Anything else is blocked.
  pub classify_warranted :
      (st : Status)
      → (classify git j refs audit_sha).decision ≡ st
      → Warrants git j refs audit_sha st
  unfolding classify decided verdicts pending present
  classify_warranted deployed h = deployed_warranted h
  classify_warranted queued h = queued_warranted h
  classify_warranted canceled h = canceled_warranted h
  classify_warranted blocked h = tt
  classify_warranted Status.in_progress h = absurd (ground (arith, decided_others))
  classify_warranted Status.failed h = absurd (ground (arith, decided_others))
  classify_warranted Status.validated h = absurd (ground (arith, decided_others))
  classify_warranted Status.needs_reconcile h = absurd (ground (arith, decided_others))

  agreed :
      (audit_sha ≡ "")
        ⊎ ((nonempty (audit_ref_for_sha pending) ≡ true) × (lower audit_sha ≡ lower pending))
      → (nonempty audit_sha && not present) ≡ false
  unfolding present pending audit_ref_present
  agreed (inl none_found) = rw none_found refl
  agreed (inr same) = ground (arith, text_eq_iff (lower audit_sha) (lower j.pending_deploy_sha))

  undeployed :
      is_resolvable git j ≡ true
      → (any_unknown git (is_resolvable git j) pending refs ≡ false)
        × (any_contains verdicts ≡ false)
      → nonempty pending ≡ true
      → audit_sha ≡ ""
      → decided ≡ (if is_some j.cancel_requested_at then canceled else queued)
  unfolding decided verdicts present pending audit_ref_present lower
  undeployed r (u, n) known empty =
      undeployed_decided _ _ _ _ _ _ r u (rw empty refl) n
        (rw empty (
          ground (
            arith,
            text_eq_iff (lower "") (lower j.pending_deploy_sha),
            lower-nonempty j.pending_deploy_sha known,
          )))
        (some_contain _ n)

  -- A push whose commit is resolvable and carried on every one of its refs, with no audit ref that
  -- disagrees, is found deployed; one that every ref lacks, with no audit ref, is found queued or
  -- canceled as no cancellation or one was asked for.
  pub classify_complete :
      (st : Status)
      → nonempty j.pending_deploy_sha ≡ true
      → st ≢ blocked
      → Warrants git j refs audit_sha st
      → (classify git j refs audit_sha).decision ≡ st
  unfolding classify decided verdicts pending present
  classify_complete deployed known n (r, some_ref, carry, agree) =
      let (u, a, e) =
        carry_resolvable git j.pending_deploy_sha refs (is_resolvable git j) r some_ref carry in
      deployed_decided _ _ _ _ _ _ r u (agreed agree) e a
  classify_complete queued known n (r, lack, empty, calm) =
      undeployed r
        (lack_resolvable git j.pending_deploy_sha refs (is_resolvable git j) r known lack) known
        empty
      ∙ rw calm refl
  classify_complete canceled known n (r, lack, empty, asked) =
      undeployed r
        (lack_resolvable git j.pending_deploy_sha refs (is_resolvable git j) r known lack) known
        empty
      ∙ rw asked refl
  classify_complete blocked known n w = absurd (n refl)
  classify_complete Status.in_progress known n w = absurd w
  classify_complete Status.failed known n w = absurd w
  classify_complete Status.validated known n w = absurd w
  classify_complete Status.needs_reconcile known n w = absurd w
