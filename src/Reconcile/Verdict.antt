-- ===== src/Reconcile/Verdict.antt =====
-- The verdict on one interrupted push (src/mergetrain/recovery.py, _classify).
pub mod Evidence
pub mod Decided
pub mod Warranted
use mergetrain.Prelude.{
  ℕ, Bool, true, false, not, ◌&&◌, ◌||◌, List, [], ◌∷◌, String, if◌then◌else◌, ◌==◌, text_column,
  nonempty, ◌<>◌, is_some, none, some,
}
use mergetrain.Model.{Job, Status, deployed, queued, canceled, blocked, VerifyStatus}
use mergetrain.Reconcile.Git.{
  Git, Ancestry, contained, absent, undetermined, audit_ref_for_sha, ancestor_state, lower,
}

pub record RefVerdict : Type 0 where
  pub ref : String
  pub remote_sha : String
  pub contains : Bool

-- `decision` is one of deployed, queued, canceled and blocked.
pub record JobDecision : Type 0 where
  pub job : Job
  pub pending_sha : String
  pub resolvable : Bool
  pub refs : List RefVerdict
  pub decision : Status
  pub reason : String
  pub audit_ref : String
  pub audit_ref_sha : String

-- _resolvable
unfoldable pub is_resolvable : Git → Job → Bool
is_resolvable git j =
    git.pin_resolves j.id
    || (nonempty j.pending_deploy_sha && git.object_exists j.pending_deploy_sha)

abbrev pub is_contained : Ancestry → Bool
is_contained contained = true
is_contained absent = false
is_contained undetermined = false

abbrev pub is_undetermined : Ancestry → Bool
is_undetermined contained = false
is_undetermined absent = false
is_undetermined undetermined = true

-- The state of one ref; an unresolvable commit is not asked for.
unfoldable pub ref_state : Git → Bool → String → String → Ancestry
ref_state git resolvable sha remote_sha =
    if resolvable then ancestor_state git sha remote_sha else absent

-- The loop over the refs
unfoldable pub ref_verdicts : Git → Bool → String → List (String × String) → List RefVerdict
ref_verdicts git resolvable sha [] = []
ref_verdicts git resolvable sha ((ref, remote_sha) ∷ more) =
    record {
      ref = ref;
      remote_sha = remote_sha;
      contains = is_contained (ref_state git resolvable sha remote_sha);
    }
    ∷ ref_verdicts git resolvable sha more

unfoldable pub any_unknown : Git → Bool → String → List (String × String) → Bool
any_unknown git resolvable sha [] = false
any_unknown git resolvable sha ((ref, remote_sha) ∷ more) =
    is_undetermined (ref_state git resolvable sha remote_sha) || any_unknown git resolvable sha more

unfoldable pub all_contain : List RefVerdict → Bool
all_contain [] = true
all_contain (v ∷ vs) = v.contains && all_contain vs

unfoldable pub any_contains : List RefVerdict → Bool
any_contains [] = false
any_contains (v ∷ vs) = v.contains || any_contains vs

abbrev is_empty : List RefVerdict → Bool
is_empty [] = true
is_empty (v ∷ vs) = false

-- The decision and its reason, from what was found. `audit` says that the audit ref holds the
-- commit, `other_audit` that it holds another.
unfoldable pub decide : Bool → Bool → Bool → Bool → List RefVerdict → Bool → Status × String
unfolding all_contain any_contains
decide resolvable unknown other_audit audit refs cancel_requested =
    if not resolvable
    then (blocked, "pending deploy sha is unresolvable (pin ref gone and object pruned)")
    else if unknown
    then (
      blocked,
      "cannot determine remote containment for a push ref (tip unresolvable); refusing to guess",
    )
    else if other_audit
    then (blocked, "deploy audit ref points to an unexpected sha; refusing to guess")
    else if not (is_empty refs) && all_contain refs
    then (
      deployed,
      if cancel_requested
          then "push landed: deploy sha present on every push ref; late cancel ignored (the push had already landed)"
          else "push landed: deploy sha present on every push ref",
    )
    else if not (any_contains refs)
    then (if audit
        then (
          blocked,
          "deploy audit ref proves the push landed before every payload ref was rewritten; manual recovery required",
        )
        else if cancel_requested
        then (canceled, "push did not land; late cancel honored")
        else (queued, "push did not land; requeued for a fresh deploy"))
    else (blocked, "deploy sha present on some but not all push refs (mixed remote state)")

-- audit_ref_present
unfoldable pub audit_ref_present : Job → String → Bool
audit_ref_present j audit_ref_sha =
    nonempty (audit_ref_for_sha j.pending_deploy_sha)
    && lower audit_ref_sha == lower j.pending_deploy_sha

unfoldable pub classify : Git → Job → List (String × String) → String → JobDecision
unfolding is_resolvable ref_verdicts any_unknown decide audit_ref_present
classify git j ref_shas audit_ref_sha =
    let pending = j.pending_deploy_sha in
    let resolvable = is_resolvable git j in
    let refs = ref_verdicts git resolvable pending ref_shas in
    let present = audit_ref_present j audit_ref_sha in
    let decided =
      decide resolvable (any_unknown git resolvable pending ref_shas)
        (nonempty audit_ref_sha && not present) present refs (is_some j.cancel_requested_at) in
    record {
      job = j;
      pending_sha = pending;
      resolvable = resolvable;
      refs = refs;
      decision = decided.0;
      reason = decided.1;
      audit_ref = audit_ref_for_sha pending;
      audit_ref_sha = audit_ref_sha;
    }

-- _reconciled_verify_status
unfoldable pub reconciled_verify_status : Git → Job → VerifyStatus
reconciled_verify_status git j =
    if nonempty j.verification_policy_sha && j.verification_policy_sha == git.policy_without_hooks
    then VerifyStatus.not_configured
    else VerifyStatus.unknown
