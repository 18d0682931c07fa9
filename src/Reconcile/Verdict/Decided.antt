-- ===== src/Reconcile/Verdict/Decided.antt =====
-- When the verdict decides what, from what was found.
use mergetrain.Prelude.{
  ◌≡◌, ◌⊎◌, Bool, true, false, List, arith, if◌then◌else◌, nat_column, text_column,
}
use mergetrain.Model.{deployed, queued, canceled, blocked}
use mergetrain.Reconcile.Verdict.{RefVerdict, decide, all_contain, any_contains, is_empty}

module _ (resolvable unknown other_audit audit : Bool) (refs : List RefVerdict)
    (cancel : Bool) where
  pub decide_deployed :
      (decide resolvable unknown other_audit audit refs cancel).0 ≡ deployed
      → (resolvable ≡ true)
        × (unknown ≡ false)
        × (other_audit ≡ false)
        × (is_empty refs ≡ false)
        × (all_contain refs ≡ true)
  unfolding decide
  decide_deployed h = ground arith

  pub decide_queued :
      (decide resolvable unknown other_audit audit refs cancel).0 ≡ queued
      → (resolvable ≡ true)
        × (unknown ≡ false)
        × (other_audit ≡ false)
        × (any_contains refs ≡ false)
        × (audit ≡ false)
        × (cancel ≡ false)
  unfolding decide
  decide_queued h = ground arith

  pub decide_canceled :
      (decide resolvable unknown other_audit audit refs cancel).0 ≡ canceled
      → (resolvable ≡ true)
        × (unknown ≡ false)
        × (other_audit ≡ false)
        × (any_contains refs ≡ false)
        × (audit ≡ false)
        × (cancel ≡ true)
  unfolding decide
  decide_canceled h = ground arith

  pub deployed_decided :
      resolvable ≡ true
      → unknown ≡ false
      → other_audit ≡ false
      → is_empty refs ≡ false
      → all_contain refs ≡ true
      → (decide resolvable unknown other_audit audit refs cancel).0 ≡ deployed
  unfolding decide
  deployed_decided r u o e a = ground arith

  pub undeployed_decided :
      resolvable ≡ true
      → unknown ≡ false
      → other_audit ≡ false
      → any_contains refs ≡ false
      → audit ≡ false
      → (is_empty refs ≡ true) ⊎ (all_contain refs ≡ false)
      → (decide resolvable unknown other_audit audit refs cancel).0
        ≡ (if cancel then canceled else queued)
  unfolding decide
  undeployed_decided r u o n a e = ground arith

  pub decide_others :
      (let st = (decide resolvable unknown other_audit audit refs cancel).0 in
        (st ≡ deployed) ⊎ (st ≡ queued) ⊎ (st ≡ canceled) ⊎ (st ≡ blocked))
  unfolding decide
  decide_others = ground arith
