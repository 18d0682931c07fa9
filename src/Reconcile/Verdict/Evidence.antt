-- ===== src/Reconcile/Verdict/Evidence.antt =====
-- What git and the remote say of the refs of a push, and what the loops of the verdict find of it.
use mergetrain.Prelude.{
  ◌≡◌, ◌≢◌, ◌↔◌, ◌⊎◌, inl, inr, refl, ap, Bool, true, false, none, some, List, [], ◌∷◌, String,
  arith, All, nat_column, text_column, nonempty, is_some,
}
use mergetrain.Model.{Stamp}
use mergetrain.Reconcile.Git.{Git, contained, absent, ancestor_state, lower}
use mergetrain.Reconcile.Verdict.{
  RefVerdict, ref_state, ref_verdicts, any_unknown, all_contain, any_contains, is_empty,
}

-- The remote has the ref, its tip is known here, and git calls the commit an ancestor of it.
abbrev pub Carries : Git → String → String × String → Type 0
Carries git sha (ref, remote_sha) =
    (nonempty sha ≡ true)
    × (nonempty remote_sha ≡ true)
    × (git.object_exists remote_sha ≡ true)
    × (git.is_ancestor sha remote_sha ≡ 0)

-- The remote has no such ref, or its tip is known here and git denies the commit to be an ancestor.
abbrev pub Lacks : Git → String → String × String → Type 0
Lacks git sha (ref, remote_sha) =
    (nonempty remote_sha ≡ false)
    ⊎ ((git.object_exists remote_sha ≡ true) × (git.is_ancestor sha remote_sha ≡ 1))

pub contained_iff :
    (git : Git) (sha ref remote_sha : String)
    → (ref_state git true sha remote_sha ≡ contained) ↔ Carries git sha (ref, remote_sha)
unfolding ref_state ancestor_state
contained_iff git sha ref remote_sha = ground arith

pub absent_iff :
    (git : Git) (sha ref remote_sha : String)
    → nonempty sha ≡ true
    → (ref_state git true sha remote_sha ≡ absent) ↔ Lacks git sha (ref, remote_sha)
unfolding ref_state ancestor_state
absent_iff git sha ref remote_sha known = ground arith

module _ (git : Git) (sha : String) where
  pub every_carried :
      (refs : List (String × String))
      → any_unknown git true sha refs ≡ false
      → all_contain (ref_verdicts git true sha refs) ≡ true
      → All (Carries git sha) refs
  unfolding any_unknown all_contain ref_verdicts
  every_carried [] known every = tt
  every_carried ((ref, remote_sha) ∷ refs) known every = (
    ground (arith, contained_iff git sha ref remote_sha),
    every_carried refs (ground arith) (ground arith),
  )

  pub carried :
      (refs : List (String × String))
      → All (Carries git sha) refs
      → (any_unknown git true sha refs ≡ false)
        × (all_contain (ref_verdicts git true sha refs) ≡ true)
  unfolding any_unknown all_contain ref_verdicts
  carried [] all = (refl, refl)
  carried ((ref, remote_sha) ∷ refs) all =
      ground (arith, contained_iff git sha ref remote_sha, carried refs all.1)

  pub every_lacked :
      (refs : List (String × String))
      → any_unknown git true sha refs ≡ false
      → any_contains (ref_verdicts git true sha refs) ≡ false
      → All (Lacks git sha) refs
  unfolding any_unknown any_contains ref_verdicts ref_state ancestor_state
  every_lacked [] known none_has = tt
  every_lacked ((ref, remote_sha) ∷ refs) known none_has =
      (ground arith, every_lacked refs (ground arith) (ground arith))

  pub lacked :
      (refs : List (String × String))
      → nonempty sha ≡ true
      → All (Lacks git sha) refs
      → (any_unknown git true sha refs ≡ false)
        × (any_contains (ref_verdicts git true sha refs) ≡ false)
  unfolding any_unknown any_contains ref_verdicts
  lacked [] known all = (refl, refl)
  lacked ((ref, remote_sha) ∷ refs) known all =
      ground (arith, absent_iff git sha ref remote_sha known, lacked refs known all.1)

pub empty_text : (s : String) → nonempty s ≡ false → s ≡ ""
empty_text String.[] h = refl
empty_text (String.◌∷◌ c s) h = absurd (ground arith)

pub no_refs :
    (git : Git) (sha : String) (refs : List (String × String))
    → is_empty (ref_verdicts git true sha refs) ≡ false
    → refs ≢ []
unfolding ref_verdicts
no_refs git sha [] h e = cc
no_refs git sha (r ∷ refs) h e = cc

pub some_contain :
    (vs : List RefVerdict)
    → any_contains vs ≡ false
    → (is_empty vs ≡ true) ⊎ (all_contain vs ≡ false)
unfolding any_contains all_contain
some_contain [] h = inl refl
some_contain (v ∷ vs) h = inr (ground arith)

pub lower-nonempty : (s : String) → nonempty s ≡ true → lower s ≢ ""
unfolding lower
lower-nonempty String.[] h e = cc
lower-nonempty (String.◌∷◌ c s) h e = absurd (ground (arith, ap nonempty e))

pub not_asked : (at : Stamp) → is_some at ≡ false → at ≡ none
not_asked none h = refl
not_asked (some t) h = absurd (ground arith)

pub refs_verdicts :
    (git : Git) (sha : String) (refs : List (String × String))
    → refs ≢ []
    → is_empty (ref_verdicts git true sha refs) ≡ false
unfolding ref_verdicts
refs_verdicts git sha [] h = absurd (h refl)
refs_verdicts git sha (r ∷ refs) h = refl

-- The same, of the commit that was found resolvable.
module _ (git : Git) (sha : String) (refs : List (String × String)) where
  pub resolvable_carry :
      (r : Bool)
      → r ≡ true
      → any_unknown git r sha refs ≡ false
      → all_contain (ref_verdicts git r sha refs) ≡ true
      → is_empty (ref_verdicts git r sha refs) ≡ false
      → (refs ≢ []) × All (Carries git sha) refs
  resolvable_carry true e u a n = (no_refs git sha refs n, every_carried git sha refs u a)
  resolvable_carry false e u a n = absurd (ground arith)

  pub resolvable_lack :
      (r : Bool)
      → r ≡ true
      → any_unknown git r sha refs ≡ false
      → any_contains (ref_verdicts git r sha refs) ≡ false
      → All (Lacks git sha) refs
  resolvable_lack true e u n = every_lacked git sha refs u n
  resolvable_lack false e u n = absurd (ground arith)

  pub carry_resolvable :
      (r : Bool)
      → r ≡ true
      → refs ≢ []
      → All (Carries git sha) refs
      → (any_unknown git r sha refs ≡ false)
        × (all_contain (ref_verdicts git r sha refs) ≡ true)
        × (is_empty (ref_verdicts git r sha refs) ≡ false)
  carry_resolvable false e some_ref all = absurd (ground arith)
  carry_resolvable true e some_ref all =
      let (u, a) = carried git sha refs all in (u, a, refs_verdicts git sha refs some_ref)

  pub lack_resolvable :
      (r : Bool)
      → r ≡ true
      → nonempty sha ≡ true
      → All (Lacks git sha) refs
      → (any_unknown git r sha refs ≡ false) × (any_contains (ref_verdicts git r sha refs) ≡ false)
  lack_resolvable false e known all = absurd (ground arith)
  lack_resolvable true e known all = lacked git sha refs known all
