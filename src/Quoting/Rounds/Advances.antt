-- ===== src/Quoting/Rounds/Advances.antt =====
-- What each round of the scanner's loops does to the cursor and the stack.
use mergetrain.Prelude.{
  ℕ, suc, zero, ◌+◌, ◌≤◌, ◌<◌, ◌≡◌, inl, inr, ap, sym, ◌∙◌, Bool, true, false, none, some, List, [],
  ◌∷◌, String, if◌then◌else◌, nonempty, has_prefix, Bool-cases, arith, nat_column, text_column,
}
use mergetrain.Quoting.Scan.{
  Cursor, Values, copy_char, copy, doubt_if, Loop, Round, go_on, any_quoted_key,
}
use mergetrain.Quoting.Rounds.{text_size}
use mergetrain.Quoting.Rounds.Moves.{
  Reaches, Reaches-refl, Reaches-trans, Reaches-copy, Reaches-doubt_if, harmless, lacks_keys,
  starts_key, has_keys, one_copied,
}

-- At least one character was copied, and at most three.
pub record Follows (values : Values) (c d : Cursor) : Type 0 where
  pub reached : Reaches values c d
  pub shorter : text_size d.rest < text_size c.rest
  pub leap : text_size c.rest ≤ text_size d.rest + 3

-- Copies; or is refused, which a value that needs quoting and a placeholder in the command cause.
abbrev pub Advances : Values → Cursor → Round → Type 0
Advances values c none =
    (harmless values ≡ false) × (has_keys values ≡ true → lacks_keys values c.rest ≡ false)
Advances values c (some (stack, d)) = Follows values c d

harmful_key :
    (values : Values) (c : Cursor) → any_quoted_key values c ≡ true → harmless values ≡ false
unfolding any_quoted_key harmless
harmful_key [] c h = absurd (ground arith)
harmful_key ((key, value) ∷ more) c h =
    let later : any_quoted_key more c ≡ true → harmless more ≡ false = harmful_key more c in
    ground arith

no_start : (values : Values) → has_keys values ≡ true → starts_key values "" ≡ true → ⊥
unfolding starts_key has_keys has_prefix
no_start [] keys h = ground arith
no_start ((String.[], value) ∷ more) keys h = ground arith
no_start ((String.◌∷◌ d key, value) ∷ more) keys h = no_start more (ground arith) h

harmful_start :
    (values : Values) (rest : String)
    → has_keys values ≡ true
    → starts_key values rest ≡ true
    → lacks_keys values rest ≡ false
unfolding starts_key lacks_keys
harmful_start values String.[] keys h = absurd (no_start values keys h)
harmful_start values (String.◌∷◌ d s) keys h = ground arith

quoted_key_starts :
    (values : Values) (c : Cursor)
    → any_quoted_key values c ≡ true
    → starts_key values c.rest ≡ true
unfolding any_quoted_key starts_key
quoted_key_starts [] c h = absurd (ground arith)
quoted_key_starts ((key, value) ∷ more) c h =
    let later : any_quoted_key more c ≡ true → starts_key more c.rest ≡ true =
      quoted_key_starts more c in
    ground arith

module _ (values : Values) where
  one_copied_shorter :
      (before rest out unproven : String)
      → nonempty rest ≡ true
      → text_size
          (copy_char (record { before = before; rest = rest; out = out; unproven = unproven })).rest
        < text_size rest
  unfolding copy_char text_size
  one_copied_shorter before String.[] out unproven h = absurd (ground arith)
  one_copied_shorter before (String.◌∷◌ d s) out unproven h = ground arith

  one_copied_size :
      (before rest out unproven : String)
      → text_size rest
        ≤ text_size
            (copy_char
              (record { before = before; rest = rest; out = out; unproven = unproven })).rest
          + 1
  unfolding copy_char text_size
  one_copied_size before String.[] out unproven = ground arith
  one_copied_size before (String.◌∷◌ d s) out unproven = ground arith

  copied_size : (n : ℕ) (c : Cursor) → text_size c.rest ≤ text_size (copy n c).rest + n
  unfolding copy
  copied_size zero c = ground arith
  copied_size (suc n) c =
      omega (arith, one_copied_size c.before c.rest c.out c.unproven, copied_size n (copy_char c))

  copied_first :
      (n : ℕ) (c : Cursor)
      → nonempty c.rest ≡ true
      → text_size (copy (suc n) c).rest < text_size c.rest
  unfolding copy
  copied_first n c h = omega (
    arith,
    one_copied_shorter c.before c.rest c.out c.unproven h,
    (Reaches-copy values n (copy_char c) (copy_char c) (Reaches-refl values (copy_char c))).size,
  )

  start :
      (n : ℕ) (c : Cursor) → suc n ≤ 3 → nonempty c.rest ≡ true → Follows values c (copy (suc n) c)
  start n c few h = record {
    reached = Reaches-copy values (suc n) c c (Reaches-refl values c);
    shorter = copied_first n c h;
    leap = omega (arith, copied_size (suc n) c, few);
  }

  pub start_one : (c : Cursor) → nonempty c.rest ≡ true → Follows values c (copy 1 c)
  start_one c h = start 0 c (omega arith) h

  pub start_two : (c : Cursor) → nonempty c.rest ≡ true → Follows values c (copy 2 c)
  start_two c h = start 1 c (omega arith) h

  pub start_three : (c : Cursor) → nonempty c.rest ≡ true → Follows values c (copy 3 c)
  start_three c h = start 2 c (omega arith) h

  pub start_twice : (c : Cursor) → nonempty c.rest ≡ true → Follows values c (copy 1 (copy 1 c))
  unfolding copy
  start_twice c h = start_two c h

  doubted_rest :
      (test : Bool) (construct : String) (c : Cursor) → (doubt_if test construct c).rest ≡ c.rest
  unfolding doubt_if
  doubted_rest test construct c = ground arith

  pub Follows-doubt_if :
      (test : Bool) (construct : String) (c d : Cursor)
      → Follows values c d
      → Follows values c (doubt_if test construct d)
  Follows-doubt_if test construct c d h = record {
    reached = Reaches-doubt_if values test construct c d h.reached;
    shorter = omega (
      arith,
      h.shorter,
      (Reaches-doubt_if values test construct d d (Reaches-refl values d)).size,
    );
    leap = omega (arith, h.leap, ap text_size (doubted_rest test construct d));
  }

  Follows-after :
      (c d e : Cursor)
      → Reaches values c d
      → d.rest ≡ c.rest
      → Follows values d e
      → Follows values c e
  Follows-after c d e first same second = record {
    reached = Reaches-trans values c d e first second.reached;
    shorter = omega (arith, first.size, second.shorter);
    leap = omega (arith, second.leap, ap text_size same);
  }

  doubted :
      (test : Bool) (construct : String) (c : Cursor) → Reaches values c (doubt_if test construct c)
  doubted test construct c = Reaches-doubt_if values test construct c c (Reaches-refl values c)

  after_doubt :
      (f : Cursor → Cursor) (test : Bool) (construct : String) (c : Cursor)
      → ((d : Cursor) → nonempty d.rest ≡ true → Follows values d (f d))
      → nonempty c.rest ≡ true
      → Follows values c (f (doubt_if test construct c))
  after_doubt f test construct c h some_left =
      Follows-after c (doubt_if test construct c) _ (doubted test construct c)
        (doubted_rest test construct c)
        (h (doubt_if test construct c) (ap nonempty (doubted_rest test construct c) ∙ some_left))

  pub doubted_one :
      (test : Bool) (construct : String) (c : Cursor)
      → nonempty c.rest ≡ true
      → Follows values c (copy 1 (doubt_if test construct c))
  doubted_one test construct c some_left = after_doubt (copy 1) test construct c start_one some_left

  pub doubted_two :
      (test : Bool) (construct : String) (c : Cursor)
      → nonempty c.rest ≡ true
      → Follows values c (copy 2 (doubt_if test construct c))
  doubted_two test construct c some_left = after_doubt (copy 2) test construct c start_two some_left

  -- A doubt, and then a round.
  pub from_doubt :
      (test : Bool) (construct : String) (c : Cursor) (r : Round)
      → (nonempty (doubt_if test construct c).rest ≡ true
          → Advances values (doubt_if test construct c) r)
      → nonempty c.rest ≡ true
      → Advances values c r
  from_doubt test construct c none h some_left =
      let (harmful, found) = h (ap nonempty (doubted_rest test construct c) ∙ some_left) in
      (harmful, λ keys. ap (lacks_keys values) (sym (doubted_rest test construct c)) ∙ found keys)
  from_doubt test construct c (some (stack, d)) h some_left =
      Follows-after c (doubt_if test construct c) d (doubted test construct c)
        (doubted_rest test construct c)
        (h (ap nonempty (doubted_rest test construct c) ∙ some_left))

  pub Advances-if :
      (test : Bool) (c : Cursor) (r q : Round)
      → Advances values c r
      → Advances values c q
      → Advances values c (if test then r else q)
  Advances-if true c r q h k = h
  Advances-if false c r q h k = k

  unclean :
      (c d : Cursor)
      → Reaches values c d
      → lacks_keys values d.rest ≡ false
      → lacks_keys values c.rest ≡ false
  unclean c d reached h = ground (arith, reached.clean)

  pub Advances-refuse_if :
      (c d : Cursor) (q : Round)
      → Reaches values c d
      → Advances values c q
      → Advances values c (if any_quoted_key values d then none else q)
  Advances-refuse_if c d q reached h = elim (Bool-cases (any_quoted_key values d)) [
    | inl refuses ↦ rw refuses (
      harmful_key values d refuses,
      λ keys.
          unclean c d reached
            (harmful_start values d.rest keys (quoted_key_starts values d refuses)),
    )
    | inr goes ↦ rw goes h
  ]

  pub Advances-go_on :
      (stack : List Loop) (c d : Cursor) → Follows values c d → Advances values c (go_on stack d)
  Advances-go_on stack c d h = h

pub ruleset rounds = (
  start_one, start_two, start_three, start_twice, doubted_one, doubted_two, Advances-if,
  Advances-refuse_if, Advances-go_on, Follows-doubt_if, Reaches-copy, Reaches-refl,
)
