-- ===== src/Paths/Segment.antt =====
-- One segment of a pattern: _fnmatch_segment of src/mergetrain/path_gates.py, and
-- fnmatch.fnmatchcase of the standard library.
pub mod Spells
pub mod Globs
pub mod Classes
pub mod Reads
pub mod Pieces
use Prim.Native.Char.{Char, code}
use mergetrain.Prelude.{
  Bool, true, false, not, ◌&&◌, ◌||◌, List, [], ◌∷◌, String, if◌then◌else◌, leb, nat_eq, nonempty,
  ◌<>◌, ◌≡◌, refl,
}
use mergetrain.Quoting.Render.{has_char}
use mergetrain.Quoting.Reading.{one}

abbrev pub is_star : Char → Bool
is_star c = nat_eq (code c) 42

abbrev pub is_question : Char → Bool
is_question c = nat_eq (code c) 63

abbrev pub is_open : Char → Bool
is_open c = nat_eq (code c) 91

abbrev pub is_close : Char → Bool
is_close c = nat_eq (code c) 93

abbrev pub is_bang : Char → Bool
is_bang c = nat_eq (code c) 33

abbrev pub is_caret : Char → Bool
is_caret c = nat_eq (code c) 94

-- Where `_CHARACTER_CLASS.sub` stands: outside a match, after its `[`, after the negation, or in the
-- rest of it.
pub data Place : Type 0 where
  outside opening first body : Place

-- A `[` starts a match where a `]` follows; a `]` right after the `[` and its negation belongs to the
-- class only where another one closes it.
unfoldable pub rewrite_class : Place → String → String
unfolding has_char
rewrite_class place String.[] = ""
rewrite_class outside (String.◌∷◌ c s) = elim (is_open c && has_char 93 s) [
  | true ↦ one c <> rewrite_class opening s
  | false ↦ one c <> rewrite_class outside s
]
rewrite_class opening (String.◌∷◌ c s) = elim (is_caret c) [
  | true ↦ "!" <> rewrite_class first s
  | false ↦ elim (is_bang c) [
    | true ↦ one c <> rewrite_class first s
    | false ↦ elim (is_close c && not (has_char 93 s)) [
      | true ↦ one c <> rewrite_class outside s
      | false ↦ one c <> rewrite_class body s
    ]
  ]
]
rewrite_class first (String.◌∷◌ c s) = elim (is_close c && not (has_char 93 s)) [
  | true ↦ one c <> rewrite_class outside s
  | false ↦ one c <> rewrite_class body s
]
rewrite_class body (String.◌∷◌ c s) = elim (is_close c) [
  | true ↦ one c <> rewrite_class outside s
  | false ↦ one c <> rewrite_class body s
]

-- _fnmatch_segment
unfoldable pub fnmatch_segment : String → String
unfolding rewrite_class
fnmatch_segment part = rewrite_class outside part

-- The parts of a pattern that fnmatch reads; a class has its members as they are written.
pub data Token : Type 0 where
  star any : Token
  literal : Char → Token
  class : Bool → String → Token

-- Whether a class that starts here is closed.
abbrev closes_after_first : String → Bool
closes_after_first String.[] = false
closes_after_first (String.◌∷◌ c s) =
    if is_close c then has_char 93 s else has_char 93 (String.◌∷◌ c s)

unfoldable pub closes : String → Bool
closes String.[] = false
closes (String.◌∷◌ c s) =
    if is_bang c then closes_after_first s else closes_after_first (String.◌∷◌ c s)

-- The state of the reading of a class: after its `[`, after its `!`, or after the members.
pub data Reading : Type 0 where
  between : Reading
  after_open : Reading
  after_bang : Reading
  members : Bool → String → Reading

unfoldable pub tokens : Reading → String → List Token
unfolding closes has_char
tokens reading String.[] = []
tokens between (String.◌∷◌ c s) = elim (is_open c && closes s) [
  | true ↦ tokens after_open s
  | false ↦
      (if is_star c then star else if is_question c then any else literal c) ∷ tokens between s
]
tokens after_open (String.◌∷◌ c s) = elim (is_bang c) [
  | true ↦ tokens after_bang s
  | false ↦ tokens (members false (one c)) s
]
tokens after_bang (String.◌∷◌ c s) = tokens (members true (one c)) s
tokens (members negated written) (String.◌∷◌ c s) = elim (is_close c) [
  | true ↦ class negated written ∷ tokens between s
  | false ↦ tokens (members negated (written <> one c)) s
]

-- `x-y` is a range, empty where x comes after y; other characters are members.
unfoldable pub in_class : Char → String → Bool
in_class c String.[] = false
in_class c (String.◌∷◌ x String.[]) = nat_eq (code c) (code x)
in_class c (String.◌∷◌ x (String.◌∷◌ d String.[])) =
    nat_eq (code c) (code x) || nat_eq (code c) (code d)
in_class c (String.◌∷◌ x (String.◌∷◌ d (String.◌∷◌ y s))) = elim (nat_eq (code d) 45) [
  | true ↦ (leb (code x) (code c) && leb (code c) (code y)) || in_class c s
  | false ↦ nat_eq (code c) (code x) || in_class c (String.◌∷◌ d (String.◌∷◌ y s))
]

-- One character and one token that is no star
unfoldable pub admits : Token → Char → Bool
unfolding in_class
admits star c = false
admits any c = true
admits (literal d) c = nat_eq (code c) (code d)
admits (class true written) c = not (in_class c written)
admits (class false written) c = in_class c written

unfoldable pub some_suffix : (String → Bool) → String → Bool
some_suffix p String.[] = p ""
some_suffix p (String.◌∷◌ c s) = p (String.◌∷◌ c s) || some_suffix p s

abbrev pub starts_with : (Char → Bool) → (String → Bool) → String → Bool
starts_with test p String.[] = false
starts_with test p (String.◌∷◌ c s) = test c && p s

unfoldable pub match_tokens : List Token → String → Bool
unfolding some_suffix admits
match_tokens [] s = not (nonempty s)
match_tokens (star ∷ more) s = some_suffix (match_tokens more) s
match_tokens (any ∷ more) s = starts_with (admits any) (match_tokens more) s
match_tokens (literal d ∷ more) s = starts_with (admits (literal d)) (match_tokens more) s
match_tokens (class negated written ∷ more) s =
    starts_with (admits (class negated written)) (match_tokens more) s

-- fnmatch.fnmatchcase
unfoldable pub fnmatchcase : String → String → Bool
unfolding tokens match_tokens
fnmatchcase name pattern = match_tokens (tokens between pattern) name

segment_test : fnmatchcase "ab]-x.py" "a[!]c-]?[-x]x.*" ≡ true
unfolding fnmatchcase tokens closes has_char match_tokens some_suffix admits in_class
segment_test = refl

range_test : fnmatchcase "b4-" "[a-c][!5-9][]-]" ≡ true
unfolding fnmatchcase tokens closes has_char match_tokens some_suffix admits in_class
range_test = refl

rewrite_test : fnmatch_segment "[^a]x[^]y" ≡ "[!a]x[!]y"
unfolding fnmatch_segment rewrite_class has_char
rewrite_test = refl
