-- ===== src/Paths/Segment/Globs.antt =====
-- The file name patterns that users write, and what each stands for: independent of the rewriting,
-- the reading and the matching of src/mergetrain/path_gates.py and fnmatch.
use Prim.Native.Char.{Char, code}
use mergetrain.Prelude.{Bool, true, false, not, ◌&&◌, ◌||◌, List, [], ◌∷◌, String, leb, nat_eq, ◌≡◌}

-- A character, or a range of them
pub data Member : Type 0 where
  member : Char → Member
  span : Char → Char → Member

-- `[`, `[!` or `[^`
pub data Sign : Type 0 where
  positive bang caret : Sign

-- `*`, `?`, a character, or a class with its first and its other members
pub data Piece : Type 0 where
  any_text any_char : Piece
  plain : Char → Piece
  class_of : Sign → Member → List Member → Piece

abbrev pub member_onto : Member → String → String
member_onto (member c) s = String.◌∷◌ c s
member_onto (span x y) s = String.◌∷◌ x (String.◌∷◌ "-" (String.◌∷◌ y s))

unfoldable pub members_onto : List Member → String → String
members_onto [] s = s
members_onto (m ∷ ms) s = member_onto m (members_onto ms s)

abbrev pub sign_onto : Sign → String → String
sign_onto positive s = s
sign_onto bang s = String.◌∷◌ "!" s
sign_onto caret s = String.◌∷◌ "^" s

abbrev pub piece_onto : Piece → String → String
piece_onto any_text s = String.◌∷◌ "*" s
piece_onto any_char s = String.◌∷◌ "?" s
piece_onto (plain c) s = String.◌∷◌ c s
piece_onto (class_of sign m ms) s =
    String.◌∷◌ "[" (sign_onto sign (members_onto (m ∷ ms) (String.◌∷◌ "]" s)))

-- The pattern as text
unfoldable pub printed : List Piece → String
unfolding members_onto
printed [] = ""
printed (p ∷ ps) = piece_onto p (printed ps)

-- A `]` and a `-` are no members of their own.
abbrev pub is_member_char : Char → Bool
is_member_char c = not (nat_eq (code c) 93) && not (nat_eq (code c) 45)

abbrev pub is_class_member : Member → Bool
is_class_member (member c) = is_member_char c
is_class_member (span x y) = is_member_char x && is_member_char y

unfoldable pub are_members : List Member → Bool
are_members [] = true
are_members (m ∷ ms) = is_class_member m && are_members ms

abbrev pub first_char : Member → Char
first_char (member c) = c
first_char (span x y) = x

-- A class that is not negated starts with neither `!` nor `^`.
abbrev pub is_start : Sign → Char → Bool
is_start positive c = not (nat_eq (code c) 33) && not (nat_eq (code c) 94)
is_start bang c = true
is_start caret c = true

abbrev pub is_piece : Piece → Bool
is_piece any_text = true
is_piece any_char = true
is_piece (plain c) =
    not (nat_eq (code c) 42) && not (nat_eq (code c) 63) && not (nat_eq (code c) 91)
is_piece (class_of sign m ms) = is_class_member m && are_members ms && is_start sign (first_char m)

unfoldable pub are_pieces : List Piece → Bool
unfolding are_members
are_pieces [] = true
are_pieces (p ∷ ps) = is_piece p && are_pieces ps

abbrev pub is_one : Char → Member → Bool
is_one c (member d) = nat_eq (code c) (code d)
is_one c (span x y) = leb (code x) (code c) && leb (code c) (code y)

unfoldable pub is_any : Char → List Member → Bool
is_any c [] = false
is_any c (m ∷ ms) = is_one c m || is_any c ms

abbrev pub is_allowed : Sign → Bool → Bool
is_allowed positive found = found
is_allowed bang found = not found
is_allowed caret found = not found

-- The one character that a piece other than `*` stands for
abbrev pub stands_for : Piece → Char → Bool
stands_for any_text c = false
stands_for any_char c = true
stands_for (plain d) c = nat_eq (code c) (code d)
stands_for (class_of sign m ms) c = is_allowed sign (is_any c (m ∷ ms))

-- `*` stands for any text, each other piece for one character.
pub data Globs : List Piece → String → Type 0 where
  done : Globs [] ""
  none_more : {ps : List Piece} {s : String} → Globs ps s → Globs (any_text ∷ ps) s
  one_more :
      {ps : List Piece} {s : String} (c : Char)
      → Globs (any_text ∷ ps) s
      → Globs (any_text ∷ ps) (String.◌∷◌ c s)
  one_char :
      {p : Piece} {ps : List Piece} {c : Char} {s : String}
      → stands_for p c ≡ true
      → Globs ps s
      → Globs (p ∷ ps) (String.◌∷◌ c s)
