-- ===== src/Paths/Segment/Reads.antt =====
-- The parts that fnmatch reads in a pattern as users write it.
use Prim.Native.Char.{Char}
use text.Mathlib.TextLemmas.{append_assoc, append-nil}
use mergetrain.Prelude.{
  Bool, true, false, List, [], ◌∷◌, String, ◌<>◌, ◌≡◌, refl, ap, sym, ◌∙◌, map, arith, nat_column,
  text_column,
}
use mergetrain.Quoting.Render.{has_char}
use mergetrain.Quoting.Reading.{one}
use mergetrain.Quoting.Reading.Rendered.{cons_one}
use mergetrain.Paths.Segment.{
  is_star, is_question, is_open, is_close, is_bang, fnmatch_segment, Token, star, any, literal,
  class, closes, between, after_open, members, tokens,
}
use mergetrain.Paths.Segment.Globs.{
  Member, member, span, Sign, positive, bang, caret, Piece, any_text, any_char, plain, class_of,
  members_onto, sign_onto, piece_onto, printed, is_class_member, are_members, first_char, is_start,
  is_piece, are_pieces,
}
use mergetrain.Paths.Segment.Classes.{
  closed, has_close, banged, banged_piece, fnmatch_segment-printed,
}

abbrev negates : Sign → Bool
negates positive = false
negates bang = true
negates caret = true

abbrev pub token_of : Piece → Token
token_of any_text = star
token_of any_char = any
token_of (plain c) = literal c
token_of (class_of sign m ms) = class (negates sign) (members_onto (m ∷ ms) "")

member_char :
    (negated : Bool) (written : String) (c : Char) (s : String)
    → is_close c ≡ false
    → tokens (members negated written) (String.◌∷◌ c s)
      ≡ tokens (members negated (written <> one c)) s
unfolding tokens
member_char negated written c s h = rw (tokens, h) refl

longer : (w : String) (c : Char) (s : String) → (w <> one c) <> s ≡ w <> String.◌∷◌ c s
longer w c s = append_assoc w (one c) s ∙ ap (λ t. w <> t) (cons_one c s)

abbrev class_read : Bool → String → String → List Token
class_read negated written s = class negated written ∷ tokens between s

-- The members after the first
members_read :
    (negated : Bool) (w : String) (ms : List Member) (s : String)
    → are_members ms ≡ true
    → tokens (members negated w) (members_onto ms (closed s))
      ≡ class_read negated (w <> members_onto ms "") s
unfolding tokens members_onto are_members
members_read negated w [] s h = ap (λ t. class_read negated t s) (sym (append-nil w))
members_read negated w (member c ∷ ms) s h =
    member_char negated w c (members_onto ms (closed s)) (ground arith)
    ∙ members_read negated (w <> one c) ms s (ground arith)
    ∙ ap (λ t. class_read negated t s) (longer w c (members_onto ms ""))
members_read negated w (span x y ∷ ms) s h =
    let dash : is_close "-" ≡ false = refl in
    member_char negated w x (String.◌∷◌ "-" (String.◌∷◌ y (members_onto ms (closed s))))
      (ground arith)
    ∙ member_char negated (w <> one x) "-" (String.◌∷◌ y (members_onto ms (closed s))) dash
    ∙ member_char negated ((w <> one x) <> one "-") y (members_onto ms (closed s)) (ground arith)
    ∙ members_read negated (((w <> one x) <> one "-") <> one y) ms s (ground arith)
    ∙ ap (λ t. class_read negated t s)
        (longer ((w <> one x) <> one "-") y (members_onto ms "")
          ∙ longer (w <> one x) "-" (String.◌∷◌ y (members_onto ms ""))
          ∙ longer w x (String.◌∷◌ "-" (String.◌∷◌ y (members_onto ms ""))))

abbrev after_first : Member → String → String
after_first (member c) s = s
after_first (span x y) s = String.◌∷◌ "-" (String.◌∷◌ y s)

class_started :
    (negated : Bool) (m : Member) (ms : List Member) (s : String)
    → is_class_member m ≡ true
    → are_members ms ≡ true
    → tokens (members negated (one (first_char m))) (after_first m (members_onto ms (closed s)))
      ≡ class_read negated (members_onto (m ∷ ms) "") s
unfolding members_onto
class_started negated (member c) ms s h all =
    members_read negated (one c) ms s all
    ∙ ap (λ t. class_read negated t s) (cons_one c (members_onto ms ""))
class_started negated (span x y) ms s h all =
    let dash : is_close "-" ≡ false = refl in
    member_char negated (one x) "-" (String.◌∷◌ y (members_onto ms (closed s))) dash
    ∙ member_char negated (one x <> one "-") y (members_onto ms (closed s)) (ground arith)
    ∙ members_read negated ((one x <> one "-") <> one y) ms s all
    ∙ ap (λ t. class_read negated t s)
        (longer (one x <> one "-") y (members_onto ms "")
          ∙ longer (one x) "-" (String.◌∷◌ y (members_onto ms ""))
          ∙ cons_one x (String.◌∷◌ "-" (String.◌∷◌ y (members_onto ms ""))))

opened :
    (c : Char) (s : String)
    → is_bang c ≡ false
    → tokens after_open (String.◌∷◌ c s) ≡ tokens (members false (one c)) s
unfolding tokens
opened c s h = rw (tokens, h) refl

sign_read :
    (sign : Sign) (m : Member) (ms : List Member) (s : String)
    → is_class_member m ≡ true
    → are_members ms ≡ true
    → is_start sign (first_char m) ≡ true
    → tokens after_open (sign_onto (banged sign) (members_onto (m ∷ ms) (closed s)))
      ≡ class_read (negates sign) (members_onto (m ∷ ms) "") s
unfolding tokens members_onto
sign_read positive (member c) ms s h all start =
    opened c (members_onto ms (closed s)) (ground arith) ∙ class_started false (member c) ms s h all
sign_read positive (span x y) ms s h all start =
    opened x (String.◌∷◌ "-" (String.◌∷◌ y (members_onto ms (closed s)))) (ground arith)
    ∙ class_started false (span x y) ms s h all
sign_read bang (member c) ms s h all start = class_started true (member c) ms s h all
sign_read bang (span x y) ms s h all start = class_started true (span x y) ms s h all
sign_read caret (member c) ms s h all start = class_started true (member c) ms s h all
sign_read caret (span x y) ms s h all start = class_started true (span x y) ms s h all

sign_closes :
    (sign : Sign) (m : Member) (ms : List Member) (s : String)
    → is_class_member m ≡ true
    → is_start sign (first_char m) ≡ true
    → closes (sign_onto (banged sign) (members_onto (m ∷ ms) (closed s))) ≡ true
unfolding closes has_char members_onto
sign_closes positive (member c) ms s h start = let later = has_close ms s in ground arith
sign_closes positive (span x y) ms s h start = let later = has_close ms s in ground arith
sign_closes bang (member c) ms s h start = let later = has_close ms s in ground arith
sign_closes bang (span x y) ms s h start = let later = has_close ms s in ground arith
sign_closes caret (member c) ms s h start = let later = has_close ms s in ground arith
sign_closes caret (span x y) ms s h start = let later = has_close ms s in ground arith

piece_read :
    (p : Piece) (s : String)
    → is_piece p ≡ true
    → tokens between (piece_onto (banged_piece p) s) ≡ token_of p ∷ tokens between s
unfolding tokens are_members
piece_read any_text s h = refl
piece_read any_char s h = refl
piece_read (plain c) s h =
    let unopened : is_open c ≡ false = ground arith in
    let starless : is_star c ≡ false = ground arith in
    let questionless : is_question c ≡ false = ground arith in
    rw (tokens, unopened, starless, questionless) refl
piece_read (class_of sign m ms) s h =
    rw (tokens, sign_closes sign m ms s (ground arith) (ground arith))
      (sign_read sign m ms s (ground arith) (ground arith) (ground arith))

pieces_read :
    (ps : List Piece)
    → are_pieces ps ≡ true
    → tokens between (printed (map banged_piece ps)) ≡ map token_of ps
unfolding tokens printed are_pieces
pieces_read [] h = refl
pieces_read (p ∷ ps) h =
    piece_read p (printed (map banged_piece ps)) (ground arith)
    ∙ ap (◌∷◌ (token_of p)) (pieces_read ps (ground arith))

-- What fnmatch reads of the rewritten pattern is the pattern that was written.
pub tokens-fnmatch_segment :
    (ps : List Piece)
    → are_pieces ps ≡ true
    → tokens between (fnmatch_segment (printed ps)) ≡ map token_of ps
tokens-fnmatch_segment ps h = ap (tokens between) (fnmatch_segment-printed ps h) ∙ pieces_read ps h
