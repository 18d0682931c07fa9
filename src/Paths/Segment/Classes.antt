-- ===== src/Paths/Segment/Classes.antt =====
-- Patterns as users write them, through the rewriting of `[^` and the reading of fnmatch.
use Prim.Native.Char.{Char}
use mergetrain.Prelude.{
  true, false, List, [], ◌∷◌, String, ◌≡◌, refl, ap, ◌∙◌, map, arith, nat_column, text_column,
}
use mergetrain.Quoting.Render.{has_char}
use mergetrain.Quoting.Reading.Rendered.{cons_one}
use mergetrain.Paths.Segment.{
  is_open, is_close, is_bang, is_caret, outside, opening, first, body, rewrite_class,
  fnmatch_segment,
}
use mergetrain.Paths.Segment.Globs.{
  Member, member, span, Sign, positive, bang, caret, Piece, any_text, any_char, plain, class_of,
  member_onto, members_onto, sign_onto, piece_onto, printed, is_class_member, are_members,
  first_char, is_start, is_piece, are_pieces,
}

abbrev pub closed : String → String
closed s = String.◌∷◌ "]" s

pub has_close : (ms : List Member) (s : String) → has_char 93 (members_onto ms (closed s)) ≡ true
unfolding has_char members_onto
has_close [] s = ground arith
has_close (member c ∷ ms) s = let later = has_close ms s in ground arith
has_close (span x y ∷ ms) s = let later = has_close ms s in ground arith

body_char :
    (c : Char) (s : String)
    → is_close c ≡ false
    → rewrite_class body (String.◌∷◌ c s) ≡ String.◌∷◌ c (rewrite_class body s)
unfolding rewrite_class
body_char c s h = rw (rewrite_class, h) (cons_one c (rewrite_class body s))

body_span :
    (x y : Char) (s : String)
    → is_class_member (span x y) ≡ true
    → rewrite_class body (member_onto (span x y) s) ≡ member_onto (span x y) (rewrite_class body s)
body_span x y s h =
    let dash : is_close "-" ≡ false = refl in
    body_char x (String.◌∷◌ "-" (String.◌∷◌ y s)) (ground arith)
    ∙ ap (String.◌∷◌ x)
        (body_char "-" (String.◌∷◌ y s) dash ∙ ap (String.◌∷◌ "-") (body_char y s (ground arith)))

first_as_body :
    (c : Char) (s : String)
    → is_close c ≡ false
    → rewrite_class first (String.◌∷◌ c s) ≡ rewrite_class body (String.◌∷◌ c s)
unfolding rewrite_class
first_as_body c s h = rw (rewrite_class, h) refl

opening_as_body :
    (c : Char) (s : String)
    → is_close c ≡ false
    → is_start positive c ≡ true
    → rewrite_class opening (String.◌∷◌ c s) ≡ rewrite_class body (String.◌∷◌ c s)
unfolding rewrite_class
opening_as_body c s h start =
    let caretless : is_caret c ≡ false = ground arith in
    let bangless : is_bang c ≡ false = ground arith in
    rw (rewrite_class, caretless, bangless, h) refl

first_member :
    (m : Member) (s : String)
    → is_class_member m ≡ true
    → rewrite_class first (member_onto m s) ≡ rewrite_class body (member_onto m s)
first_member (member c) s h = first_as_body c s (ground arith)
first_member (span x y) s h = first_as_body x (String.◌∷◌ "-" (String.◌∷◌ y s)) (ground arith)

opening_member :
    (m : Member) (s : String)
    → is_class_member m ≡ true
    → is_start positive (first_char m) ≡ true
    → rewrite_class opening (member_onto m s) ≡ rewrite_class body (member_onto m s)
opening_member (member c) s h start = opening_as_body c s (ground arith) start
opening_member (span x y) s h start =
    opening_as_body x (String.◌∷◌ "-" (String.◌∷◌ y s)) (ground arith) start

rest_rewritten :
    (ms : List Member) (s : String)
    → are_members ms ≡ true
    → rewrite_class body (members_onto ms (closed s))
      ≡ members_onto ms (closed (rewrite_class outside s))
unfolding rewrite_class members_onto are_members
rest_rewritten [] s h = cons_one "]" (rewrite_class outside s)
rest_rewritten (member c ∷ ms) s h =
    body_char c (members_onto ms (closed s)) (ground arith)
    ∙ ap (String.◌∷◌ c) (rest_rewritten ms s (ground arith))
rest_rewritten (span x y ∷ ms) s h =
    body_span x y (members_onto ms (closed s)) (ground arith)
    ∙ ap (member_onto (span x y)) (rest_rewritten ms s (ground arith))

-- fnmatch negates by `!` only.
abbrev pub banged : Sign → Sign
banged positive = positive
banged bang = bang
banged caret = bang

sign_rewritten :
    (sign : Sign) (m : Member) (ms : List Member) (s : String)
    → is_class_member m ≡ true
    → are_members (m ∷ ms) ≡ true
    → is_start sign (first_char m) ≡ true
    → rewrite_class opening (sign_onto sign (members_onto (m ∷ ms) (closed s)))
      ≡ sign_onto (banged sign) (members_onto (m ∷ ms) (closed (rewrite_class outside s)))
unfolding rewrite_class members_onto
sign_rewritten positive m ms s one_member all start =
    opening_member m (members_onto ms (closed s)) one_member start ∙ rest_rewritten (m ∷ ms) s all
sign_rewritten bang m ms s one_member all start =
    cons_one "!" (rewrite_class first (members_onto (m ∷ ms) (closed s)))
    ∙ ap (String.◌∷◌ "!")
        (first_member m (members_onto ms (closed s)) one_member ∙ rest_rewritten (m ∷ ms) s all)
sign_rewritten caret m ms s one_member all start =
    cons_one "!" (rewrite_class first (members_onto (m ∷ ms) (closed s)))
    ∙ ap (String.◌∷◌ "!")
        (first_member m (members_onto ms (closed s)) one_member ∙ rest_rewritten (m ∷ ms) s all)

abbrev pub banged_piece : Piece → Piece
banged_piece any_text = any_text
banged_piece any_char = any_char
banged_piece (plain c) = plain c
banged_piece (class_of sign m ms) = class_of (banged sign) m ms

has_close_after :
    (sign : Sign) (ms : List Member) (s : String)
    → has_char 93 (sign_onto sign (members_onto ms (closed s))) ≡ true
unfolding has_char
has_close_after positive ms s = has_close ms s
has_close_after bang ms s = let later = has_close ms s in ground arith
has_close_after caret ms s = let later = has_close ms s in ground arith

piece_rewritten :
    (p : Piece) (s : String)
    → is_piece p ≡ true
    → rewrite_class outside (piece_onto p s) ≡ piece_onto (banged_piece p) (rewrite_class outside s)
unfolding rewrite_class are_members members_onto
piece_rewritten any_text s h = cons_one "*" (rewrite_class outside s)
piece_rewritten any_char s h = cons_one "?" (rewrite_class outside s)
piece_rewritten (plain c) s h =
    let unopened : is_open c ≡ false = ground arith in
    rw (rewrite_class, unopened) (cons_one c (rewrite_class outside s))
piece_rewritten (class_of sign m ms) s h =
    rw (rewrite_class, has_close_after sign (m ∷ ms) s)
      (cons_one "[" (rewrite_class opening (sign_onto sign (members_onto (m ∷ ms) (closed s))))
        ∙ ap (String.◌∷◌ "[")
            (sign_rewritten sign m ms s (ground arith) (ground arith) (ground arith)))

pub fnmatch_segment-printed :
    (ps : List Piece)
    → are_pieces ps ≡ true
    → fnmatch_segment (printed ps) ≡ printed (map banged_piece ps)
unfolding fnmatch_segment rewrite_class printed are_pieces
fnmatch_segment-printed [] h = refl
fnmatch_segment-printed (p ∷ ps) h =
    piece_rewritten p (printed ps) (ground arith)
    ∙ ap (piece_onto (banged_piece p)) (fnmatch_segment-printed ps (ground arith))
