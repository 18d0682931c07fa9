-- ===== src/Paths/Gate/Covers.antt =====
-- What a pattern covers, as users write it, and that path_matches decides it.
use mergetrain.Prelude.{
  Bool, true, false, not, ◌&&◌, List, [], ◌∷◌, String, ◌≡◌, ◌↔◌, inl, inr, refl, ◌==◌, text_column,
  text_eq_iff, map, Bool-cases, arith, sym, ap, ◌∙◌,
}
use mergetrain.Paths.Segment.{fnmatchcase, fnmatch_segment, star, tokens, between}
use mergetrain.Paths.Segment.Globs.{
  Piece, any_text, any_char, plain, class_of, printed, are_pieces, Globs,
}
use mergetrain.Paths.Segment.Reads.{token_of, tokens-fnmatch_segment}
use mergetrain.Paths.Segment.Pieces.{fnmatchcase-printed}
use mergetrain.Paths.Segment.Spells.{or_later, both}
use mergetrain.Paths.Gate.{some_tail, one_segment, match_parts, path_matches, split_at}

-- `**`, or the pattern of one segment
pub data Part : Type 0 where
  globstar : Part
  glob : List Piece → Part

abbrev pub written : Part → String
written globstar = "**"
written (glob ps) = printed ps

abbrev is_two_stars : List Piece → Bool
is_two_stars (any_text ∷ any_text ∷ []) = true
is_two_stars _ = false

abbrev pub is_part : Part → Bool
is_part globstar = true
is_part (glob ps) = are_pieces ps && not (is_two_stars ps)

unfoldable pub are_parts : List Part → Bool
unfolding are_pieces
are_parts [] = true
are_parts (part ∷ parts) = is_part part && are_parts parts

-- `**` stands for any number of segments, every other part for one segment.
pub data Covers : List Part → List String → Type 0 where
  done : Covers [] []
  none_more :
      {parts : List Part} {xs : List String} → Covers parts xs → Covers (globstar ∷ parts) xs
  one_more :
      {parts : List Part} {xs : List String} (x : String)
      → Covers (globstar ∷ parts) xs
      → Covers (globstar ∷ parts) (x ∷ xs)
  segment :
      {ps : List Piece} {x : String} {parts : List Part} {xs : List String}
      → Globs ps x
      → Covers parts xs
      → Covers (glob ps ∷ parts) (x ∷ xs)

two_stars : (ps : List Piece) → map token_of ps ≡ star ∷ star ∷ [] → is_two_stars ps ≡ true
two_stars [] e = cc
two_stars (any_text ∷ []) e = cc
two_stars (any_text ∷ any_text ∷ []) e = refl
two_stars (any_text ∷ any_text ∷ p ∷ ps) e = cc
two_stars (any_text ∷ any_char ∷ ps) e = cc
two_stars (any_text ∷ plain c ∷ ps) e = cc
two_stars (any_text ∷ class_of sign m ms ∷ ps) e = cc
two_stars (any_char ∷ ps) e = cc
two_stars (plain c ∷ ps) e = cc
two_stars (class_of sign m ms ∷ ps) e = cc

stars_read : tokens between "**" ≡ star ∷ star ∷ []
unfolding tokens
stars_read = refl

globstar_kept : (fnmatch_segment "**" == "**") ≡ true
unfolding fnmatch_segment
globstar_kept = refl

glob_plain :
    (ps : List Piece) → is_part (glob ps) ≡ true → (fnmatch_segment (printed ps) == "**") ≡ false
glob_plain ps h = elim (Bool-cases (fnmatch_segment (printed ps) == "**")) [
  | inl same ↦
      let named = (text_eq_iff (fnmatch_segment (printed ps)) "**").0 same in
      let two =
        two_stars ps (
          sym (tokens-fnmatch_segment ps (ground arith))
          ∙ ap (tokens between) named
          ∙ stars_read) in
      absurd (ground arith)
  | inr other ↦ other
]

abbrev covers : List Part → List String → Bool
covers parts = match_parts (map fnmatch_segment (map written parts))

some_tail-Covers :
    (parts : List Part) (p : List String → Bool)
    → ((xs : List String) → p xs ≡ true → Covers parts xs)
    → (xs : List String) → some_tail p xs ≡ true
    → Covers (globstar ∷ parts) xs
unfolding some_tail
some_tail-Covers parts p h [] e = none_more (h [] e)
some_tail-Covers parts p h (x ∷ xs) e = elim (Bool-cases (p (x ∷ xs))) [
  | inl here ↦ none_more (h (x ∷ xs) here)
  | inr later ↦ one_more x (some_tail-Covers parts p h xs (ground arith))
]

one_segment-Covers :
    (ps : List Piece) (parts : List Part) (p : List String → Bool)
    → are_pieces ps ≡ true
    → ((xs : List String) → p xs ≡ true → Covers parts xs)
    → (xs : List String) → one_segment (fnmatch_segment (printed ps)) p xs ≡ true
    → Covers (glob ps ∷ parts) xs
one_segment-Covers ps parts p all h [] e = absurd (ground arith)
one_segment-Covers ps parts p all h (x ∷ xs) e =
    let here : fnmatchcase x (fnmatch_segment (printed ps)) ≡ true = ground arith in
    segment ((fnmatchcase-printed x ps all).0 here) (h xs (ground arith))

match_parts-globstar :
    (parts : List Part) (xs : List String)
    → covers (globstar ∷ parts) xs ≡ some_tail (covers parts) xs
unfolding match_parts
match_parts-globstar parts xs = rw (match_parts, globstar_kept) refl

match_parts-glob :
    (ps : List Piece) (parts : List Part) (xs : List String)
    → is_part (glob ps) ≡ true
    → covers (glob ps ∷ parts) xs ≡ one_segment (fnmatch_segment (printed ps)) (covers parts) xs
unfolding match_parts
match_parts-glob ps parts xs h = rw (match_parts, glob_plain ps h) refl

match_parts-Covers :
    (parts : List Part) (xs : List String)
    → are_parts parts ≡ true
    → covers parts xs ≡ true
    → Covers parts xs
unfolding match_parts are_parts
match_parts-Covers [] [] h e = done
match_parts-Covers [] (x ∷ xs) h e = absurd (ground arith)
match_parts-Covers (globstar ∷ parts) xs h e =
    some_tail-Covers parts (covers parts) (λ xs. match_parts-Covers parts xs (ground arith)) xs
      (sym (match_parts-globstar parts xs) ∙ e)
match_parts-Covers (glob ps ∷ parts) xs h e =
    one_segment-Covers ps parts (covers parts) (ground arith)
      (λ xs. match_parts-Covers parts xs (ground arith)) xs
      (sym (match_parts-glob ps parts xs (ground arith)) ∙ e)

some_tail-here : (p : List String → Bool) (xs : List String) → p xs ≡ true → some_tail p xs ≡ true
unfolding some_tail
some_tail-here p [] h = h
some_tail-here p (x ∷ xs) h = ground arith

Covers-match_parts :
    {parts : List Part} {xs : List String}
    → are_parts parts ≡ true
    → Covers parts xs
    → covers parts xs ≡ true
unfolding match_parts some_tail are_parts
Covers-match_parts h done = refl
Covers-match_parts h (none_more {parts} {xs} c) =
    match_parts-globstar parts xs
    ∙ some_tail-here (covers parts) xs (Covers-match_parts (ground arith) c)
Covers-match_parts h (one_more {parts} {xs} x c) =
    match_parts-globstar parts (x ∷ xs)
    ∙ or_later (covers parts (x ∷ xs)) (some_tail (covers parts) xs)
        (sym (match_parts-globstar parts xs) ∙ Covers-match_parts h c)
Covers-match_parts h (segment {ps} {x} {parts} {xs} g c) =
    match_parts-glob ps parts (x ∷ xs) (ground arith)
    ∙ both (fnmatchcase x (fnmatch_segment (printed ps))) (covers parts xs)
        ((fnmatchcase-printed x ps (ground arith)).1 g) (Covers-match_parts (ground arith) c)

-- A pattern whose segments are `**` or are written of `*`, `?`, characters and classes matches a
-- path exactly where `**` stands for any number of its segments and every other part for one, with
-- any text for `*`, any character for `?`, and for a class one character that is among its members
-- and ranges, or none of them where it starts with `!` or `^`. The classes have members, none of
-- them `]` or `-`, and start with `!` or `^` only to negate.
pub path_matches_iff :
    (pattern path : String) (parts : List Part)
    → are_parts parts ≡ true
    → split_at 47 pattern ≡ map written parts
    → (path_matches pattern path ≡ true) ↔ Covers parts (split_at 47 path)
unfolding path_matches
path_matches_iff pattern path parts all spelled =
    let read = ap (λ texts. match_parts (map fnmatch_segment texts) (split_at 47 path)) spelled in
    (
      λ e. match_parts-Covers parts (split_at 47 path) all (sym read ∙ e),
      λ c. read ∙ Covers-match_parts all c,
    )
