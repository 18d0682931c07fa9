-- ===== src/Examples/Paths.antt =====
-- Patterns, paths and listings at concrete values.
use mergetrain.Prelude.{◌≡◌, ◌↔◌, refl, true, List, [], ◌∷◌, All, has_prefix, exists_where, select}
use mergetrain.Quoting.Render.{has_char}
use mergetrain.Paths.Segment.{
  fnmatch_segment, fnmatchcase, rewrite_class, tokens, closes, match_tokens, some_suffix, admits,
  in_class,
}
use mergetrain.Paths.Gate.{
  path_matches, match_parts, some_tail, split_at, validate_gate_path_pattern, partial_globstar,
  absolute, windows_absolute, has_globstar,
}
use mergetrain.Paths.Segment.Globs.{
  plain, any_char, any_text, class_of, caret, member, span, are_pieces, are_members, printed,
  members_onto,
}
use mergetrain.Paths.Gate.Covers.{Covers, Part, glob, globstar, are_parts, path_matches_iff}
use mergetrain.Paths.Status.{is_status, all_digits, parse_name_status_z, paths, distinct_texts}
use mergetrain.Paths.Status.Printed.{
  Change, changed, moved, IsChange, print, endpoints, parse_name_status_z-print,
}

globstar_test : path_matches "src/**/*.p[xy]" "src/a/b/c.py" ≡ true
unfolding path_matches match_parts some_tail split_at fnmatch_segment fnmatchcase rewrite_class
    tokens closes match_tokens some_suffix admits in_class has_char
globstar_test = refl

-- An unclosed negated class is rewritten although fnmatch reads its bracket as text.
unclosed_test : path_matches "[^]x" "[!]x" ≡ true
unfolding path_matches match_parts some_tail split_at fnmatch_segment fnmatchcase rewrite_class
    tokens closes match_tokens some_suffix admits in_class has_char
unclosed_test = refl

pattern_test : validate_gate_path_pattern "a**/b" ≡ partial_globstar
unfolding validate_gate_path_pattern split_at has_char windows_absolute has_globstar has_prefix
    exists_where
pattern_test = refl

drive_test : validate_gate_path_pattern "c:/b" ≡ absolute
unfolding validate_gate_path_pattern split_at has_char windows_absolute has_globstar has_prefix
    exists_where
drive_test = refl

abbrev parts : List Part
parts =
    glob (plain "s" ∷ any_char ∷ [])
    ∷ globstar
    ∷ glob (class_of caret (member "_") (span "0" "9" ∷ []) ∷ any_text ∷ plain "y" ∷ [])
    ∷ []

path_matches_iff_example :
    (path_matches "s?/**/[^_0-9]*y" "sr/a/b.py" ≡ true) ↔ Covers parts (split_at 47 "sr/a/b.py")
unfolding are_parts are_pieces are_members split_at printed members_onto
path_matches_iff_example = path_matches_iff "s?/**/[^_0-9]*y" "sr/a/b.py" parts refl refl

abbrev changes : List Change
changes = changed "M" "a" ∷ moved "R100" "a" "b c" ∷ []

changes-IsChange : All IsChange changes
unfolding is_status all_digits has_char
changes-IsChange = ((refl, refl, refl), ((refl, refl, refl, refl), tt))

parse_name_status_z-print_example : parse_name_status_z (print changes) ≡ paths ("a" ∷ "b c" ∷ [])
unfolding distinct_texts endpoints select
parse_name_status_z-print_example = parse_name_status_z-print changes changes-IsChange
