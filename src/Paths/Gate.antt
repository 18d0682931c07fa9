-- ===== src/Paths/Gate.antt =====
-- Patterns and paths (src/mergetrain/path_gates.py): validate_gate_path_pattern, path_matches and
-- any_path_matches. A path is the list of its segments, from `split("/")`.
pub mod Covers
use Prim.Native.Char.{Char, code}
use mergetrain.Prelude.{
  ℕ, Bool, true, false, not, ◌&&◌, ◌||◌, List, [], ◌∷◌, String, if◌then◌else◌, leb, nat_eq,
  nonempty, ◌<>◌, ◌≡◌, refl, ◌==◌, text_column, has_prefix, map, exists_where,
}
use mergetrain.Quoting.Render.{has_char}
use mergetrain.Quoting.Reading.{one}
use mergetrain.Paths.Segment.{fnmatch_segment, fnmatchcase}

-- `text.split(char)`, for a character by its code
abbrev pub onto_first : Char → List String → List String
onto_first c [] = one c ∷ []
onto_first c (part ∷ parts) = String.◌∷◌ c part ∷ parts

unfoldable pub split_at : ℕ → String → List String
split_at sep String.[] = "" ∷ []
split_at sep (String.◌∷◌ c s) =
    let rest = split_at sep s in if nat_eq (code c) sep then "" ∷ rest else onto_first c rest

-- Whether the rest of a path, from one of its segments on, passes the test.
unfoldable pub some_tail : (List String → Bool) → List String → Bool
some_tail p [] = p []
some_tail p (x ∷ xs) = p (x ∷ xs) || some_tail p xs

abbrev pub one_segment : String → (List String → Bool) → List String → Bool
one_segment part p [] = false
one_segment part p (x ∷ xs) = fnmatchcase x part && p xs

-- match, of path_matches
unfoldable pub match_parts : List String → List String → Bool
unfolding some_tail
match_parts [] [] = true
match_parts [] (x ∷ xs) = false
match_parts (part ∷ parts) xs =
    if part == "**"
    then some_tail (match_parts parts) xs
    else one_segment part (match_parts parts) xs

unfoldable pub path_matches : String → String → Bool
unfolding match_parts split_at
path_matches pattern path =
    match_parts (map fnmatch_segment (split_at 47 pattern)) (split_at 47 path)

unfoldable pub any_path_matches : List String → List String → Bool
any_path_matches patterns paths =
    exists_where (λ path. exists_where (λ pattern. path_matches pattern path) patterns) paths

pub data PatternCheck : Type 0 where
  valid : PatternCheck
  empty_pattern nul windows_separator absolute empty_segment dot_segment partial_globstar :
      PatternCheck

-- `_WINDOWS_ABSOLUTE.match(pattern)`
unfoldable pub windows_absolute : String → Bool
windows_absolute String.[] = false
windows_absolute (String.◌∷◌ c s) =
    let n = code c in ((leb 65 n && leb n 90) || (leb 97 n && leb n 122)) && has_prefix ":/" s

unfoldable pub has_globstar : String → Bool
has_globstar String.[] = false
has_globstar (String.◌∷◌ c s) = has_prefix "**" (String.◌∷◌ c s) || has_globstar s

-- validate_gate_path_pattern
unfoldable pub validate_gate_path_pattern : String → PatternCheck
unfolding split_at has_char windows_absolute has_globstar
validate_gate_path_pattern pattern =
    if not (nonempty pattern)
    then empty_pattern
    else if has_char 0 pattern
    then nul
    else if has_char 92 pattern
    then windows_separator
    else if has_prefix "/" pattern || windows_absolute pattern
    then absolute
    else if exists_where (λ part. part == "") (split_at 47 pattern)
    then empty_segment
    else if exists_where (λ part. part == "." || part == "..") (split_at 47 pattern)
    then dot_segment
    else if exists_where (λ part. has_globstar part && not (part == "**")) (split_at 47 pattern)
    then partial_globstar
    else valid
