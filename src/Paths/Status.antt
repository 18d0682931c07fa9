-- ===== src/Paths/Status.antt =====
-- The output of `git diff --name-status -z` (src/mergetrain/path_gates.py, parse_name_status_z).
pub mod Printed
use Prim.Native.Char.{Char, code}
use mergetrain.Prelude.{
  ℕ, Bool, true, false, not, ◌&&◌, ◌||◌, List, [], ◌∷◌, ◌++◌, String, if◌then◌else◌, leb, nat_eq,
  nonempty, ◌<>◌, ◌≡◌, refl, ◌==◌, text_column, exists_where, select,
}
use mergetrain.Quoting.Render.{has_char}
use mergetrain.Paths.Gate.{split_at}

pub data Parsed : Type 0 where
  paths : List String → Parsed
  not_terminated invalid_status ended invalid_path : Parsed

unfoldable pub all_digits : String → Bool
all_digits String.[] = true
all_digits (String.◌∷◌ c s) = leb 48 (code c) && leb (code c) 57 && all_digits s

-- `_NAME_STATUS.fullmatch(status)`
unfoldable pub is_status : String → Bool
unfolding all_digits
is_status String.[] = false
is_status (String.◌∷◌ c s) = leb 65 (code c) && leb (code c) 90 && all_digits s

-- `status[0] in {"R", "C"}`
abbrev pub has_two_paths : String → Bool
has_two_paths String.[] = false
has_two_paths (String.◌∷◌ c s) = nat_eq (code c) 82 || nat_eq (code c) 67

-- `not path or "\0" in path`, negated
abbrev pub is_path : String → Bool
is_path path = nonempty path && not (has_char 0 path)

abbrev pub and_paths : List String → Parsed → Parsed
and_paths found (paths more) = paths (found ++ more)
and_paths found not_terminated = not_terminated
and_paths found invalid_status = invalid_status
and_paths found ended = ended
and_paths found invalid_path = invalid_path

-- The loop over the fields
unfoldable pub parse_fields : List String → Parsed
unfolding is_status has_char
parse_fields [] = paths []
parse_fields (status ∷ []) = if is_status status then ended else invalid_status
parse_fields (status ∷ (first ∷ [])) =
    if not (is_status status)
    then invalid_status
    else if has_two_paths status
    then ended
    else if is_path first
    then paths (first ∷ [])
    else invalid_path
parse_fields (status ∷ (first ∷ (second ∷ fields))) =
    if not (is_status status) then invalid_status else elim (has_two_paths status) [
      | true ↦
          if is_path first && is_path second
          then and_paths (first ∷ second ∷ []) (parse_fields fields)
          else invalid_path
      | false ↦
          if is_path first
          then and_paths (first ∷ []) (parse_fields (second ∷ fields))
          else invalid_path
    ]

-- The fields before the last, which has to be empty.
abbrev pub drop_last : String → List String → List String
drop_last x [] = []
drop_last x (y ∷ ys) = x ∷ drop_last y ys

abbrev pub last_is_empty : List String → Bool
last_is_empty [] = false
last_is_empty (x ∷ []) = x == ""
last_is_empty (x ∷ (y ∷ ys)) = last_is_empty (y ∷ ys)

abbrev pub without_last : List String → List String
without_last [] = []
without_last (x ∷ xs) = drop_last x xs

-- `tuple(dict.fromkeys(paths))`
unfoldable pub distinct_texts : List String → List String
distinct_texts [] = []
distinct_texts (x ∷ xs) = x ∷ select (λ y. not (x == y)) (distinct_texts xs)

abbrev pub without_repeats : Parsed → Parsed
without_repeats (paths found) = paths (distinct_texts found)
without_repeats not_terminated = not_terminated
without_repeats invalid_status = invalid_status
without_repeats ended = ended
without_repeats invalid_path = invalid_path

unfoldable pub parse_name_status_z : String → Parsed
unfolding parse_fields split_at distinct_texts
parse_name_status_z output =
    if not (nonempty output)
    then paths []
    else if last_is_empty (split_at 0 output)
    then without_repeats (parse_fields (without_last (split_at 0 output)))
    else not_terminated
