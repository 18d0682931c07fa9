-- ===== src/Paths/Status/Printed.antt =====
-- What git prints is read back.
use Prim.Native.Char.{code, nul}
use text.Mathlib.TextLemmas.{nil-append, cons-append}
use mergetrain.Prelude.{
  true, false, List, [], ◌∷◌, ◌++◌, String, nat_eq, nonempty, ◌<>◌, ◌≡◌, refl, ap, ◌∙◌, text_column,
  arith, All,
}
use mergetrain.Quoting.Render.{has_char}
use mergetrain.Paths.Gate.{split_at, onto_first}
use mergetrain.Paths.Status.{
  paths, is_status, all_digits, has_two_paths, is_path, and_paths, parse_fields, drop_last,
  last_is_empty, without_last, distinct_texts, parse_name_status_z,
}

-- A changed path, or the two endpoints of a rename or a copy, each with its status.
pub data Change : Type 0 where
  changed : String → String → Change
  moved : String → String → String → Change

abbrev pub IsChange : Change → Type 0
IsChange (changed status path) =
    (is_status status ≡ true) × (has_two_paths status ≡ false) × (is_path path ≡ true)
IsChange (moved status source target) =
    (is_status status ≡ true)
    × (has_two_paths status ≡ true)
    × (is_path source ≡ true)
    × (is_path target ≡ true)

-- A field and the NUL that ends it, before the rest.
abbrev pub terminated : String → String → String
terminated field rest = field <> String.◌∷◌ nul rest

unfoldable pub print : List Change → String
print [] = ""
print (changed status path ∷ more) = terminated status (terminated path (print more))
print (moved status source target ∷ more) =
    terminated status (terminated source (terminated target (print more)))

unfoldable pub endpoints : List Change → List String
endpoints [] = []
endpoints (changed status path ∷ more) = path ∷ endpoints more
endpoints (moved status source target ∷ more) = source ∷ target ∷ endpoints more

fields : List Change → List String
fields [] = []
fields (changed status path ∷ more) = status ∷ path ∷ fields more
fields (moved status source target ∷ more) = status ∷ source ∷ target ∷ fields more

split_at-terminated :
    (field rest : String)
    → has_char 0 field ≡ false
    → split_at 0 (terminated field rest) ≡ field ∷ split_at 0 rest
unfolding split_at has_char
split_at-terminated String.[] rest h = ap (split_at 0) (nil-append (String.◌∷◌ nul rest))
split_at-terminated (String.◌∷◌ c s) rest h =
    let miss : nat_eq (code c) 0 ≡ false = ground arith in
    let others : has_char 0 s ≡ false = ground arith in
    ap (split_at 0) (cons-append c s (String.◌∷◌ nul rest))
    ∙ rw (split_at, miss) (ap (onto_first c) (split_at-terminated s rest others))

all_digits-nul : (s : String) → all_digits s ≡ true → has_char 0 s ≡ false
unfolding all_digits has_char
all_digits-nul String.[] h = refl
all_digits-nul (String.◌∷◌ c s) h =
    let tail : has_char 0 s ≡ false = all_digits-nul s (ground arith) in ground arith

is_status-nul : (s : String) → is_status s ≡ true → has_char 0 s ≡ false
unfolding is_status has_char
is_status-nul String.[] h = refl
is_status-nul (String.◌∷◌ c s) h =
    let tail : has_char 0 s ≡ false = all_digits-nul s (ground arith) in ground arith

is_path-nul : (s : String) → is_path s ≡ true → has_char 0 s ≡ false
is_path-nul s h = ground arith

split_at-print : (cs : List Change) → All IsChange cs → split_at 0 (print cs) ≡ fields cs ++ "" ∷ []
unfolding split_at print fields
split_at-print [] all = refl
split_at-print (changed status path ∷ more) ((st, one_path, p), all) =
    split_at-terminated status _ (is_status-nul status st)
    ∙ ap (◌∷◌ status) (
        split_at-terminated path (print more) (is_path-nul path p)
        ∙ ap (◌∷◌ path) (split_at-print more all))
split_at-print (moved status source target ∷ more) ((st, two_paths, p, q), all) =
    split_at-terminated status _ (is_status-nul status st)
    ∙ ap (◌∷◌ status) (
        split_at-terminated source _ (is_path-nul source p)
        ∙ ap (◌∷◌ source) (
            split_at-terminated target (print more) (is_path-nul target q)
            ∙ ap (◌∷◌ target) (split_at-print more all)))

last_is_empty-append : (xs : List String) → last_is_empty (xs ++ "" ∷ []) ≡ true
last_is_empty-append [] = refl
last_is_empty-append (x ∷ []) = refl
last_is_empty-append (x ∷ (y ∷ ys)) = last_is_empty-append (y ∷ ys)

drop_last-append : (x : String) (xs : List String) → drop_last x (xs ++ "" ∷ []) ≡ x ∷ xs
drop_last-append x [] = refl
drop_last-append x (y ∷ ys) = ap (◌∷◌ x) (drop_last-append y ys)

without_last-append : (xs : List String) → without_last (xs ++ "" ∷ []) ≡ xs
without_last-append [] = refl
without_last-append (x ∷ xs) = drop_last-append x xs

parse_changed :
    (status path : String) (rest : List String)
    → is_status status ≡ true
    → has_two_paths status ≡ false
    → is_path path ≡ true
    → parse_fields (status ∷ path ∷ rest) ≡ and_paths (path ∷ []) (parse_fields rest)
unfolding parse_fields
parse_changed status path [] st one_path p = rw (parse_fields, st, one_path, p) refl
parse_changed status path (x ∷ xs) st one_path p = rw (parse_fields, st, one_path, p) refl

parse_moved :
    (status source target : String) (rest : List String)
    → is_status status ≡ true
    → has_two_paths status ≡ true
    → is_path source ≡ true
    → is_path target ≡ true
    → parse_fields (status ∷ source ∷ target ∷ rest)
      ≡ and_paths (source ∷ target ∷ []) (parse_fields rest)
unfolding parse_fields
parse_moved status source target rest st two_paths p q = ground arith

parse_fields-fields :
    (cs : List Change) → All IsChange cs → parse_fields (fields cs) ≡ paths (endpoints cs)
unfolding fields endpoints parse_fields
parse_fields-fields [] all = refl
parse_fields-fields (changed status path ∷ more) ((st, one_path, p), all) =
    parse_changed status path (fields more) st one_path p
    ∙ ap (and_paths (path ∷ [])) (parse_fields-fields more all)
parse_fields-fields (moved status source target ∷ more) ((st, two_paths, p, q), all) =
    parse_moved status source target (fields more) st two_paths p q
    ∙ ap (and_paths (source ∷ target ∷ [])) (parse_fields-fields more all)

nonempty-terminated : (field rest : String) → nonempty (terminated field rest) ≡ true
nonempty-terminated String.[] rest = ap nonempty (nil-append (String.◌∷◌ nul rest))
nonempty-terminated (String.◌∷◌ c s) rest = ap nonempty (cons-append c s (String.◌∷◌ nul rest))

listed :
    (cs : List Change)
    → nonempty (print cs) ≡ true
    → All IsChange cs
    → parse_name_status_z (print cs) ≡ paths (distinct_texts (endpoints cs))
unfolding parse_name_status_z
listed cs some_text all =
    rw
      (
        some_text,
        split_at-print cs all,
        last_is_empty-append (fields cs),
        without_last-append (fields cs),
        parse_fields-fields cs all,
      )
      refl

-- The NUL-terminated listing of changes, each with a valid status and non-empty paths without NUL, is
-- read back as the paths of the changes in their order, both endpoints of a rename or a copy among
-- them, each path once.
pub parse_name_status_z-print :
    (cs : List Change)
    → All IsChange cs
    → parse_name_status_z (print cs) ≡ paths (distinct_texts (endpoints cs))
unfolding parse_name_status_z print endpoints
parse_name_status_z-print [] all = refl
parse_name_status_z-print (changed status path ∷ more) all =
    listed (changed status path ∷ more) (nonempty-terminated status _) all
parse_name_status_z-print (moved status source target ∷ more) all =
    listed (moved status source target ∷ more) (nonempty-terminated status _) all
