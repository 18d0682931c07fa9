-- ===== src/Recovery/Refs.antt =====
-- The refs of a push as one column.
use Prim.Native.Char.{code}
use text.Mathlib.TextLemmas.{nil-append, cons-append}
use mergetrain.Prelude.{
  ◌≡◌, refl, ap, ◌∙◌, true, false, List, [], ◌∷◌, String, All, nonempty, ◌<>◌, join_lines,
  split_lines, push_char, nat_eq, nat_column,
}
use mergetrain.Recovery.{pack_push_refs, unpack_push_refs, nonempty_texts}

-- No line break in it
abbrev pub IsOneLine : String → Type 0
IsOneLine String.[] = Unit
IsOneLine (String.◌∷◌ c s) = (nat_eq (code c) 10 ≡ false) × IsOneLine s

break_line : (rest : String) → split_lines ("\n" <> rest) ≡ "" ∷ split_lines rest
unfolding split_lines
break_line rest = rw (cons-append "\n" "" rest, nil-append rest) refl

split_lines-join :
    (t rest : String) → IsOneLine t → split_lines (t <> ("\n" <> rest)) ≡ t ∷ split_lines rest
unfolding split_lines push_char
split_lines-join String.[] rest h = rw (nil-append ("\n" <> rest)) (break_line rest)
split_lines-join (String.◌∷◌ c t) rest h =
    rw (cons-append c t ("\n" <> rest)) (rw h.0 (ap (push_char c) (split_lines-join t rest h.1)))

split_lines-one : (t : String) → IsOneLine t → split_lines t ≡ t ∷ []
unfolding split_lines push_char
split_lines-one String.[] h = refl
split_lines-one (String.◌∷◌ c t) h = rw h.0 (ap (push_char c) (split_lines-one t h.1))

abbrev pub IsRef : String → Type 0
IsRef t = (nonempty t ≡ true) × IsOneLine t

split_lines-join_lines :
    (t : String) (ts : List String)
    → All IsRef (t ∷ ts)
    → split_lines (join_lines (t ∷ ts)) ≡ t ∷ ts
unfolding join_lines
split_lines-join_lines t [] h = split_lines-one t h.0.1
split_lines-join_lines t (u ∷ ts) h =
    split_lines-join t (join_lines (u ∷ ts)) h.0.1 ∙ ap (◌∷◌ t) (split_lines-join_lines u ts h.1)

All-nonempty : (ts : List String) → All IsRef ts → nonempty_texts ts ≡ ts
All-nonempty [] h = refl
All-nonempty (t ∷ ts) h = rw h.0.0 (ap (◌∷◌ t) (All-nonempty ts h.1))

-- Refs that are neither empty nor broken over lines are read from the column as they were written.
pub unpack_push_refs-pack_push_refs :
    (refs : List String) → All IsRef refs → unpack_push_refs (pack_push_refs refs) ≡ refs
unfolding unpack_push_refs pack_push_refs join_lines split_lines
unpack_push_refs-pack_push_refs [] h = refl
unpack_push_refs-pack_push_refs (t ∷ ts) h =
    rw (split_lines-join_lines t ts h) (All-nonempty (t ∷ ts) h)
