-- ===== src/Quoting/Scan.antt =====
-- The scanner of shell commands (src/mergetrain/shell_quoting.py, _Scanner). A call of one of its
-- loops is a frame on a stack, with the loop's variables; a step is one round of the topmost loop.
use mergetrain.Prelude.{
  ℕ, suc, zero, Bool, true, false, not, ◌&&◌, ◌||◌, Option, none, some, List, [], ◌∷◌, String,
  if◌then◌else◌, nonempty, ◌<>◌, has_prefix, text_column, nat_column,
}
use mergetrain.Quoting.Render.{
  Context, unquoted, single, double, comment, inside, render, is_context_free,
}
use mergetrain.Quoting.Reading.{one}

-- `before` is the character before the cursor, empty at the start; `rest` is what follows it.
pub record Cursor : Type 0 where
  pub before : String
  pub rest : String
  pub out : String
  pub unproven : String

abbrev pub Values : Type 0
Values = List (String × String)

unfoldable pub copy_char : Cursor → Cursor
copy_char c = elim c.rest [
  | String.[] ↦ c
  | String.◌∷◌ d s ↦ record c { before = one d; rest = s; out = c.out <> one d }
]

-- copy
unfoldable pub copy : ℕ → Cursor → Cursor
unfolding copy_char
copy zero c = c
copy (suc n) c = copy n (copy_char c)

-- doubt, where the test holds
unfoldable pub doubt_if : Bool → String → Cursor → Cursor
doubt_if test construct c =
    if test && not (nonempty c.unproven) then record c { unproven = construct } else c

-- at
abbrev pub at_text : String → Cursor → Bool
at_text text c = has_prefix text c.rest

-- One of the characters stands at the cursor.
unfoldable pub at_one_of : String → Cursor → Bool
at_one_of String.[] c = false
at_one_of (String.◌∷◌ d s) c = at_text (one d) c || at_one_of s c

-- `self.pos += len(key)`
unfoldable pub skip : String → Cursor → Cursor
skip String.[] c = c
skip (String.◌∷◌ _ key) c =
    skip key
      (elim c.rest [ String.[] ↦ c | String.◌∷◌ d s ↦ record c { before = one d; rest = s } ])

pub data Expansion : Type 0 where
  absent refused : Expansion
  expanded : Cursor → Expansion

abbrev pub inserted : String → Cursor → Option String → Expansion
inserted key c none = refused
inserted key c (some text) = expanded (skip key (record c { out = c.out <> text }))

-- placeholder
unfoldable pub placeholder : Values → Context → Cursor → Expansion
unfolding render
placeholder [] context c = absent
placeholder ((key, value) ∷ more) context c =
    let rest = placeholder more context c in
    if at_text key c then inserted key c (render c.unproven context value) else rest

-- A round of a loop: refused, or the frames that are left and the cursor.
pub data Loop : Type 0 where
  -- code, with `nested`, `word_start`, `plain`, `word` and `depth`
  code_frame : Bool → Bool → Bool → String → ℕ → Loop
  comment_frame single_frame double_frame backquote_frame parameter_frame ansi_frame : Loop
  -- arithmetic, with `depth`
  arithmetic_frame : ℕ → Loop

abbrev pub Round : Type 0
Round = Option (List Loop × Cursor)

abbrev pub go_on : List Loop → Cursor → Round
go_on stack c = some (stack, c)

-- The context in which each loop expands placeholders.
abbrev pub context_of : Loop → Context
context_of (code_frame nested word_start plain word depth) = unquoted
context_of comment_frame = comment
context_of single_frame = single
context_of double_frame = double
context_of backquote_frame = inside "a backquoted command substitution"
context_of parameter_frame = inside "a ${...} expansion"
context_of ansi_frame = inside "a $'...' string"
context_of (arithmetic_frame depth) = inside "an arithmetic expansion"

-- `word_start = plain = False`
abbrev pub mid_word : Loop → Loop
mid_word (code_frame nested word_start plain word depth) = code_frame nested false false word depth
mid_word comment_frame = comment_frame
mid_word single_frame = single_frame
mid_word double_frame = double_frame
mid_word backquote_frame = backquote_frame
mid_word parameter_frame = parameter_frame
mid_word ansi_frame = ansi_frame
mid_word (arithmetic_frame depth) = arithmetic_frame depth

unfoldable pub any_key : Values → Cursor → Bool
any_key [] c = false
any_key ((key, value) ∷ more) c = at_text key c || any_key more c

-- A placeholder that needs quoting stands at the cursor.
unfoldable pub any_quoted_key : Values → Cursor → Bool
any_quoted_key [] c = false
any_quoted_key ((key, value) ∷ more) c =
    (at_text key c && not (is_context_free value)) || any_quoted_key more c

-- dollar: `stack` holds the caller's frame.
unfoldable pub dollar : Values → Bool → List Loop → Cursor → Round
unfolding copy doubt_if any_key any_quoted_key at_one_of
dollar values in_quotes stack c =
    if at_text "$((" c
    then go_on (arithmetic_frame 0 ∷ stack) (copy 3 c)
    else if at_text "$(" c
    then go_on (code_frame true true true "" 0 ∷ stack) (copy 2 c)
    else if at_text "${" c
    then go_on (parameter_frame ∷ stack) (copy 2 c)
    else if not in_quotes && at_text "$'" c
    then go_on (ansi_frame ∷ stack) (copy 2 c)
    else if at_text "$[" c
    then go_on stack (copy 2 (doubt_if true "a $[...] arithmetic expansion" c))
    else if any_quoted_key values (copy 1 c)
    then none
    else if at_text "$" (copy 1 c) && not (any_key values (copy 1 c))
    then go_on stack (
        doubt_if (in_quotes && at_one_of "({[" (copy 1 (copy 1 c)))
          "'$$(', '$${', or '$$[' inside double quotes" (copy 1 (copy 1 c)))
    else go_on stack (copy 1 c)
