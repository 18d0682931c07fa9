-- ===== src/Quoting/Rounds.antt =====
-- The rounds of the scanner's loops (src/mergetrain/shell_quoting.py, _Scanner), and the scan as a
-- whole.
pub mod Moves
pub mod Advances
pub mod Frames
pub mod Progress
pub mod Scanning
pub mod Verbatim
pub mod Literal
pub mod Expanded
use Prim.Native.Char.{Char, code}
use mergetrain.Prelude.{
  ℕ, suc, zero, ◌+◌, ◌-◌, ◌*◌, Bool, true, false, not, ◌&&◌, ◌||◌, Option, none, some, List, [],
  ◌∷◌, String, if◌then◌else◌, leb, nat_eq, nonempty, ◌<>◌, has_prefix, ◌==◌, text_column,
  nat_column, ◌≡◌, refl,
}
use mergetrain.Quoting.Render.{
  Context, unquoted, single, double, comment, inside, render, is_context_free, one_of,
}
use mergetrain.Quoting.Reading.{one}
use mergetrain.Quoting.Scan.{
  Cursor, Values, copy, doubt_if, at_text, at_one_of, Expansion, absent, refused, expanded,
  placeholder, Loop, code_frame, comment_frame, single_frame, double_frame, backquote_frame,
  parameter_frame, ansi_frame, arithmetic_frame, Round, go_on, context_of, mid_word, dollar,
  any_key, any_quoted_key, copy_char, skip,
}

-- `self.pos and text[self.pos - 1] in chars`
unfoldable pub preceded_by : String → Cursor → Bool
preceded_by String.[] c = false
preceded_by (String.◌∷◌ d s) c = c.before == one d || preceded_by s c

abbrev joined : String
joined = "a line continuation that joins '$', '<', or '(' to the next line"

abbrev is_letter : Char → Bool
is_letter c = let n = code c in (leb 65 n && leb n 90) || (leb 97 n && leb n 122) || nat_eq n 95

abbrev is_digit : Char → Bool
is_digit c = leb 48 (code c) && leb (code c) 57

unfoldable pub all_word_chars : String → Bool
all_word_chars String.[] = true
all_word_chars (String.◌∷◌ c s) = (is_letter c || is_digit c) && all_word_chars s

-- `_NAME.fullmatch(word)`
unfoldable pub is_name : String → Bool
unfolding all_word_chars
is_name String.[] = false
is_name (String.◌∷◌ c s) = is_letter c && all_word_chars s

-- `text[self.pos]`
abbrev pub head_text : String → String
head_text String.[] = ""
head_text (String.◌∷◌ c s) = one c

-- A character that starts a quotation or an expansion: `frame` is the caller's.
unfoldable pub quotation : Values → Loop → List Loop → Cursor → Round
quotation values frame stack c =
    if at_text "'" c
    then go_on (single_frame ∷ frame ∷ stack) (copy 1 c)
    else if at_text "\"" c
    then go_on (double_frame ∷ frame ∷ stack) (copy 1 c)
    else if at_text "`" c
    then go_on (backquote_frame ∷ frame ∷ stack) (copy 1 c)
    else dollar values false (frame ∷ stack) c

-- The end of an unquoted word.
unfoldable pub word_end : Bool → ℕ → List Loop → Cursor → Round
word_end nested depth stack c =
    if at_text "(" c
    then go_on (code_frame nested true true "" (suc depth) ∷ stack)
        (copy 1 (doubt_if (at_text "((" c) "'(('" c))
    else if at_text ")" c
    then (if nested && depth == 0
        then go_on stack (copy 1 c)
        else go_on (code_frame nested true true "" (if nested then depth - 1 else depth) ∷ stack)
            (copy 1 c))
    else if at_text "<<" c
    then go_on (code_frame nested true true "" depth ∷ stack)
        (copy 2 (doubt_if true "a here-document or here-string" c))
    else go_on (code_frame nested true true "" depth ∷ stack) (copy 1 c)

-- code: its caller copies the `)` at which a nested scan returns; `comment` copies the `#` first.
unfoldable pub code_round : Values → Bool → Bool → Bool → String → ℕ → List Loop → Cursor → Round
unfolding quotation word_end
code_round values nested word_start plain word depth stack c =
    if at_text "\\\n" c
    then go_on (code_frame nested word_start plain word depth ∷ stack)
        (copy 2 (doubt_if (preceded_by "$<(" c) joined c))
    else if at_text "\\" c
    then go_on (code_frame nested false false word depth ∷ stack) (copy 2 c)
    else if at_one_of "'\"`$" c
    then quotation values (code_frame nested false false word depth) stack c
    else if at_text "#" c && word_start
    then go_on (comment_frame ∷ code_frame nested word_start plain word depth ∷ stack)
        (copy 1 (doubt_if nested "a comment inside $(...)" c))
    else if not (at_one_of " \t\n;&|()<>" c)
    then go_on
        (code_frame nested false plain (if plain then word <> head_text c.rest else word) depth
          ∷ stack)
        (copy 1 (doubt_if (at_text "[" c && plain && is_name word) "an array subscript" c))
    else word_end nested depth stack
        (doubt_if (nested && plain && word == "case") "a case statement inside $(...)" c)

-- comment, before the end of its line
unfoldable pub comment_round : List Loop → Cursor → Round
comment_round stack c =
    if at_text "\\" c && not (at_text "\\\n" c)
    then go_on (comment_frame ∷ stack) (copy 2 c)
    else go_on (comment_frame ∷ stack) (copy 1 c)

-- single_quoted
unfoldable pub single_round : List Loop → Cursor → Round
single_round stack c =
    if at_text "'" c then go_on stack (copy 1 c) else go_on (single_frame ∷ stack) (copy 1 c)

-- A backslash before one of these is an escape inside double quotes.
abbrev pub escapes : Cursor → Bool
escapes c =
    at_text "\\$" c || at_text "\\`" c || at_text "\\\"" c || at_text "\\\\" c || at_text "\\\n" c

-- double_quoted
unfoldable pub double_round : Values → List Loop → Cursor → Round
double_round values stack c =
    if at_text "\"" c
    then go_on stack (copy 1 c)
    else if at_text "\\" c
    then (if escapes c
        then go_on (double_frame ∷ stack)
            (copy 2 (doubt_if (at_text "\\\n" c && preceded_by "$" c) joined c))
        else go_on (double_frame ∷ stack) (copy 1 c))
    else if at_text "`" c
    then go_on (backquote_frame ∷ double_frame ∷ stack) (copy 1 c)
    else if at_text "$" c
    then dollar values true (double_frame ∷ stack) c
    else go_on (double_frame ∷ stack) (copy 1 c)

-- backquoted
unfoldable pub backquote_round : List Loop → Cursor → Round
backquote_round stack c =
    if at_text "\\" c
    then go_on (backquote_frame ∷ stack) (copy 2 c)
    else if at_text "`" c
    then go_on stack (copy 1 c)
    else go_on (backquote_frame ∷ stack) (
        copy 1 (
          doubt_if (at_one_of "'\"" c || at_text "$(" c || at_text "<<" c)
            "quoting inside a backquoted command substitution" c))

-- The quotes and the backslash inside `${...}` and `$((...))`.
unfoldable pub doubted_quoting : Loop → List Loop → Cursor → Round
doubted_quoting frame stack c =
    if at_text "'" c
    then go_on (single_frame ∷ frame ∷ stack) (copy 1 c)
    else if at_text "\"" c
    then go_on (double_frame ∷ frame ∷ stack) (copy 1 c)
    else if at_text "`" c
    then go_on (backquote_frame ∷ frame ∷ stack) (copy 1 c)
    else if at_text "\\" c
    then go_on (frame ∷ stack) (copy 2 c)
    else go_on (frame ∷ stack) (copy 1 c)

-- parameter
unfoldable pub parameter_round : Values → List Loop → Cursor → Round
unfolding doubted_quoting
parameter_round values stack c =
    if at_text "}" c
    then go_on stack (copy 1 c)
    else if at_one_of "'\"\\{()\n" c
    then doubted_quoting parameter_frame stack (doubt_if true "quoting inside a ${...} expansion" c)
    else if at_text "`" c
    then go_on (backquote_frame ∷ parameter_frame ∷ stack) (copy 1 c)
    else if at_text "$" c
    then dollar values true (parameter_frame ∷ stack) c
    else go_on (parameter_frame ∷ stack) (copy 1 c)

-- arithmetic
unfoldable pub arithmetic_round : Values → ℕ → List Loop → Cursor → Round
unfolding doubted_quoting
arithmetic_round values depth stack c =
    if at_text "(" c
    then go_on (arithmetic_frame (suc depth) ∷ stack) (copy 1 c)
    else if at_text ")" c
    then (if not (depth == 0)
        then go_on (arithmetic_frame (depth - 1) ∷ stack) (copy 1 c)
        else if at_text "))" c
        then go_on stack (copy 2 c)
        else go_on stack
            (copy 1 (doubt_if true "unbalanced parentheses inside an arithmetic expansion" c)))
    else if at_one_of "'\"\\`" c
    then doubted_quoting (arithmetic_frame depth) stack
        (doubt_if true "quoting inside an arithmetic expansion" c)
    else if at_text "$" c
    then dollar values true (arithmetic_frame depth ∷ stack) c
    else go_on (arithmetic_frame depth ∷ stack) (copy 1 c)

-- ansi_c_quoted
unfoldable pub ansi_round : List Loop → Cursor → Round
ansi_round stack c =
    if at_text "\\" c
    then go_on (ansi_frame ∷ stack) (copy 2 (doubt_if true "a backslash inside a $'...' string" c))
    else if at_text "'" c
    then go_on stack (copy 1 c)
    else go_on (ansi_frame ∷ stack) (copy 1 c)

-- A round where no placeholder starts.
unfoldable pub plain_round : Values → Loop → List Loop → Cursor → Round
unfolding code_round comment_round single_round double_round backquote_round parameter_round
    ansi_round arithmetic_round
plain_round values (code_frame nested word_start plain word depth) stack c =
    code_round values nested word_start plain word depth stack c
plain_round values comment_frame stack c = comment_round stack c
plain_round values single_frame stack c = single_round stack c
plain_round values double_frame stack c = double_round values stack c
plain_round values backquote_frame stack c = backquote_round stack c
plain_round values parameter_frame stack c = parameter_round values stack c
plain_round values ansi_frame stack c = ansi_round stack c
plain_round values (arithmetic_frame depth) stack c = arithmetic_round values depth stack c

abbrev pub is_comment : Loop → Bool
is_comment comment_frame = true
is_comment _ = false

-- A comment ends before its newline.
unfoldable pub round : Values → Loop → List Loop → Cursor → Round
unfolding plain_round placeholder
round values frame stack c =
    if is_comment frame && at_text "\n" c
    then go_on stack c
    else elim (placeholder values (context_of frame) c) [
      | absent ↦ plain_round values frame stack c
      | refused ↦ none
      | expanded d ↦ go_on (mid_word frame ∷ stack) d
    ]

pub data Scanned : Type 0 where
  finished : String → Scanned
  config_error exhausted : Scanned

-- The loops, on fuel.
unfoldable pub scan : ℕ → Values → List Loop → Cursor → Scanned
unfolding round
scan fuel values [] c = finished c.out
scan zero values (frame ∷ stack) c = if nonempty c.rest then exhausted else finished c.out
scan (suc fuel) values (frame ∷ stack) c = elim (nonempty c.rest) [
  | false ↦ finished c.out
  | true ↦ elim (round values frame stack c) [
    | none ↦ config_error
    | some (frames, d) ↦ scan fuel values frames d
  ]
]

unfoldable pub text_size : String → ℕ
text_size String.[] = 0
text_size (String.◌∷◌ c s) = suc (text_size s)

-- expand_path_placeholders
unfoldable pub expand_path_placeholders : String → Values → Scanned
unfolding scan text_size
expand_path_placeholders command values =
    scan (suc (text_size command + text_size command)) values (code_frame false true true "" 0 ∷ [])
      (record { before = ""; rest = command; out = ""; unproven = "" })
