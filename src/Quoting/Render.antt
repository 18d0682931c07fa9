-- ===== src/Quoting/Render.antt =====
-- A path, escaped for its shell context (src/mergetrain/shell_quoting.py: _escape_double_quoted,
-- _Scanner.render), with shlex.quote of the standard library.
use Prim.Native.Char.{Char, code}
use mergetrain.Prelude.{
  ℕ, Bool, true, false, not, ◌&&◌, ◌||◌, Option, none, some, String, if◌then◌else◌, leb, nat_eq,
  nonempty, ◌<>◌,
}

-- `char in text`
unfoldable pub one_of : String → Char → Bool
one_of String.[] c = false
one_of (String.◌∷◌ d s) c = nat_eq (code c) (code d) || one_of s c

abbrev is_letter_or_digit : Char → Bool
is_letter_or_digit c =
    let n = code c in (leb 48 n && leb n 57) || (leb 65 n && leb n 90) || (leb 97 n && leb n 122)

-- A character of _CONTEXT_FREE, which are also those that shlex.quote takes for safe.
unfoldable pub is_plain : Char → Bool
unfolding one_of
is_plain c = is_letter_or_digit c || one_of "_@%+=:,./-" c

unfoldable pub all_plain : String → Bool
all_plain String.[] = true
all_plain (String.◌∷◌ c s) = is_plain c && all_plain s

-- `_CONTEXT_FREE.fullmatch(value)`
unfoldable pub is_context_free : String → Bool
is_context_free value = nonempty value && all_plain value

-- `value.replace(char, text)`, for a character by its code
unfoldable pub replace_char : ℕ → String → String → String
replace_char c text String.[] = ""
replace_char c text (String.◌∷◌ d s) =
    (if nat_eq (code d) c then text else String.◌∷◌ d "") <> replace_char c text s

-- `char in value`
unfoldable pub has_char : ℕ → String → Bool
has_char c String.[] = false
has_char c (String.◌∷◌ d s) = nat_eq (code d) c || has_char c s

-- The codes of the characters with which quoting is written.
abbrev pub newline : ℕ
newline = 10

abbrev pub double_quote : ℕ
double_quote = 34

abbrev pub dollar_sign : ℕ
dollar_sign = 36

abbrev pub single_quote : ℕ
single_quote = 39

abbrev pub backslash : ℕ
backslash = 92

abbrev pub backquote : ℕ
backquote = 96

-- `value.replace("'", "'\"'\"'")`
unfoldable pub escape_single_quoted : String → String
unfolding replace_char
escape_single_quoted value = replace_char single_quote "'\"'\"'" value

-- shlex.quote
unfoldable pub shell_quote : String → String
shell_quote value =
    if not (nonempty value)
    then "''"
    else if all_plain value
    then value
    else "'" <> escape_single_quoted value <> "'"

-- _escape_double_quoted
unfoldable pub escape_double_quoted : String → String
unfolding replace_char
escape_double_quoted value = replace_char backquote "\\`" (
    replace_char dollar_sign "\\$"
      (replace_char double_quote "\\\"" (replace_char backslash "\\\\" value)))

-- The contexts with exact quoting rules; any other names its construct.
pub data Context : Type 0 where
  unquoted single double comment : Context
  inside : String → Context

-- _Scanner.render: `none` is the refusal
unfoldable pub render : String → Context → String → Option String
unfolding is_context_free shell_quote escape_single_quoted escape_double_quoted
render unproven context value =
    if is_context_free value then some value else if nonempty unproven then none else elim context [
      | unquoted ↦ some (shell_quote value)
      | single ↦ some (escape_single_quoted value)
      | double ↦ some (escape_double_quoted value)
      | comment ↦ if has_char newline value then none else some (shell_quote value)
      | inside construct ↦ none
    ]
