-- ===== src/Quoting/Reading.antt =====
-- How a POSIX shell reads quoted text: an automaton over its characters, written from the rules of
-- the Shell Command Language (2.2 Quoting), and what it makes of an expanded path.
pub mod Joined
pub mod Rendered
pub mod Contexts
use Prim.Native.Char.{Char, code}
use mergetrain.Prelude.{
  ℕ, Bool, true, false, not, ◌&&◌, ◌||◌, Option, none, some, String, if◌then◌else◌, leb, nat_eq,
  nonempty, ◌<>◌, ◌≡◌, refl, Bool-cases, arith, sym, ◌∙◌, ap, ◌⊎◌, inl, inr, ◌≢◌,
}
use mergetrain.Quoting.Render.{
  newline, double_quote, dollar_sign, single_quote, backslash, backquote, one_of, Context, unquoted,
  single, double, comment, inside, render, is_plain, all_plain, is_context_free, replace_char,
  has_char, escape_single_quoted, escape_double_quoted, shell_quote,
}

pub data Mode : Type 0 where
  bare quoted double_quoted escaped double_escaped commented : Mode

-- The text of one character.
abbrev pub one : Char → String
one c = String.◌∷◌ c ""

-- Characters that end a word, start an expansion, a pattern, a comment or a home directory.
abbrev is_special : Char → Bool
is_special c = one_of "|&;<>()$` \t\n*?[#~" c

-- What the character adds to the word, and how the next one is read; `none` where the character is
-- not the text of the word.
unfoldable pub read_char : Mode → Char → Option (String × Mode)
unfolding one_of
read_char bare c =
    if nat_eq (code c) single_quote
    then some ("", quoted)
    else if nat_eq (code c) double_quote
    then some ("", double_quoted)
    else if nat_eq (code c) backslash
    then some ("", escaped)
    else if is_special c
    then none
    else some (one c, bare)
read_char quoted c = if nat_eq (code c) single_quote then some ("", bare) else some (one c, quoted)
read_char double_quoted c =
    if nat_eq (code c) double_quote
    then some ("", bare)
    else if nat_eq (code c) backslash
    then some ("", double_escaped)
    else if nat_eq (code c) dollar_sign || nat_eq (code c) backquote
    then none
    else some (one c, double_quoted)
read_char escaped c = if nat_eq (code c) newline then some ("", bare) else some (one c, bare)
read_char double_escaped c =
    if nat_eq (code c) newline
    then some ("", double_quoted)
    else if one_of "$`\"\\" c
    then some (one c, double_quoted)
    else some ("\\" <> one c, double_quoted)
read_char commented c = if nat_eq (code c) newline then none else some ("", commented)

abbrev pub after : String → Option (String × Mode) → Option (String × Mode)
after text none = none
after text (some (more, mode)) = some (text <> more, mode)

-- The text that a shell reads, and the mode it ends in.
unfoldable pub read : Mode → String → Option (String × Mode)
unfolding read_char
read mode String.[] = some ("", mode)
read mode (String.◌∷◌ c s) = elim (read_char mode c) [
  | none ↦ none
  | some (text, next) ↦ after text (read next s)
]

read_test : read bare "a'b c'\"d\\$e\"" ≡ some ("ab cd$e", bare)
unfolding read read_char one_of
read_test = refl

quote_test : shell_quote "it's" ≡ "'it'\"'\"'s'"
unfolding shell_quote all_plain is_plain one_of escape_single_quoted replace_char
quote_test = refl

escape_test : escape_double_quoted "a\"$`\\" ≡ "a\\\"\\$\\`\\\\"
unfolding escape_double_quoted replace_char
escape_test = refl
