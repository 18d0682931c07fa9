-- ===== src/Quoting/Reading/Contexts.antt =====
-- What the shell makes of an expanded path, for every context.
use Prim.Native.Char.{Char, code}
use text.Mathlib.TextLemmas.{nil-append, cons-append, append-nil}
use mergetrain.Prelude.{
  ℕ, ◌≡◌, inl, inr, refl, ap, ◌∙◌, Bool, true, false, ◌||◌, none, some, String, ◌<>◌, nat_eq,
  Bool-cases, arith,
}
use mergetrain.Quoting.Render.{
  newline, single_quote, one_of, Context, unquoted, single, double, comment, inside, render,
  is_plain, all_plain, is_context_free, replace_char, has_char, escape_single_quoted,
  escape_double_quoted, shell_quote,
}
use mergetrain.Quoting.Reading.{
  Mode, bare, quoted, double_quoted, escaped, double_escaped, commented, one, read_char, read,
  after,
}
use mergetrain.Quoting.Reading.Joined.{read-append, followed}
use mergetrain.Quoting.Reading.Rendered.{
  cons_one, read-escape_single_quoted, read-escape_double_quoted,
}

-- The modes in which a plain character is text.
abbrev is_textual : Mode → Bool
is_textual bare = true
is_textual quoted = true
is_textual double_quoted = true
is_textual escaped = false
is_textual double_escaped = false
is_textual commented = false

plain_char :
    (mode : Mode) (c : Char)
    → is_textual mode ≡ true
    → is_plain c ≡ true
    → read_char mode c ≡ some (one c, mode)
unfolding is_plain read_char one_of
plain_char bare c t h = ground arith
plain_char quoted c t h = ground arith
plain_char double_quoted c t h = ground arith
plain_char escaped c t h = absurd (ground arith)
plain_char double_escaped c t h = absurd (ground arith)
plain_char commented c t h = absurd (ground arith)

plain_read :
    (mode : Mode) (v : String)
    → is_textual mode ≡ true
    → all_plain v ≡ true
    → read mode v ≡ some (v, mode)
unfolding read all_plain
plain_read mode String.[] t h = refl
plain_read mode (String.◌∷◌ c s) t h =
    let first : is_plain c ≡ true = ground arith in
    let others : all_plain s ≡ true = ground arith in
    ap (λ o. elim o [ none ↦ none | some (text, next) ↦ after text (read next s) ])
      (plain_char mode c t first)
    ∙ ap (after (one c)) (plain_read mode s t others)
    ∙ ap (λ u. some (u, mode)) (cons_one c s)

-- A quoted path is one word's text.
enclosed_read : (v : String) → read bare ("'" <> escape_single_quoted v <> "'") ≡ some (v, bare)
unfolding read read_char one_of
enclosed_read v =
    read-append bare "'" (escape_single_quoted v <> "'")
    ∙ ap (after "") (
        read-append quoted (escape_single_quoted v) "'"
        ∙ ap (λ o. followed o "'") (read-escape_single_quoted v))
    ∙ ap (λ u. some (u, bare)) (nil-append (v <> "") ∙ append-nil v)

read-shell_quote : (v : String) → read bare (shell_quote v) ≡ some (v, bare)
unfolding shell_quote read read_char one_of
read-shell_quote String.[] = refl
read-shell_quote (String.◌∷◌ c s) = elim (Bool-cases (all_plain (String.◌∷◌ c s))) [
  | inl plain ↦ rw plain (plain_read bare (String.◌∷◌ c s) refl plain)
  | inr special ↦ rw special (enclosed_read (String.◌∷◌ c s))
]

-- A comment runs to the end of the line.
comment_read : (s : String) → has_char newline s ≡ false → read commented s ≡ some ("", commented)
unfolding read read_char has_char
comment_read String.[] h = refl
comment_read (String.◌∷◌ c s) h =
    let first : nat_eq (code c) newline ≡ false = ground arith in
    let others : has_char newline s ≡ false = ground arith in
    rw (read, first)
      (ap (after "") (comment_read s others) ∙ ap (λ u. some (u, commented)) (nil-append ""))

has_char-append : (c : ℕ) (s t : String) → has_char c (s <> t) ≡ has_char c s || has_char c t
unfolding has_char
has_char-append c String.[] t = ap (has_char c) (nil-append t)
has_char-append c (String.◌∷◌ d s) t =
    let tail : has_char c (s <> t) ≡ has_char c s || has_char c t = has_char-append c s t in
    ap (has_char c) (cons-append d s t) ∙ ground arith

escape_single_quoted-newline :
    (v : String) → has_char newline v ≡ false → has_char newline (escape_single_quoted v) ≡ false
unfolding escape_single_quoted replace_char has_char
escape_single_quoted-newline String.[] h = refl
escape_single_quoted-newline (String.◌∷◌ c s) h =
    let tail : has_char newline (escape_single_quoted s) ≡ false =
      escape_single_quoted-newline s (ground arith) in
    elim (Bool-cases (nat_eq (code c) single_quote)) [
      | inl hit ↦ rw hit (has_char-append newline "'\"'\"'" (escape_single_quoted s) ∙ tail)
      | inr miss ↦ rw miss (has_char-append newline (one c) (escape_single_quoted s) ∙ ground arith)
    ]

shell_quote-newline :
    (v : String) → has_char newline v ≡ false → has_char newline (shell_quote v) ≡ false
unfolding shell_quote has_char
shell_quote-newline String.[] h = refl
shell_quote-newline (String.◌∷◌ c s) h = elim (Bool-cases (all_plain (String.◌∷◌ c s))) [
  | inl plain ↦ rw plain h
  | inr special ↦
      let inner : has_char newline (escape_single_quoted (String.◌∷◌ c s)) ≡ false =
        escape_single_quoted-newline (String.◌∷◌ c s) h in
      rw special (
        has_char-append newline "'" (escape_single_quoted (String.◌∷◌ c s) <> "'")
        ∙ has_char-append newline (escape_single_quoted (String.◌∷◌ c s)) "'"
        ∙ ap (λ b. b || false) inner)
]

-- The shell reads the text as the value, and reads on in the context that it stands in.
abbrev pub IsReadAs : Context → String → String → Type 0
IsReadAs unquoted text value = read bare text ≡ some (value, bare)
IsReadAs single text value = read quoted text ≡ some (value, quoted)
IsReadAs double text value = read double_quoted text ≡ some (value, double_quoted)
IsReadAs comment text value = read commented text ≡ some ("", commented)
IsReadAs (inside construct) text value = (text ≡ value) × (is_context_free text ≡ true)

plain-newline : (v : String) → all_plain v ≡ true → has_char newline v ≡ false
unfolding all_plain has_char is_plain one_of
plain-newline String.[] h = refl
plain-newline (String.◌∷◌ c s) h =
    let tail : has_char newline s ≡ false = plain-newline s (ground arith) in ground arith

context_free_read :
    (context : Context) (v : String) → is_context_free v ≡ true → IsReadAs context v v
unfolding is_context_free
context_free_read unquoted v h = plain_read bare v refl (ground arith)
context_free_read single v h = plain_read quoted v refl (ground arith)
context_free_read double v h = plain_read double_quoted v refl (ground arith)
context_free_read comment v h = comment_read v (plain-newline v (ground arith))
context_free_read (inside construct) v h = (refl, h)

quoted_read :
    (unproven : String) (context : Context) (v : String) {text : String}
    → is_context_free v ≡ false
    → render unproven context v ≡ some text
    → IsReadAs context text v
unfolding render
quoted_read unproven unquoted v {text} special h =
    let at : text ≡ shell_quote v = ground arith in rw at (read-shell_quote v)
quoted_read unproven single v {text} special h =
    let at : text ≡ escape_single_quoted v = ground arith in rw at (read-escape_single_quoted v)
quoted_read unproven double v {text} special h =
    let at : text ≡ escape_double_quoted v = ground arith in rw at (read-escape_double_quoted v)
quoted_read unproven comment v {text} special h =
    let at : text ≡ shell_quote v = ground arith in
    let line : has_char newline v ≡ false = ground arith in
    rw at (comment_read (shell_quote v) (shell_quote-newline v line))
quoted_read unproven (inside construct) v {text} special h = absurd (ground arith)

-- Whatever a placeholder is expanded to in its context, the shell reads it as exactly the path and
-- goes on in the same context: as text of a word, inside single quotes or inside double quotes. In a
-- comment it stays in the comment, and inside any other construct it is the path itself, made of
-- characters that are literal everywhere.
pub render-IsReadAs :
    (unproven : String) (context : Context) (value : String) {text : String}
    → render unproven context value ≡ some text
    → IsReadAs context text value
unfolding render
render-IsReadAs unproven context v {text} h = elim (Bool-cases (is_context_free v)) [
  | inl free ↦ let at : text ≡ v = ground arith in rw at (context_free_read context v free)
  | inr special ↦ quoted_read unproven context v special h
]
