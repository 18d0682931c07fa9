-- ===== src/Quoting/Reading/Rendered.antt =====
-- An expanded path is read as the path, in each context with exact rules.
use Prim.Native.Char.{Char, code, char}
use text.Mathlib.TextEquality.{Char-path}
use text.Mathlib.TextLemmas.{nil-append, cons-append, append-nil, append_assoc}
use mergetrain.Prelude.{
  ℕ, ◌≡◌, inl, inr, refl, ap, sym, ◌∙◌, subst, true, false, none, some, String, ◌<>◌, nat_eq,
  Bool-cases, arith, if◌then◌else◌,
}
use mergetrain.Quoting.Render.{
  double_quote, dollar_sign, single_quote, backslash, backquote, one_of, replace_char,
  escape_single_quoted, escape_double_quoted,
}
use mergetrain.Quoting.Reading.{Mode, quoted, double_quoted, one, read_char, read, after}
use mergetrain.Quoting.Reading.Joined.{read-append, followed}

pub cons_one : (c : Char) (s : String) → one c <> s ≡ String.◌∷◌ c s
cons_one c s = cons-append c "" s ∙ ap (String.◌∷◌ c) (nil-append s)

-- One character's text, then the rest.
chunk_read :
    (mode : Mode) (chunk : String) (d : Char) (s rest : String)
    → read mode chunk ≡ some (one d, mode)
    → read mode rest ≡ some (s, mode)
    → read mode (chunk <> rest) ≡ some (String.◌∷◌ d s, mode)
chunk_read mode chunk d s rest first more =
    read-append mode chunk rest
    ∙ ap (λ o. followed o rest) first
    ∙ ap (after (one d)) more
    ∙ ap (λ t. some (t, mode)) (cons_one d s)

-- The one character of a code.
by_code : (P : Char → Type 0) (c d : Char) → P c → nat_eq (code d) (code c) ≡ true → P d
by_code P c d p hit = subst P (Char-path c d (ground arith)) p

read-one :
    (mode : Mode) (d : Char)
    → read_char mode d ≡ some (one d, mode)
    → read mode (one d) ≡ some (one d, mode)
unfolding read
read-one mode d h =
    ap (λ o. elim o [ none ↦ none | some (text, next) ↦ after text (some ("", next)) ]) h
    ∙ ap (λ t. some (t, mode)) (append-nil (one d))

replace_char-one :
    (c : ℕ) (text : String) (d : Char)
    → nat_eq (code d) c ≡ false
    → replace_char c text (one d) ≡ one d
unfolding replace_char
replace_char-one c text d miss =
    ap (λ b. (if b then text else one d) <> "") miss ∙ append-nil (one d)

single_chunk :
    (d : Char)
    → read quoted (if nat_eq (code d) single_quote then "'\"'\"'" else one d) ≡ some (one d, quoted)
unfolding read read_char one_of
single_chunk d = elim (Bool-cases (nat_eq (code d) single_quote)) [
  | inl hit ↦
      by_code
        (λ c.
          read quoted (if nat_eq (code c) single_quote then "'\"'\"'" else one c)
          ≡ some (one c, quoted))
        (char single_quote tt) d refl hit
  | inr miss ↦ rw miss (read-one quoted d (rw miss refl))
]

pub read-escape_single_quoted :
    (v : String) → read quoted (escape_single_quoted v) ≡ some (v, quoted)
unfolding escape_single_quoted replace_char read
read-escape_single_quoted String.[] = refl
read-escape_single_quoted (String.◌∷◌ d s) =
    chunk_read quoted _ d s (escape_single_quoted s) (single_chunk d) (read-escape_single_quoted s)

replace-append :
    (c : ℕ) (text s u : String)
    → replace_char c text (s <> u) ≡ replace_char c text s <> replace_char c text u
unfolding replace_char
replace-append c text String.[] u = ap (replace_char c text) (nil-append u) ∙ sym (nil-append _)
replace-append c text (String.◌∷◌ d s) u =
    ap (replace_char c text) (cons-append d s u)
    ∙ ap (λ t. (if nat_eq (code d) c then text else one d) <> t) (replace-append c text s u)
    ∙ sym (append_assoc _ (replace_char c text s) (replace_char c text u))

-- The three replacements that follow that of the backslash.
later : String → String
later value =
    replace_char backquote "\\`"
      (replace_char dollar_sign "\\$" (replace_char double_quote "\\\"" value))

later-append : (s u : String) → later (s <> u) ≡ later s <> later u
unfolding later
later-append s u =
    rw
      (
        replace-append double_quote "\\\"" s u,
        replace-append dollar_sign "\\$" _ _,
        replace-append backquote "\\`" _ _,
      )
      refl

-- What the four replacements make of one character.
double_escape : Char → String
unfolding later replace_char
double_escape c = later (if nat_eq (code c) backslash then "\\\\" else one c)

double_escape_plain :
    (d : Char)
    → nat_eq (code d) backslash ≡ false
    → nat_eq (code d) double_quote ≡ false
    → nat_eq (code d) dollar_sign ≡ false
    → nat_eq (code d) backquote ≡ false
    → double_escape d ≡ one d
unfolding double_escape later
double_escape_plain d a b c e =
    ap (λ t. later (if t then "\\\\" else one d)) a
    ∙ ap (λ t. replace_char backquote "\\`" (replace_char dollar_sign "\\$" t))
        (replace_char-one double_quote _ d b)
    ∙ ap (replace_char backquote "\\`") (replace_char-one dollar_sign _ d c)
    ∙ replace_char-one backquote _ d e

double_chunk : (d : Char) → read double_quoted (double_escape d) ≡ some (one d, double_quoted)
unfolding read read_char one_of double_escape later replace_char
double_chunk d =
    let reads : Char → Type 0 =
      λ c. read double_quoted (double_escape c) ≡ some (one c, double_quoted) in
    elim (Bool-cases (nat_eq (code d) backslash)) [
      | inl hit ↦ by_code reads (char backslash tt) d refl hit
      | inr no_backslash ↦ elim (Bool-cases (nat_eq (code d) double_quote)) [
        | inl hit ↦ by_code reads (char double_quote tt) d refl hit
        | inr no_quote ↦ elim (Bool-cases (nat_eq (code d) dollar_sign)) [
          | inl hit ↦ by_code reads (char dollar_sign tt) d refl hit
          | inr no_dollar ↦ elim (Bool-cases (nat_eq (code d) backquote)) [
            | inl hit ↦ by_code reads (char backquote tt) d refl hit
            | inr no_backquote ↦
                ap (read double_quoted)
                  (double_escape_plain d no_backslash no_quote no_dollar no_backquote)
                ∙ read-one double_quoted d
                    (rw (no_backslash, no_quote, no_dollar, no_backquote) refl)
          ]
        ]
      ]
    ]

pub read-escape_double_quoted :
    (v : String) → read double_quoted (escape_double_quoted v) ≡ some (v, double_quoted)
unfolding escape_double_quoted replace_char read double_escape later
read-escape_double_quoted String.[] = refl
read-escape_double_quoted (String.◌∷◌ d s) =
    ap (read double_quoted) (later-append (if nat_eq (code d) backslash then "\\\\" else one d) _)
    ∙ chunk_read double_quoted (double_escape d) d s (escape_double_quoted s) (double_chunk d)
        (read-escape_double_quoted s)
