-- ===== src/Quoting/Rounds/Literal.antt =====
-- Values that are literal everywhere: what a command with their placeholders is expanded to.
use text.Mathlib.TextLemmas.{nil-append, cons-append}
use text.Mathlib.TextEquality.{Char-path}
use Prim.Native.Char.{Char, code}
use mergetrain.Prelude.{
  ◌≤◌, ◌≡◌, inl, inr, refl, sym, ◌∙◌, true, false, Option, none, some, [], ◌∷◌, String,
  if◌then◌else◌, nonempty, ◌<>◌, has_prefix, Bool-cases, arith, nat_column, text_column,
}
use mergetrain.Quoting.Reading.{one}
use mergetrain.Quoting.Render.{is_context_free, Context, render}
use mergetrain.Quoting.Scan.{Cursor, Values, at_text}
use mergetrain.Quoting.Scan.{Expansion, absent, refused, expanded, placeholder, skip}
use mergetrain.Quoting.Rounds.{text_size}
use mergetrain.Quoting.Rounds.Moves.{harmless}

-- The first of the placeholders that the text starts with, and its path.
unfoldable pub first_key : Values → String → Option (String × String)
first_key [] s = none
first_key ((key, value) ∷ more) s =
    let later = first_key more s in if has_prefix key s then some (key, value) else later

-- A command and what it is expanded to: a placeholder that is met is replaced by its path as it is,
-- and where none starts, one to three characters are copied.
pub data Expands (values : Values) : String → String → Type 0 where
  done : Expands values "" ""
  copied :
      (p s t : String)
      → nonempty p ≡ true
      → text_size p ≤ 3
      → first_key values (p <> s) ≡ none
      → Expands values s t
      → Expands values (p <> s) (p <> t)
  replaced :
      (key value s t : String)
      → first_key values (key <> s) ≡ some (key, value)
      → Expands values s t
      → Expands values (key <> s) (value <> t)

render_literal :
    (unproven : String) (context : Context) (value : String)
    → is_context_free value ≡ true
    → render unproven context value ≡ some value
unfolding render
render_literal unproven context value free = rw (render, free) refl

one_skipped :
    (before rest out unproven key : String) (d : Char)
    → ((c : Cursor)
        → has_prefix key c.rest ≡ true
        → (c.rest ≡ key <> (skip key c).rest) × ((skip key c).out ≡ c.out))
    → has_prefix (String.◌∷◌ d key) rest ≡ true
    → (rest
        ≡ String.◌∷◌ d key
          <> (skip
              (String.◌∷◌ d key)
              (record { before = before; rest = rest; out = out; unproven = unproven })).rest)
      × ((skip
            (String.◌∷◌ d key)
            (record { before = before; rest = rest; out = out; unproven = unproven })).out
          ≡ out)
unfolding skip has_prefix
one_skipped before String.[] out unproven key d later h = absurd (ground arith)
one_skipped before (String.◌∷◌ e s) out unproven key d later h =
    let same : code d ≡ code e = ground arith in
    let (rest, written) =
      later (record { before = one e; rest = s; out = out; unproven = unproven }) (ground arith) in
    (
      (λ i. String.◌∷◌ (Char-path e d (sym same) i) (rest i))
          ∙ sym (
              cons-append d key
                (skip key
                  (record { before = one e; rest = s; out = out; unproven = unproven })).rest),
      written,
    )

-- The placeholder at the cursor is passed.
skipped :
    (key : String) (c : Cursor)
    → has_prefix key c.rest ≡ true
    → (c.rest ≡ key <> (skip key c).rest) × ((skip key c).out ≡ c.out)
unfolding skip
skipped String.[] c h = (sym (nil-append c.rest), refl)
skipped (String.◌∷◌ d key) c h = one_skipped c.before c.rest c.out c.unproven key d (skipped key) h

-- The command's rest is reached over a piece of it, and what was written for that piece.
pub data Step (values : Values) (c d : Cursor) : Type 0 where
  stays : d ≡ c → Step values c d
  copies :
      (p : String)
      → c.rest ≡ p <> d.rest
      → d.out ≡ c.out <> p
      → nonempty p ≡ true
      → text_size p ≤ 3
      → first_key values c.rest ≡ none
      → Step values c d
  replaces :
      (key value : String)
      → c.rest ≡ key <> d.rest
      → d.out ≡ c.out <> value
      → first_key values c.rest ≡ some (key, value)
      → Step values c d

-- What a placeholder at the cursor is for values that are literal everywhere.
abbrev pub Places : Values → Cursor → Expansion → Type 0
Places values c absent = first_key values c.rest ≡ none
Places values c refused = ⊥
Places values c (expanded d) =
    (key : String) × (value : String) × (c.rest ≡ key <> d.rest)
    × (d.out ≡ c.out <> value)
    × (first_key values c.rest ≡ some (key, value))

later_Places :
    (key value : String) (more : Values) (c : Cursor) (e : Expansion)
    → has_prefix key c.rest ≡ false
    → Places more c e
    → Places ((key, value) ∷ more) c e
unfolding first_key
later_Places key value more c absent miss h = rw (first_key, miss) h
later_Places key value more c refused miss h = h
later_Places key value more c (expanded d) miss (k, v, rest, out, found) =
    (k, v, rest, out, rw (first_key, miss) found)

pub placeholder-Places :
    (values : Values) (context : Context) (c : Cursor)
    → harmless values ≡ true
    → Places values c (placeholder values context c)
unfolding placeholder harmless first_key
placeholder-Places [] context c h = refl
placeholder-Places ((key, value) ∷ more) context c h = elim (Bool-cases (at_text key c)) [
  | inl hit ↦
      let (rest, out) = skipped key (record c { out = c.out <> value }) hit in
      rw (placeholder, hit, render_literal c.unproven context value (ground arith))
        (key, value, rest, out, rw (first_key, hit) refl)
  | inr miss ↦
      let later = placeholder-Places more context c (ground arith) in
      rw (placeholder, miss) (later_Places key value more c (placeholder more context c) miss later)
]
