-- ===== src/Quoting/Rounds/Expanded.antt =====
-- What the scan writes where every value is literal.
use text.Mathlib.TextLemmas.{append_assoc, append-nil, nil-append, cons-append}
use mergetrain.Prelude.{
  ℕ, suc, zero, ◌+◌, ◌<◌, ◌≡◌, ◌≢◌, inl, inr, refl, ap, sym, ◌∙◌, subst, true, false, ◌&&◌, none,
  some, List, [], ◌∷◌, String, nonempty, ◌<>◌, Bool-cases, arith, nat_column, text_column,
}
use mergetrain.Quoting.Scan.{
  Cursor, Values, at_text, Loop, code_frame, comment_frame, single_frame, double_frame,
  backquote_frame, parameter_frame, ansi_frame, arithmetic_frame, Round, go_on,
}
use mergetrain.Quoting.Scan.{
  Expansion, absent, refused, expanded, placeholder, context_of, mid_word,
}
use mergetrain.Quoting.Rounds.{plain_round, text_size, is_comment}
use mergetrain.Quoting.Rounds.{
  round, scan, Scanned, finished, config_error, exhausted, expand_path_placeholders,
}
use mergetrain.Quoting.Rounds.Moves.{harmless, has_keys}
use mergetrain.Quoting.Rounds.Advances.{Advances}
use mergetrain.Quoting.Rounds.Progress.{plain_round-Advances}
use mergetrain.Quoting.Rounds.Frames.{outers, Opens, plain_round-Opens}
use mergetrain.Quoting.Rounds.Scanning.{expand_path_placeholders_ends}
use mergetrain.Quoting.Rounds.Literal.{
  first_key, Expands, done, copied, replaced, Step, stays, copies, replaces, Places,
  placeholder-Places,
}

-- What was still to be read is written as it expands to, after what stood there.
abbrev IsExpansion : Values → Cursor → Scanned → Type 0
IsExpansion values c (finished t) = (u : String) × (t ≡ c.out <> u) × Expands values c.rest u
IsExpansion values c config_error = ⊥
IsExpansion values c exhausted = Unit

-- The round went on over a piece of the command, in the same scans of a whole command.
abbrev Steps : Values → Cursor → List Loop → Round → Type 0
Steps values c before none = ⊥
Steps values c before (some (frames, d)) = Step values c d × (outers frames ≡ outers before)

text_size-append : (p s : String) → text_size (p <> s) ≡ text_size p + text_size s
unfolding text_size
text_size-append String.[] s = let same = ap text_size (nil-append s) in omega (arith, same)
text_size-append (String.◌∷◌ d p) s =
    let later = text_size-append p s in ap text_size (cons-append d p s) ∙ omega (arith, later)

is_empty : (s : String) → nonempty s ≡ false → s ≡ ""
is_empty String.[] h = refl
is_empty (String.◌∷◌ d s) h = absurd (ground arith)

copied_nonempty : (p s t : String) → s ≡ p <> t → text_size t < text_size s → nonempty p ≡ true
copied_nonempty String.[] s t e h = absurd (omega (arith, h, ap text_size (e ∙ nil-append t)))
copied_nonempty (String.◌∷◌ d p) s t e h = refl

module _ (values : Values) where
  extended :
      (c d : Cursor) (r : Scanned)
      → Step values c d
      → IsExpansion values d r
      → IsExpansion values c r
  extended c d config_error step e = e
  extended c d exhausted step e = e
  extended c d (finished t) (stays same) e = subst (λ x. IsExpansion values x (finished t)) same e
  extended c d (finished t) (copies p rest out some_left few miss) (u, written, e) = (
    p <> u,
    written ∙ ap (λ x. x <> u) out ∙ append_assoc c.out p u,
    subst (λ x. Expands values x (p <> u)) (sym rest)
        (copied p d.rest u some_left few (ap (first_key values) (sym rest) ∙ miss) e),
  )
  extended c d (finished t) (replaces key value rest out found) (u, written, e) = (
    value <> u,
    written ∙ ap (λ x. x <> u) out ∙ append_assoc c.out value u,
    subst (λ x. Expands values x (value <> u)) (sym rest)
        (replaced key value d.rest u (ap (first_key values) (sym rest) ∙ found) e),
  )

  plain-Steps :
      (frame : Loop) (stack : List Loop) (c : Cursor) (r : Round)
      → harmless values ≡ true
      → first_key values c.rest ≡ none
      → Advances values c r
      → Opens (frame ∷ stack) r
      → Steps values c (frame ∷ stack) r
  plain-Steps frame stack c none literal miss a o = absurd (ground (arith, a.0))
  plain-Steps frame stack c (some (frames, d)) literal miss a o =
      let (p, rest, out) = a.reached.copied in
      let size = ap text_size rest ∙ text_size-append p d.rest in
      (
        copies p rest out (copied_nonempty p c.rest d.rest rest a.shorter)
            (omega (arith, a.leap, size)) miss,
        o.1,
      )

  mid_word-outers :
      (frame : Loop) (stack : List Loop) → outers (mid_word frame ∷ stack) ≡ outers (frame ∷ stack)
  unfolding outers
  mid_word-outers (code_frame nested word_start plain word depth) stack = refl
  mid_word-outers comment_frame stack = refl
  mid_word-outers single_frame stack = refl
  mid_word-outers double_frame stack = refl
  mid_word-outers backquote_frame stack = refl
  mid_word-outers parameter_frame stack = refl
  mid_word-outers ansi_frame stack = refl
  mid_word-outers (arithmetic_frame depth) stack = refl

  expansion-Steps :
      (frame : Loop) (stack : List Loop) (c : Cursor) (e : Expansion)
      → harmless values ≡ true
      → nonempty c.rest ≡ true
      → Places values c e
      → Steps values c (frame ∷ stack) (elim e [
        | absent ↦ plain_round values frame stack c
        | refused ↦ none
        | expanded d ↦ go_on (mid_word frame ∷ stack) d
      ])
  expansion-Steps frame stack c absent literal some_left miss =
      plain-Steps frame stack c (plain_round values frame stack c) literal miss
        (plain_round-Advances values c some_left frame stack)
        (plain_round-Opens values c frame stack)
  expansion-Steps frame stack c refused literal some_left e = absurd e
  expansion-Steps frame stack c (expanded d) literal some_left (key, value, rest, out, found) =
      (replaces key value rest out found, mid_word-outers frame stack)

module _ (values : Values) (literal : harmless values ≡ true) where
  round-Steps :
      (frame : Loop) (stack : List Loop) (c : Cursor)
      → nonempty c.rest ≡ true
      → Steps values c (frame ∷ stack) (round values frame stack c)
  unfolding round outers
  round-Steps frame stack c some_left = elim (Bool-cases (is_comment frame && at_text "\n" c)) [
    | inl ended ↦
        let commented : frame ≡ comment_frame = ground arith in
        rw (round, ended, commented) (stays refl, refl)
    | inr goes ↦
        rw (round, goes)
          (expansion-Steps values frame stack c (placeholder values (context_of frame) c) literal
            some_left (placeholder-Places values (context_of frame) c literal))
  ]

  going_on :
      (fuel : ℕ) (before : List Loop) (c : Cursor) (r : Round)
      → Steps values c before r
      → outers before ≡ 1
      → ((stack : List Loop) (d : Cursor)
          → outers stack ≡ 1
          → IsExpansion values d (scan fuel values stack d))
      → IsExpansion values c
          (elim r [ none ↦ config_error | some (frames, d) ↦ scan fuel values frames d ])
  going_on fuel before c none steps outer later = absurd steps
  going_on fuel before c (some (frames, d)) (step, same) outer later =
      extended values c d (scan fuel values frames d) step (later frames d (same ∙ outer))

  nothing_left : (c : Cursor) → nonempty c.rest ≡ false → IsExpansion values c (finished c.out)
  nothing_left c h =
      ("", sym (append-nil c.out), subst (λ x. Expands values x "") (sym (is_empty c.rest h)) done)

  scan_expands :
      (fuel : ℕ) (stack : List Loop) (c : Cursor)
      → outers stack ≡ 1
      → IsExpansion values c (scan fuel values stack c)
  unfolding scan outers
  scan_expands fuel [] c outer = absurd (ground arith)
  scan_expands zero (frame ∷ stack) c outer = elim (Bool-cases (nonempty c.rest)) [
    | inl some_left ↦ rw (scan, some_left) tt
    | inr ended ↦ rw (scan, ended) (nothing_left c ended)
  ]
  scan_expands (suc fuel) (frame ∷ stack) c outer = elim (Bool-cases (nonempty c.rest)) [
    | inl some_left ↦
        rw (scan, some_left)
          (going_on fuel (frame ∷ stack) c (round values frame stack c)
            (round-Steps frame stack c some_left) outer (scan_expands fuel))
    | inr ended ↦ rw (scan, ended) (nothing_left c ended)
  ]

the_expansion :
    (values : Values) (command : String) (r : Scanned)
    → r ≢ exhausted
    → IsExpansion values (record { before = ""; rest = command; out = ""; unproven = "" }) r
    → (text : String) × (r ≡ finished text) × Expands values command text
the_expansion values command (finished t) ends (u, written, e) =
    (u, ap finished (written ∙ nil-append u), e)
the_expansion values command config_error ends e = absurd e
the_expansion values command exhausted ends e = absurd (ends refl)

-- Where no placeholder's key is empty and every path is literal in each context, no command is
-- refused, also where a path that needs quoting would be. In the text that is returned, every
-- placeholder that is met is replaced by its path as it is, the first of them in the list where
-- several start there; the rest is copied, in pieces of one to three characters at whose start no
-- placeholder stands.
pub expand_path_placeholders_accepts :
    (command : String) (values : Values)
    → has_keys values ≡ true
    → harmless values ≡ true
    → (text : String) × (expand_path_placeholders command values ≡ finished text)
      × Expands values command text
unfolding expand_path_placeholders outers
expand_path_placeholders_accepts command values keys literal =
    the_expansion values command (expand_path_placeholders command values)
      (expand_path_placeholders_ends command values keys)
      (scan_expands values literal (suc (text_size command + text_size command))
        (code_frame false true true "" 0 ∷ [])
        (record { before = ""; rest = command; out = ""; unproven = "" }) refl)
