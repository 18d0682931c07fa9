-- ===== src/Quoting/Rounds/Scanning.antt =====
-- The scan as a whole ends: each round has less to do than the one before.
use Prim.Native.Char.{Char}
use mergetrain.Prelude.{
  ℕ, suc, zero, ◌+◌, ◌≤◌, ◌<◌, ◌≡◌, ◌≢◌, inl, inr, true, false, ◌&&◌, Option, none, some, List, [],
  ◌∷◌, String, nonempty, ◌<>◌, Bool-cases, arith, nat_column, text_column,
}
use mergetrain.Quoting.Reading.{one}
use mergetrain.Quoting.Scan.{Cursor, Values, at_text, Loop, code_frame, Round, go_on}
use mergetrain.Quoting.Rounds.{plain_round, text_size, is_comment}
use mergetrain.Quoting.Render.{Context, render}
use mergetrain.Quoting.Scan.{
  Expansion, absent, refused, expanded, placeholder, skip, inserted, context_of, mid_word,
}
use mergetrain.Quoting.Rounds.{round, scan, config_error, exhausted, expand_path_placeholders}
use mergetrain.Quoting.Rounds.Moves.{has_keys}
use mergetrain.Quoting.Rounds.Advances.{Advances}
use mergetrain.Quoting.Rounds.Progress.{plain_round-Advances}
use mergetrain.Quoting.Rounds.Frames.{comments, Opens, plain_round-Opens}

one_skipped :
    (before rest out unproven : String) (key : String)
    → ((c : Cursor) → text_size (skip key c).rest ≤ text_size c.rest)
    → (d : Char)
    → (text_size
          (skip
            (String.◌∷◌ d key)
            (record { before = before; rest = rest; out = out; unproven = unproven })).rest
        ≤ text_size rest)
      × (nonempty rest ≡ true
          → text_size
              (skip
                (String.◌∷◌ d key)
                (record { before = before; rest = rest; out = out; unproven = unproven })).rest
            < text_size rest)
unfolding skip text_size
one_skipped before String.[] out unproven key later d = (later _, λ h. absurd (ground arith))
one_skipped before (String.◌∷◌ e s) out unproven key later d =
    let shorter = later (record { before = one e; rest = s; out = out; unproven = unproven }) in
    (omega (arith, shorter), λ h. omega (arith, shorter))

skip-size : (key : String) (c : Cursor) → text_size (skip key c).rest ≤ text_size c.rest
unfolding skip
skip-size String.[] c = ground arith
skip-size (String.◌∷◌ d key) c =
    (one_skipped c.before c.rest c.out c.unproven key (skip-size key) d).0

skip-shorter :
    (key : String) (c : Cursor)
    → nonempty key ≡ true
    → nonempty c.rest ≡ true
    → text_size (skip key c).rest < text_size c.rest
skip-shorter String.[] c k h = absurd (ground arith)
skip-shorter (String.◌∷◌ d key) c k h =
    (one_skipped c.before c.rest c.out c.unproven key (skip-size key) d).1 h

abbrev Shrinks : Cursor → Expansion → Type 0
Shrinks c absent = Unit
Shrinks c refused = Unit
Shrinks c (expanded d) = text_size d.rest < text_size c.rest

inserted-Shrinks :
    (key : String) (c : Cursor) (o : Option String)
    → nonempty key ≡ true
    → nonempty c.rest ≡ true
    → Shrinks c (inserted key c o)
inserted-Shrinks key c none k h = tt
inserted-Shrinks key c (some text) k h = skip-shorter key (record c { out = c.out <> text }) k h

placeholder-Shrinks :
    (values : Values) (context : Context) (c : Cursor)
    → has_keys values ≡ true
    → nonempty c.rest ≡ true
    → Shrinks c (placeholder values context c)
unfolding placeholder has_keys
placeholder-Shrinks [] context c k h = tt
placeholder-Shrinks ((key, value) ∷ more) context c k h = elim (Bool-cases (at_text key c)) [
  | inl hit ↦ rw hit (inserted-Shrinks key c (render c.unproven context value) (ground arith) h)
  | inr miss ↦ rw miss (placeholder-Shrinks more context c (ground arith) h)
]

-- What is still to do
abbrev pub weight : List Loop → Cursor → ℕ
weight stack c = text_size c.rest + text_size c.rest + comments stack

abbrev pub Lighter : ℕ → Round → Type 0
Lighter n none = Unit
Lighter n (some (stack, d)) = weight stack d < n

pub plain-Lighter :
    (values : Values) (stack : List Loop) (c : Cursor) (r : Round)
    → Advances values c r
    → Opens stack r
    → Lighter (weight stack c) r
plain-Lighter values stack c none a o = tt
plain-Lighter values stack c (some (frames, d)) a o = omega (arith, a.shorter, o.0)

mid_word-comments :
    (frame : Loop) (stack : List Loop)
    → comments (mid_word frame ∷ stack) ≡ comments (frame ∷ stack)
unfolding comments
mid_word-comments frame stack = ground arith

module _ (values : Values) (keys : has_keys values ≡ true) where
  expansion-Lighter :
      (frame : Loop) (stack : List Loop) (c : Cursor) (e : Expansion)
      → nonempty c.rest ≡ true
      → Shrinks c e
      → Lighter (weight (frame ∷ stack) c) (elim e [
        | absent ↦ plain_round values frame stack c
        | refused ↦ none
        | expanded d ↦ go_on (mid_word frame ∷ stack) d
      ])
  expansion-Lighter frame stack c absent h e =
      plain-Lighter values (frame ∷ stack) c (plain_round values frame stack c)
        (plain_round-Advances values c h frame stack) (plain_round-Opens values c frame stack)
  expansion-Lighter frame stack c refused h e = tt
  expansion-Lighter frame stack c (expanded d) h e = omega (arith, e, mid_word-comments frame stack)

  pub round-Lighter :
      (frame : Loop) (stack : List Loop) (c : Cursor)
      → nonempty c.rest ≡ true
      → Lighter (weight (frame ∷ stack) c) (round values frame stack c)
  unfolding round comments
  round-Lighter frame stack c h = elim (Bool-cases (is_comment frame && at_text "\n" c)) [
    | inl ended ↦
        let commented : is_comment frame ≡ true = ground arith in
        rw (ended, commented) (omega arith)
    | inr goes ↦ rw goes (
        expansion-Lighter frame stack c (placeholder values (context_of frame) c) h
          (placeholder-Shrinks values (context_of frame) c keys h))
  ]

  scanned_on :
      (fuel n : ℕ) (r : Round)
      → Lighter n r
      → n ≤ fuel
      → ((stack : List Loop) (d : Cursor)
          → weight stack d < fuel
          → scan fuel values stack d ≢ exhausted)
      → (elim r [ none ↦ config_error | some (frames, d) ↦ scan fuel values frames d ]) ≢ exhausted
  scanned_on fuel n none lighter le later = λ e. cc
  scanned_on fuel n (some (frames, d)) lighter le later =
      later frames d (omega (arith, lighter, le))

  scan_ends :
      (fuel : ℕ) (stack : List Loop) (c : Cursor)
      → weight stack c < fuel
      → scan fuel values stack c ≢ exhausted
  unfolding scan
  scan_ends fuel [] c h = λ e. cc
  scan_ends zero (frame ∷ stack) c h = absurd (omega arith)
  scan_ends (suc fuel) (frame ∷ stack) c h = elim (Bool-cases (nonempty c.rest)) [
    | inl some_left ↦
        rw (scan, some_left)
          (scanned_on fuel (weight (frame ∷ stack) c) (round values frame stack c)
            (round-Lighter frame stack c some_left) (omega (arith, h)) (scan_ends fuel))
    | inr done ↦ rw (scan, done) (λ e. cc)
  ]

-- The scanner ends on every command, with the expanded command or a refusal, as long as no
-- placeholder's key is empty: twice the command's length is enough rounds.
pub expand_path_placeholders_ends :
    (command : String) (values : Values)
    → has_keys values ≡ true
    → expand_path_placeholders command values ≢ exhausted
unfolding expand_path_placeholders comments
expand_path_placeholders_ends command values keys =
    scan_ends values keys (suc (text_size command + text_size command))
      (code_frame false true true "" 0 ∷ [])
      (record { before = ""; rest = command; out = ""; unproven = "" }) (omega arith)
