-- ===== src/Quoting/Rounds/Verbatim.antt =====
-- Commands without placeholders.
use text.Mathlib.TextLemmas.{nil-append, append-nil}
use mergetrain.Prelude.{
  ℕ, suc, zero, ◌+◌, ◌≤◌, ◌<◌, ◌≡◌, inl, inr, refl, ap, sym, ◌∙◌, true, false, ◌&&◌, none, some,
  List, [], ◌∷◌, String, nonempty, ◌<>◌, has_prefix, Bool-cases, arith, nat_column, text_column,
}
use mergetrain.Quoting.Scan.{Cursor, Values, at_text, Loop, code_frame, comment_frame, Round}
use mergetrain.Quoting.Rounds.{plain_round, text_size, is_comment}
use mergetrain.Quoting.Render.{Context}
use mergetrain.Quoting.Scan.{absent, placeholder, context_of}
use mergetrain.Quoting.Rounds.{round, scan, finished, config_error, expand_path_placeholders}
use mergetrain.Quoting.Rounds.Moves.{has_keys, lacks_keys, starts_key}
use mergetrain.Quoting.Rounds.Advances.{Advances}
use mergetrain.Quoting.Rounds.Progress.{plain_round-Advances}
use mergetrain.Quoting.Rounds.Frames.{comments, Opens, plain_round-Opens}
use mergetrain.Quoting.Rounds.Frames.{outers}
use mergetrain.Quoting.Rounds.Scanning.{weight, plain-Lighter}

placeholder_absent :
    (values : Values) (context : Context) (c : Cursor)
    → starts_key values c.rest ≡ false
    → placeholder values context c ≡ absent
unfolding placeholder starts_key
placeholder_absent [] context c h = refl
placeholder_absent ((key, value) ∷ more) context c h =
    let miss : has_prefix key c.rest ≡ false = ground arith in
    rw (placeholder, miss) (placeholder_absent more context c (ground arith))

lacks_start :
    (values : Values) (s : String)
    → nonempty s ≡ true
    → lacks_keys values s ≡ true
    → starts_key values s ≡ false
unfolding lacks_keys
lacks_start values String.[] some_left h = absurd (ground arith)
lacks_start values (String.◌∷◌ d s) some_left h = ground arith

-- The round went on with the command as it was.
abbrev Copies : Values → Cursor → List Loop → Round → Type 0
Copies values c before none = ⊥
Copies values c before (some (frames, d)) =
    (d.out <> d.rest ≡ c.out <> c.rest)
    × (lacks_keys values d.rest ≡ true)
    × (outers frames ≡ outers before)
    × (weight frames d < weight before c)

copied :
    (values : Values) (stack : List Loop) (c : Cursor) (r : Round)
    → has_keys values ≡ true
    → lacks_keys values c.rest ≡ true
    → Advances values c r
    → Opens stack r
    → Copies values c stack r
copied values stack c none keys lacks a o = absurd (ground (arith, a.1 keys))
copied values stack c (some (frames, d)) keys lacks a o = (
  a.reached.kept,
  a.reached.clean lacks,
  o.1,
  plain-Lighter values stack c (some (frames, d)) a o,
)

module _ (values : Values) (keys : has_keys values ≡ true) where
  round-Copies :
      (frame : Loop) (stack : List Loop) (c : Cursor)
      → nonempty c.rest ≡ true
      → lacks_keys values c.rest ≡ true
      → Copies values c (frame ∷ stack) (round values frame stack c)
  unfolding round comments outers
  round-Copies frame stack c some_left lacks =
      elim (Bool-cases (is_comment frame && at_text "\n" c)) [
        | inl ended ↦
            let commented : frame ≡ comment_frame = ground arith in
            rw (ended, commented) (refl, lacks, refl, omega arith)
        | inr goes ↦
            rw
              (
                goes,
                placeholder_absent values (context_of frame) c
                    (lacks_start values c.rest some_left lacks),
              )
              (copied values (frame ∷ stack) c (plain_round values frame stack c) keys lacks
                (plain_round-Advances values c some_left frame stack)
                (plain_round-Opens values c frame stack))
      ]

  copied_on :
      (fuel : ℕ) (before : List Loop) (c : Cursor) (r : Round)
      → Copies values c before r
      → weight before c ≤ fuel
      → outers before ≡ 1
      → ((stack : List Loop) (d : Cursor)
          → weight stack d < fuel
          → outers stack ≡ 1
          → lacks_keys values d.rest ≡ true
          → scan fuel values stack d ≡ finished (d.out <> d.rest))
      → (elim r [ none ↦ config_error | some (frames, d) ↦ scan fuel values frames d ])
        ≡ finished (c.out <> c.rest)
  copied_on fuel before c none copies le outer later = absurd copies
  copied_on fuel before c (some (frames, d)) (kept, lacks, same, lighter) le outer later =
      later frames d (omega (arith, lighter, le)) (same ∙ outer) lacks ∙ ap finished kept

  nothing_left : (out s : String) → nonempty s ≡ false → out ≡ out <> s
  nothing_left out String.[] h = sym (append-nil out)
  nothing_left out (String.◌∷◌ d s) h = absurd (ground arith)

  scan_copies :
      (fuel : ℕ) (stack : List Loop) (c : Cursor)
      → weight stack c < fuel
      → outers stack ≡ 1
      → lacks_keys values c.rest ≡ true
      → scan fuel values stack c ≡ finished (c.out <> c.rest)
  unfolding scan outers
  scan_copies fuel [] c h outer lacks = absurd (ground arith)
  scan_copies zero (frame ∷ stack) c h outer lacks = absurd (omega arith)
  scan_copies (suc fuel) (frame ∷ stack) c h outer lacks = elim (Bool-cases (nonempty c.rest)) [
    | inl some_left ↦
        rw (scan, some_left)
          (copied_on fuel (frame ∷ stack) c (round values frame stack c)
            (round-Copies frame stack c some_left lacks) (omega (arith, h)) outer
            (scan_copies fuel))
    | inr done ↦ rw (scan, done) (ap finished (nothing_left c.out c.rest done))
  ]

-- A command in which no placeholder occurs is returned as it is, whatever it quotes and nests.
pub expand_path_placeholders_verbatim :
    (command : String) (values : Values)
    → has_keys values ≡ true
    → lacks_keys values command ≡ true
    → expand_path_placeholders command values ≡ finished command
unfolding expand_path_placeholders comments outers
expand_path_placeholders_verbatim command values keys lacks =
    scan_copies values keys (suc (text_size command + text_size command))
      (code_frame false true true "" 0 ∷ [])
      (record { before = ""; rest = command; out = ""; unproven = "" }) (omega arith) refl lacks
    ∙ ap finished (nil-append command)
