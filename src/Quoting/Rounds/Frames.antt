-- ===== src/Quoting/Rounds/Frames.antt =====
-- A round opens at most one comment, and never leaves the command's own scan.
use mergetrain.Prelude.{
  ℕ, suc, ◌≤◌, ◌≡◌, Bool, true, false, not, ◌&&◌, none, some, List, [], ◌∷◌, String, if◌then◌else◌,
  arith, ◌==◌, nat_column, text_column,
}
use mergetrain.Quoting.Scan.{
  Cursor, Values, doubt_if, Loop, code_frame, comment_frame, single_frame, double_frame,
  backquote_frame, parameter_frame, ansi_frame, arithmetic_frame, Round, dollar,
}
use mergetrain.Quoting.Rounds.{
  quotation, word_end, code_round, comment_round, single_round, double_round, backquote_round,
  doubted_quoting, parameter_round, arithmetic_round, ansi_round, plain_round, is_comment,
}

-- The comments on the stack.
unfoldable pub comments : List Loop → ℕ
comments [] = 0
comments (frame ∷ stack) =
    let below = comments stack in if is_comment frame then suc below else below

abbrev is_outer : Loop → Bool
is_outer (code_frame nested word_start plain word depth) = not nested
is_outer _ = false

-- The scans of a whole command on the stack.
unfoldable pub outers : List Loop → ℕ
outers [] = 0
outers (frame ∷ stack) = let below = outers stack in if is_outer frame then suc below else below

abbrev pub Opens : List Loop → Round → Type 0
Opens before none = Unit
Opens before (some (stack, d)) =
    (comments stack ≤ suc (comments before)) × (outers stack ≡ outers before)

module _ (values : Values) (c : Cursor) where
  dollar-Opens :
      (in_quotes : Bool) (stack : List Loop) → Opens stack (dollar values in_quotes stack c)
  unfolding dollar comments outers
  dollar-Opens in_quotes stack = ground arith

  quotation-Opens :
      (frame : Loop) (stack : List Loop) → Opens (frame ∷ stack) (quotation values frame stack c)
  unfolding quotation comments outers
  quotation-Opens frame stack = ground (arith, dollar-Opens false (frame ∷ stack))

  doubted-Opens :
      (frame : Loop) (stack : List Loop) → Opens (frame ∷ stack) (doubted_quoting frame stack c)
  unfolding doubted_quoting comments outers
  doubted-Opens frame stack = ground arith

  word_end-Opens :
      (nested word_start plain : Bool) (word : String) (depth : ℕ) (stack : List Loop)
      → Opens
          (code_frame nested word_start plain word depth ∷ stack)
          (word_end nested depth stack c)
  unfolding word_end comments outers
  word_end-Opens nested word_start plain word depth stack = ground arith

module _ (values : Values) (c : Cursor) where
  code_round-Opens :
      (nested word_start plain : Bool) (word : String) (depth : ℕ) (stack : List Loop)
      → Opens
          (code_frame nested word_start plain word depth ∷ stack)
          (code_round values nested word_start plain word depth stack c)
  unfolding code_round comments outers
  code_round-Opens nested word_start plain word depth stack = ground (
    arith,
    quotation-Opens values c (code_frame nested false false word depth) stack,
    word_end-Opens values
        (doubt_if (nested && plain && word == "case") "a case statement inside $(...)" c) nested
        word_start plain word depth stack,
  )

  parameter_round-Opens :
      (stack : List Loop) → Opens (parameter_frame ∷ stack) (parameter_round values stack c)
  unfolding parameter_round comments outers
  parameter_round-Opens stack = ground (
    arith,
    dollar-Opens values c true (parameter_frame ∷ stack),
    doubted-Opens values (doubt_if true "quoting inside a ${...} expansion" c) parameter_frame
        stack,
  )

  arithmetic_round-Opens :
      (depth : ℕ) (stack : List Loop)
      → Opens (arithmetic_frame depth ∷ stack) (arithmetic_round values depth stack c)
  unfolding arithmetic_round comments outers
  arithmetic_round-Opens depth stack = ground (
    arith,
    dollar-Opens values c true (arithmetic_frame depth ∷ stack),
    doubted-Opens values (doubt_if true "quoting inside an arithmetic expansion" c)
        (arithmetic_frame depth) stack,
  )

  pub plain_round-Opens :
      (frame : Loop) (stack : List Loop) → Opens (frame ∷ stack) (plain_round values frame stack c)
  unfolding plain_round comments outers comment_round single_round double_round backquote_round
      ansi_round
  plain_round-Opens (code_frame nested word_start plain word depth) stack =
      code_round-Opens nested word_start plain word depth stack
  plain_round-Opens comment_frame stack = ground arith
  plain_round-Opens single_frame stack = ground arith
  plain_round-Opens double_frame stack =
      ground (arith, dollar-Opens values c true (double_frame ∷ stack))
  plain_round-Opens backquote_frame stack = ground arith
  plain_round-Opens parameter_frame stack = parameter_round-Opens stack
  plain_round-Opens ansi_frame stack = ground arith
  plain_round-Opens (arithmetic_frame depth) stack = arithmetic_round-Opens depth stack
