-- ===== src/Quoting/Rounds/Progress.antt =====
-- The rounds of the loops, one by one: progress, and what they refuse.
use mergetrain.Prelude.{ℕ, ◌≡◌, Bool, true, List, String, nonempty, nat_column, text_column}
use mergetrain.Quoting.Scan.{
  Cursor, Values, doubt_if, Loop, code_frame, comment_frame, single_frame, double_frame,
  backquote_frame, parameter_frame, ansi_frame, arithmetic_frame, dollar,
}
use mergetrain.Quoting.Rounds.{
  quotation, word_end, code_round, comment_round, single_round, double_round, backquote_round,
  doubted_quoting, parameter_round, arithmetic_round, ansi_round, plain_round,
}
use mergetrain.Quoting.Rounds.Advances.{Advances, rounds, from_doubt}

module _ (values : Values) (c : Cursor) (some_left : nonempty c.rest ≡ true) where
  dollar-Advances :
      (in_quotes : Bool) (stack : List Loop) → Advances values c (dollar values in_quotes stack c)
  unfolding dollar
  dollar-Advances in_quotes stack = search (rounds) depth 20

  quotation-Advances :
      (frame : Loop) (stack : List Loop) → Advances values c (quotation values frame stack c)
  unfolding quotation
  quotation-Advances frame stack = search (rounds, dollar-Advances) depth 20

  word_end-Advances :
      (nested : Bool) (depth : ℕ) (stack : List Loop)
      → Advances values c (word_end nested depth stack c)
  unfolding word_end
  word_end-Advances nested depth stack = search (rounds) depth 20

  comment_round-Advances : (stack : List Loop) → Advances values c (comment_round stack c)
  unfolding comment_round
  comment_round-Advances stack = search (rounds) depth 20

  doubted_quoting-Advances :
      (frame : Loop) (stack : List Loop) → Advances values c (doubted_quoting frame stack c)
  unfolding doubted_quoting
  doubted_quoting-Advances frame stack = search (rounds) depth 20

module _ (values : Values) (c : Cursor) (some_left : nonempty c.rest ≡ true) where
  single_round-Advances : (stack : List Loop) → Advances values c (single_round stack c)
  unfolding single_round
  single_round-Advances stack = search (rounds) depth 20

  backquote_round-Advances : (stack : List Loop) → Advances values c (backquote_round stack c)
  unfolding backquote_round
  backquote_round-Advances stack = search (rounds) depth 20

  ansi_round-Advances : (stack : List Loop) → Advances values c (ansi_round stack c)
  unfolding ansi_round
  ansi_round-Advances stack = search (rounds) depth 20

  double_round-Advances : (stack : List Loop) → Advances values c (double_round values stack c)
  unfolding double_round
  double_round-Advances stack = search (rounds, dollar-Advances values c some_left) depth 20

  doubted-Advances :
      (construct : String) (frame : Loop) (stack : List Loop)
      → Advances values c (doubted_quoting frame stack (doubt_if true construct c))
  doubted-Advances construct frame stack =
      from_doubt values true construct c _
        (λ more. doubted_quoting-Advances values (doubt_if true construct c) more frame stack)
        some_left

  parameter_round-Advances :
      (stack : List Loop) → Advances values c (parameter_round values stack c)
  unfolding parameter_round
  parameter_round-Advances stack =
      search (rounds, dollar-Advances values c some_left, doubted-Advances) depth 20

  arithmetic_round-Advances :
      (depth : ℕ) (stack : List Loop) → Advances values c (arithmetic_round values depth stack c)
  unfolding arithmetic_round
  arithmetic_round-Advances depth stack =
      search (rounds, dollar-Advances values c some_left, doubted-Advances) depth 20

  word_ended-Advances :
      (test : Bool) (construct : String) (nested : Bool) (depth : ℕ) (stack : List Loop)
      → Advances values c (word_end nested depth stack (doubt_if test construct c))
  word_ended-Advances test construct nested depth stack =
      from_doubt values test construct c _
        (λ more. word_end-Advances values (doubt_if test construct c) more nested depth stack)
        some_left

  code_round-Advances :
      (nested word_start plain : Bool) (word : String) (depth : ℕ) (stack : List Loop)
      → Advances values c (code_round values nested word_start plain word depth stack c)
  unfolding code_round
  code_round-Advances nested word_start plain word depth stack =
      search (rounds, quotation-Advances values c some_left, word_ended-Advances) depth 20

  -- Every round of a loop in which no placeholder starts copies at least one character of the command,
  -- and is refused only where a value needs quoting.
  pub plain_round-Advances :
      (frame : Loop) (stack : List Loop) → Advances values c (plain_round values frame stack c)
  unfolding plain_round
  plain_round-Advances (code_frame nested word_start plain word depth) stack =
      code_round-Advances nested word_start plain word depth stack
  plain_round-Advances comment_frame stack = comment_round-Advances values c some_left stack
  plain_round-Advances single_frame stack = single_round-Advances stack
  plain_round-Advances double_frame stack = double_round-Advances stack
  plain_round-Advances backquote_frame stack = backquote_round-Advances stack
  plain_round-Advances parameter_frame stack = parameter_round-Advances stack
  plain_round-Advances ansi_frame stack = ansi_round-Advances stack
  plain_round-Advances (arithmetic_frame depth) stack = arithmetic_round-Advances depth stack
