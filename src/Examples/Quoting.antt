-- ===== src/Examples/Quoting.antt =====
-- Placeholders expanded in concrete commands.
use mergetrain.Prelude.{◌≡◌, ◌≢◌, refl, String, some, [], ◌∷◌, has_prefix}
use mergetrain.Quoting.Render.{
  double, render, is_context_free, all_plain, is_plain, one_of, escape_double_quoted,
  escape_single_quoted, shell_quote, replace_char, has_char,
}
use mergetrain.Quoting.Scan.{
  Values, copy_char, copy, doubt_if, at_one_of, skip, placeholder, any_key, any_quoted_key, dollar,
}
use mergetrain.Quoting.Rounds.{
  preceded_by, is_name, all_word_chars, quotation, word_end, code_round, comment_round,
  single_round, double_round, backquote_round, plain_round, round, scan, finished, config_error,
  exhausted, expand_path_placeholders, text_size,
}
use mergetrain.Quoting.Reading.{read, double_quoted}
use mergetrain.Quoting.Reading.Contexts.{render-IsReadAs}
use mergetrain.Quoting.Rounds.Moves.{has_keys, lacks_keys, starts_key, harmless}
use mergetrain.Quoting.Rounds.Scanning.{expand_path_placeholders_ends}
use mergetrain.Quoting.Rounds.Verbatim.{expand_path_placeholders_verbatim}
use mergetrain.Quoting.Rounds.Literal.{Expands}
use mergetrain.Quoting.Rounds.Expanded.{expand_path_placeholders_accepts}

abbrev spaced : Values
spaced = ("${repo}", "/my repo") ∷ ("${worktree}", "/w") ∷ []

abbrev safe : Values
safe = ("${repo}", "/r") ∷ []

abbrev command : String
command = "cd ${repo} && ls \"$(cat '${worktree}/x')\" # ${repo}"

expand_test :
    expand_path_placeholders command spaced
    ≡ finished "cd '/my repo' && ls \"$(cat '/w/x')\" # '/my repo'"
unfolding expand_path_placeholders text_size scan round plain_round code_round comment_round
    single_round double_round quotation word_end dollar placeholder render is_context_free all_plain
    is_plain one_of shell_quote escape_single_quoted replace_char has_char copy copy_char skip
    doubt_if at_one_of any_key any_quoted_key has_prefix is_name all_word_chars preceded_by
expand_test = refl

refused_test : expand_path_placeholders "echo `ls ${repo}`" spaced ≡ config_error
unfolding expand_path_placeholders text_size scan round plain_round code_round backquote_round
    quotation word_end dollar placeholder render is_context_free all_plain is_plain one_of
    shell_quote escape_single_quoted replace_char has_char copy copy_char skip doubt_if at_one_of
    any_key any_quoted_key has_prefix is_name all_word_chars preceded_by
refused_test = refl

render-IsReadAs_example : read double_quoted "/a \\$b" ≡ some ("/a $b", double_quoted)
unfolding render is_context_free all_plain is_plain one_of escape_double_quoted replace_char
render-IsReadAs_example = render-IsReadAs "" double "/a $b" refl

expand_path_placeholders_ends_example : expand_path_placeholders command spaced ≢ exhausted
unfolding has_keys
expand_path_placeholders_ends_example = expand_path_placeholders_ends command spaced refl

expand_path_placeholders_verbatim_example :
    expand_path_placeholders "echo \"$(ls)\" '$x'" spaced ≡ finished "echo \"$(ls)\" '$x'"
unfolding has_keys lacks_keys starts_key has_prefix
expand_path_placeholders_verbatim_example =
    expand_path_placeholders_verbatim "echo \"$(ls)\" '$x'" spaced refl refl

expand_path_placeholders_accepts_example :
    (text : String) × (expand_path_placeholders "echo `ls ${repo}`" safe ≡ finished text)
    × Expands safe "echo `ls ${repo}`" text
unfolding has_keys harmless is_context_free all_plain is_plain one_of
expand_path_placeholders_accepts_example =
    expand_path_placeholders_accepts "echo `ls ${repo}`" safe refl refl
