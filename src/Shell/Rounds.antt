-- ===== src/Shell/Rounds.antt =====
-- One round of the main loop of shell-code/my_shell.c: a blank line, and a word that is too long.
use mathlib.Core.List.{append-nil, append_assoc}
use os333_iit_bombay_labs.Prelude.{
  ◌+◌, ◌≤◌, ◌<◌, ◌≡◌, refl, Bool, true, false, none, some, [], ◌∷◌, ◌++◌, length, ltb,
  if◌then◌else◌, arith, All, All-append,
}
use os333_iit_bombay_labs.Prelude.Text.{Text}
use os333_iit_bombay_labs.Shell.State.{World, ShellState, crashes}
use os333_iit_bombay_labs.Shell.Tokenize.{max_token_size, tokenize}
use os333_iit_bombay_labs.Shell.Tokenize.Laws.{
  IsSpace, tokenize-line_of, tokenize_overflow, IsLetter,
}
use os333_iit_bombay_labs.Shell.Commands.{
  max_input_size, forground_process, has_token, strip_background, execute, run_tokens, run_line,
}

-- A line of blanks alone ends the shell: `strcmp` reads through the NULL that `tokens[0]` is.
pub run_line_blank :
    (world : World) (line : Text) (s : ShellState)
    → All IsSpace line
    → length line + 1 < max_input_size
    → run_line world line s ≡ crashes (record s { stop_execution = false })
unfolding run_line run_tokens execute has_token strip_background forground_process
run_line_blank world line s blank room =
    let fits : ltb (length line + 1) max_input_size ≡ true = ground arith in
    let no_words : tokenize (line ++ b'\n' ∷ []) ≡ some [] =
      rw (append-nil (line ++ b'\n' ∷ [])) at (
        tokenize-line_of (line ++ b'\n' ∷ []) []
          (All-append IsSpace line (b'\n' ∷ []) blank (refl, tt)) tt (omega arith)) in
    rw (fits, no_words)

-- A word of 64 letters or more ends the shell: it overruns the token buffer.
pub run_line_long_word :
    (world : World) (before w : Text) (s : ShellState)
    → All IsLetter w
    → max_token_size ≤ length w
    → run_line world (before ++ w) s ≡ crashes s
unfolding run_line
run_line_long_word world before w s letters long =
    let broken : tokenize ((before ++ w) ++ b'\n' ∷ []) ≡ none =
      rw (append_assoc before w (b'\n' ∷ []))
        (tokenize_overflow before w b'\n' [] letters refl long) in
    rw broken (same (ltb (length (before ++ w) + 1) max_input_size))
  where
    same : (b : Bool) → (if b then crashes s else crashes s) ≡ crashes s
    same true = refl
    same false = refl
