-- ===== src/Shell/Release.antt =====
-- The loops at the ends of `main` in shell-code/my_shell.c that free the tokens of a line, up to the first NULL.
use os333_iit_bombay_labs.Prelude.{
  ◌≡◌, refl, ap, true, false, Option, none, some, List, [], ◌∷◌, ◌++◌, map, if◌then◌else◌, arith,
  All,
}
use os333_iit_bombay_labs.Prelude.Text.{Text, codes, text_eq, text_eq_iff}
use os333_iit_bombay_labs.Shell.State.{World, ShellState, Outcome, going, exits, crashes}
use os333_iit_bombay_labs.Shell.Commands.{
  serial_mark, parallel_mark, run_and_wait, run_beside, has_token, strip_background, run_tokens,
}
use os333_iit_bombay_labs.Shell.Loop.{joined_by, IsCommand}

-- `tokens` behind `serial_process` or `parallel_process`: the loop overwrites each mark it comes to with NULL.
unfoldable pub null_marks :
    Text
    → (List Text → ShellState → Outcome)
    → List Text
    → List Text
    → ShellState
    → List (Option Text)
null_marks mark start [] pending s = []
null_marks mark start (t ∷ tokens) pending s = elim s.stop_execution [
  | true ↦ map some (t ∷ tokens)
  | false ↦ elim (text_eq t mark) [
    | true ↦ elim (start pending s) [
      | going s' ↦ none ∷ null_marks mark start tokens [] s'
      | exits s' ↦ none ∷ map some tokens
      | crashes s' ↦ none ∷ map some tokens
    ]
    | false ↦ some t ∷ null_marks mark start tokens (pending ++ t ∷ []) s
  ]
]

-- `tokens` behind `execute_pipe`: the first "|" is overwritten.
unfoldable pub null_pipe : List Text → List (Option Text)
null_pipe [] = []
null_pipe (t ∷ tokens) = elim (text_eq t (codes "|")) [
  | true ↦ none ∷ map some tokens
  | false ↦ some t ∷ null_pipe tokens
]

-- `for (i = 0; tokens[i] != NULL; i++) free(tokens[i])`
unfoldable pub freed : List (Option Text) → List Text
freed [] = []
freed (none ∷ tokens) = []
freed (some t ∷ tokens) = t ∷ freed tokens

-- What the second loop of `main` frees behind the four ways to execute.
unfoldable pub frees_behind : World → List Text → ShellState → List Text
frees_behind world tokens s =
    let (command, in_background) = strip_background tokens in
    let begun = record s { stop_execution = false } in
    if has_token serial_mark tokens
    then freed (null_marks serial_mark (run_and_wait world) command [] begun)
    else if has_token parallel_mark tokens
    then freed (null_marks parallel_mark (run_beside world) command [] begun)
    else if in_background
    then command
    else freed (null_pipe command)

-- The tokens that a round of the main loop frees: all of them on "exit", and none where the shell exits or crashes
-- while it executes the line, since it does not come to the loop.
unfoldable pub round_frees : World → List Text → ShellState → List Text
round_frees world [] s = []
round_frees world (t ∷ tokens) s =
    let behind : List Text = elim (run_tokens world (t ∷ tokens) s) [
      | going s' ↦ frees_behind world (t ∷ tokens) s
      | exits s' ↦ []
      | crashes s' ↦ []
    ] in
    if text_eq t (codes "exit") then t ∷ tokens else behind

-- The loop frees what stands before the first mark.
freed_before :
    (mark : Text) (start : List Text → ShellState → Outcome) (c rest pending : List Text)
    (s : ShellState)
    → s.stop_execution ≡ false
    → All (λ t. text_eq t mark ≡ false) c
    → freed (null_marks mark start (c ++ mark ∷ rest) pending s) ≡ c
unfolding null_marks freed
freed_before mark start [] rest pending s on h =
    let here : text_eq mark mark ≡ true = (text_eq_iff mark mark).1 refl in
    rw (on, here) (freed_none (start pending s))
  where
    freed_none :
        (o : Outcome)
        → freed (elim o [
          | going s' ↦ none ∷ null_marks mark start rest [] s'
          | exits s' ↦ none ∷ map some rest
          | crashes s' ↦ none ∷ map some rest
        ])
          ≡ []
    freed_none (going s') = refl
    freed_none (exits s') = refl
    freed_none (crashes s') = refl
freed_before mark start (t ∷ c) rest pending s on h =
    rw (on, h.0)
      (ap (λ (ts : List Text). t ∷ ts)
        (freed_before mark start c rest (pending ++ t ∷ []) s on h.1))

has_mark : (mark : Text) (c rest : List Text) → has_token mark (c ++ mark ∷ rest) ≡ true
unfolding has_token
has_mark mark [] rest =
    let here : text_eq mark mark ≡ true = (text_eq_iff mark mark).1 refl in rw (here) refl
has_mark mark (t ∷ c) rest = ground (arith, has_mark mark c rest)

-- Of a line of two or more commands with && between them, the first of which is not `exit` and the last of which does not
-- end in &, a round after which the shell goes on frees only the tokens of the first command.
pub serial_frees_first :
    (world : World) (t : Text) (c d : List Text) (cs : List (List Text)) (s s' : ShellState)
    → All (IsCommand serial_mark) ((t ∷ c) ∷ d ∷ cs)
    → text_eq t (codes "exit") ≡ false
    → strip_background (joined_by serial_mark ((t ∷ c) ∷ d ∷ cs))
      ≡ (joined_by serial_mark ((t ∷ c) ∷ d ∷ cs), false)
    → run_tokens world (joined_by serial_mark ((t ∷ c) ∷ d ∷ cs)) s ≡ going s'
    → round_frees world (joined_by serial_mark ((t ∷ c) ∷ d ∷ cs)) s ≡ t ∷ c
unfolding round_frees frees_behind
serial_frees_first world t c d cs s s' h not_exit in_front goes_on =
    let rest = joined_by serial_mark (d ∷ cs) in
    rw (goes_on, not_exit, has_mark serial_mark (t ∷ c) rest, in_front)
      (freed_before serial_mark (run_and_wait world) (t ∷ c) rest []
        (record s { stop_execution = false }) refl h.0.1)
