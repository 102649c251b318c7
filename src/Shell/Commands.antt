-- ===== src/Shell/Commands.antt =====
-- shell-code/my_shell.c: foreground, background, serial and parallel execution, pipes, and one
-- round of the main loop. The tokens are the entries before the first NULL.
use os333_iit_bombay_labs.Prelude.{
  ℕ, ◌+◌, Bool, true, false, ◌||◌, Option, none, some, List, [], ◌∷◌, ◌++◌, length, ltb,
  if◌then◌else◌,
}
use os333_iit_bombay_labs.Prelude.Text.{Text, codes, text_eq}
use os333_iit_bombay_labs.Shell.State.{
  failed, child, World, run, run_writer, run_reader, chdir, complain, ShellState, Outcome, going,
  exits, crashes, and_then, say, wait_for, terminate_background_processes,
  reap_background_processes,
}
use os333_iit_bombay_labs.Shell.Tokenize.{max_num_tokens, tokenize}

abbrev pub max_input_size : ℕ
max_input_size = 1024

abbrev pub max_background_processes : ℕ
max_background_processes = 64

abbrev pub serial_mark : Text
serial_mark = codes "&&"

abbrev pub parallel_mark : Text
parallel_mark = codes "&&&"

abbrev fork_failed : ShellState → Outcome
fork_failed s = exits (say (complain (codes "fork failed")) s)

-- `fork`, `execvp` in the child, and `waitpid` in the parent with `fg_pid` set.
unfoldable pub run_and_wait : World → List Text → ShellState → Outcome
run_and_wait world argv s = elim (world.fork s.forks) [
  | failed ↦ fork_failed s
  | child pid ↦
      let started = record s {
        log = s.log ++ run pid argv ∷ [];
        forks = s.forks + 1;
        fg_pid = some pid;
      } in
      going (record (wait_for world (child pid) started) { fg_pid = none })
]

-- The loop over the tokens in `serial_process` and in `parallel_process`, which differ in the mark
-- and in how a command is started. `pending` holds the tokens from `command_index` on, up to the
-- current one.
unfoldable pub command_loop :
    Text → (List Text → ShellState → Outcome) → List Text → List Text → ShellState → Outcome
command_loop mark start [] [] s = going s
command_loop mark start [] (p ∷ pending) s =
    if s.stop_execution then going s else start (p ∷ pending) s
command_loop mark start (t ∷ tokens) pending s = elim s.stop_execution [
  | true ↦ going s
  | false ↦ elim (text_eq t mark) [
    | true ↦ and_then (start pending s) (λ s'. command_loop mark start tokens [] s')
    | false ↦ command_loop mark start tokens (pending ++ t ∷ []) s
  ]
]

unfoldable pub serial_process : World → List Text → ShellState → Outcome
serial_process world tokens s = command_loop serial_mark (run_and_wait world) tokens [] s

-- `fork` and `execvp` in the child; the parent notes the pid in `parallel_pids`, which has 64 entries.
unfoldable pub run_beside : World → List Text → ShellState → Outcome
run_beside world argv s = elim (world.fork s.forks) [
  | failed ↦ fork_failed s
  | child pid ↦
      let started = record s { log = s.log ++ run pid argv ∷ []; forks = s.forks + 1 } in
      if ltb (length s.parallel_pids) max_num_tokens
      then going (record started { parallel_pids = s.parallel_pids ++ pid ∷ [] })
      else crashes started
]

unfoldable pub wait_all : World → List ℕ → ShellState → ShellState
wait_all world [] s = s
wait_all world (pid ∷ pids) s = wait_all world pids (wait_for world (child pid) s)

-- `parallel_pid_count` is the length of `parallel_pids`, and is never set back.
unfoldable pub parallel_process : World → List Text → ShellState → Outcome
parallel_process world tokens s =
    and_then (command_loop parallel_mark (run_beside world) tokens [] s)
      (λ s'. going (wait_all world s'.parallel_pids s'))

unfoldable pub cd : List Text → ShellState → ShellState
cd (_ ∷ path ∷ _) s = say (chdir path) s
cd _ s = say (complain (codes "cd: expected argument")) s

-- The tokens before and behind the first "|".
unfoldable pub split_pipe : List Text → Option (List Text × List Text)
split_pipe [] = none
split_pipe (t ∷ tokens) =
    let rest : Option (List Text × List Text) = elim (split_pipe tokens) [
      | none ↦ none
      | some (l, r) ↦ some (t ∷ l, r)
    ] in
    if text_eq t (codes "|") then some ([], tokens) else rest

-- The results of the two forks are not tested.
unfoldable pub execute_pipe : World → List Text → List Text → ShellState → Outcome
execute_pipe world cmd1 cmd2 s =
    let pid1 = world.fork s.forks in
    let pid2 = world.fork (s.forks + 1) in
    let started = record s {
      log = s.log ++ run_writer pid1 cmd1 ∷ run_reader pid2 cmd2 ∷ [];
      forks = s.forks + 2;
    } in
    if world.piped s.forks
    then going (wait_for world pid2 (wait_for world pid1 started))
    else going (say (complain (codes "pipe")) s)

-- `strcmp(tokens[0], "cd")` with no token reads through NULL.
unfoldable pub forground_process : World → List Text → ShellState → Outcome
forground_process world [] s = crashes s
forground_process world (t ∷ tokens) s = elim (split_pipe (t ∷ tokens)) [
  | some (cmd1, cmd2) ↦ execute_pipe world cmd1 cmd2 s
  | none ↦
      if text_eq t (codes "cd")
      then going (cd (t ∷ tokens) s)
      else run_and_wait world (t ∷ tokens) s
]

unfoldable pub background_process : World → List Text → ShellState → Outcome
background_process world [] s = crashes s
background_process world (t ∷ tokens) s =
    let spawn : Outcome = elim (world.fork s.forks) [
      | failed ↦ fork_failed s
      | child pid ↦
          let started = record s {
            log = s.log ++ run pid (t ∷ tokens) ∷ [];
            forks = s.forks + 1;
          } in
          if ltb (length s.background_pids) max_background_processes
          then going (record started { background_pids = s.background_pids ++ pid ∷ [] })
          else going (say (complain (codes "Too many background processes")) started)
    ] in
    if text_eq t (codes "cd") then going (cd (t ∷ tokens) s) else spawn

-- Whether some token is `mark`.
unfoldable pub has_token : Text → List Text → Bool
has_token mark [] = false
has_token mark (t ∷ tokens) = text_eq t mark || has_token mark tokens

-- The tokens without a final "&", and whether there was one.
unfoldable pub strip_background : List Text → List Text × Bool
strip_background [] = ([], false)
strip_background (t ∷ []) = if text_eq t (codes "&") then ([], true) else (t ∷ [], false)
strip_background (t ∷ u ∷ tokens) =
    let (rest, found) = strip_background (u ∷ tokens) in (t ∷ rest, found)

-- The choice of `main` between the four ways to execute.
unfoldable pub execute : World → List Text → ShellState → Outcome
execute world tokens s =
    let (command, in_background) = strip_background tokens in
    if has_token serial_mark tokens
    then serial_process world command s
    else if has_token parallel_mark tokens
    then parallel_process world command s
    else if in_background
    then background_process world command s
    else forground_process world command s

-- One round of the main loop behind `tokenize`. On "exit" the loop ends.
unfoldable pub run_tokens : World → List Text → ShellState → Outcome
run_tokens world [] s = execute world [] (record s { stop_execution = false })
run_tokens world (t ∷ tokens) s =
    if text_eq t (codes "exit")
    then exits (terminate_background_processes s)
    else execute world (t ∷ tokens) (record s { stop_execution = false })

-- One round of the main loop for the line that `scanf` reads, which must leave room in the buffer
-- for the newline and the NUL.
unfoldable pub run_line : World → Text → ShellState → Outcome
run_line world line s =
    let round : Outcome = elim (tokenize (line ++ b'\n' ∷ [])) [
      | none ↦ crashes s
      | some tokens ↦ run_tokens world tokens s
    ] in
    if ltb (length line + 1) max_input_size then round else crashes s

-- The lines that are read, one per round.
unfoldable pub main_loop : World → List Text → ShellState → Outcome
main_loop world [] s = going s
main_loop world (line ∷ lines) s =
    and_then (run_line world line (reap_background_processes world s))
      (λ s'. main_loop world lines s')
