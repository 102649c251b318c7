-- ===== src/Shell/Bounds.antt =====
-- The array `background_pids` and the variable `fg_pid` of shell-code/my_shell.c over many lines.
use os333_iit_bombay_labs.Prelude.{
  All, ◌<◌, ◌+◌, ◌≤◌, ◌≡◌, refl, ◌∙◌, inl, inr, Bool, true, false, Option, none, some, List, [],
  ◌∷◌, ◌++◌, length, ltb, if◌then◌else◌, arith, Bool-cases, length-append,
}
use os333_iit_bombay_labs.Prelude.Text.{Text, codes, text_eq}
use os333_iit_bombay_labs.Shell.State.{
  Fork, failed, child, World, ShellState, Outcome, going, exits, crashes, and_then, handle_sigint,
  wait_for, reap_background_processes,
}
use os333_iit_bombay_labs.Shell.Tokenize.{tokenize}
use os333_iit_bombay_labs.Shell.Commands.{
  max_background_processes, serial_mark, parallel_mark, max_input_size, run_and_wait, command_loop,
  serial_process, cd, split_pipe, execute_pipe, forground_process, background_process, has_token,
  strip_background, execute, run_tokens, run_line, main_loop,
}

pub record IsBounded (s : ShellState) : Type 0 where
  pub background : length s.background_pids ≤ max_background_processes
  pub idle : s.fg_pid ≡ none

-- A line that fits into the buffer and is split into tokens, with a command, and without parallel commands.
abbrev pub IsPlain : Text → Type 0
IsPlain line =
    (length line + 1 < max_input_size)
    × ((tokens : List Text) × (tokenize (line ++ b'\n' ∷ []) ≡ some tokens)
        × (0 < length (strip_background tokens).0)
        × (has_token parallel_mark tokens ≡ false))

-- The shell does not crash, and is bounded if it goes on.
abbrev pub Keeps : Outcome → Type 0
Keeps (going s) = IsBounded s
Keeps (exits s) = Unit
Keeps (crashes s) = ⊥

and_then-Keeps :
    (o : Outcome) (f : ShellState → Outcome)
    → Keeps o
    → ((s : ShellState) → IsBounded s → Keeps (f s))
    → Keeps (and_then o f)
and_then-Keeps (going s) f h k = k s h
and_then-Keeps (exits s) f h k = tt
and_then-Keeps (crashes s) f h k = h

if-Keeps : (b : Bool) (o p : Outcome) → Keeps o → Keeps p → Keeps (if b then o else p)
if-Keeps true o p h k = h
if-Keeps false o p h k = k

-- `waitpid` and the signal handler leave the arrays and `fg_pid` alone.
wait_for_keeps :
    (world : World) (pid : Fork) (s : ShellState)
    → ((wait_for world pid s).parallel_pids ≡ s.parallel_pids)
      × ((wait_for world pid s).background_pids ≡ s.background_pids)
      × ((wait_for world pid s).fg_pid ≡ s.fg_pid)
unfolding wait_for handle_sigint
wait_for_keeps world pid s = ground arith

wait_for-IsBounded :
    (world : World) (pid : Fork) (s : ShellState) → IsBounded s → IsBounded (wait_for world pid s)
wait_for-IsBounded world pid s h =
    let (p, b, f) = wait_for_keeps world pid s in
    record { background = rw b h.background; idle = f ∙ h.idle }

module _ (world : World) where
  run_and_wait-Keeps :
      (argv : List Text) (s : ShellState) → IsBounded s → Keeps (run_and_wait world argv s)
  unfolding run_and_wait
  run_and_wait-Keeps argv s h = forked (world.fork s.forks) refl
    where
      forked : (f : Fork) → world.fork s.forks ≡ f → Keeps (run_and_wait world argv s)
      forked failed e = rw (e, run_and_wait) tt
      forked (child pid) e =
          rw (e, run_and_wait)
            (record {
              background = rw ((wait_for_keeps world (child pid) _).1) h.background;
              idle = refl;
            })

  command_loop-Keeps :
      (mark : Text) (start : List Text → ShellState → Outcome)
      → ((argv : List Text) (s : ShellState) → IsBounded s → Keeps (start argv s))
      → (tokens pending : List Text) (s : ShellState) → IsBounded s
      → Keeps (command_loop mark start tokens pending s)
  unfolding command_loop
  command_loop-Keeps mark start step [] [] s h = h
  command_loop-Keeps mark start step [] (p ∷ pending) s h =
      if-Keeps s.stop_execution (going s) _ h (step (p ∷ pending) s h)
  command_loop-Keeps mark start step (t ∷ tokens) pending s h =
      choose s.stop_execution (text_eq t mark) _ _
        (and_then-Keeps (start pending s) _ (step pending s h)
          (λ s' h'. command_loop-Keeps mark start step tokens [] s' h'))
        (command_loop-Keeps mark start step tokens (pending ++ t ∷ []) s h)
    where
      choose :
          (a b : Bool) (o p : Outcome)
          → Keeps o
          → Keeps p
          → Keeps (elim a [ true ↦ going s | false ↦ elim b [ true ↦ o | false ↦ p ] ])
      choose true b o p x y = h
      choose false true o p x y = x
      choose false false o p x y = y

  cd-IsBounded : (tokens : List Text) (s : ShellState) → IsBounded s → IsBounded (cd tokens s)
  unfolding cd
  cd-IsBounded (t ∷ path ∷ tokens) s h = record { background = h.background; idle = h.idle }
  cd-IsBounded tokens s h = record { background = h.background; idle = h.idle }

  execute_pipe-Keeps :
      (cmd1 cmd2 : List Text) (s : ShellState)
      → IsBounded s
      → Keeps (execute_pipe world cmd1 cmd2 s)
  unfolding execute_pipe
  execute_pipe-Keeps cmd1 cmd2 s h =
      if-Keeps (world.piped s.forks) _ _
        (wait_for-IsBounded world _ _
          (wait_for-IsBounded world _ _ (record { background = h.background; idle = h.idle })))
        (record { background = h.background; idle = h.idle })

  forground_process-Keeps :
      (tokens : List Text) (s : ShellState)
      → 0 < length tokens
      → IsBounded s
      → Keeps (forground_process world tokens s)
  unfolding forground_process
  forground_process-Keeps [] s more h = absurd (omega (arith, more))
  forground_process-Keeps (t ∷ tokens) s more h = piped (split_pipe (t ∷ tokens)) refl
    where
      piped :
          (r : Option (List Text × List Text))
          → split_pipe (t ∷ tokens) ≡ r
          → Keeps (forground_process world (t ∷ tokens) s)
      piped (some (l, r)) e = rw (e, forground_process) (execute_pipe-Keeps l r s h)
      piped none e =
          rw (e, forground_process)
            (if-Keeps (text_eq t (codes "cd")) _ _ (cd-IsBounded (t ∷ tokens) s h)
              (run_and_wait-Keeps (t ∷ tokens) s h))

  background_process-Keeps :
      (tokens : List Text) (s : ShellState)
      → 0 < length tokens
      → IsBounded s
      → Keeps (background_process world tokens s)
  unfolding background_process
  background_process-Keeps [] s more h = absurd (omega (arith, more))
  background_process-Keeps (t ∷ tokens) s more h = forked (world.fork s.forks) refl
    where
      forked : (f : Fork) → world.fork s.forks ≡ f → Keeps (background_process world (t ∷ tokens) s)
      forked failed e =
          rw (e, background_process)
            (if-Keeps (text_eq t (codes "cd")) _ _ (cd-IsBounded (t ∷ tokens) s h) tt)
      forked (child pid) e =
          rw (e, background_process)
            (if-Keeps (text_eq t (codes "cd")) _ _ (cd-IsBounded (t ∷ tokens) s h)
              (elim (Bool-cases (ltb (length s.background_pids) max_background_processes)) [
                | inl room ↦ rw room (record {
                  background = ground (arith, length-append s.background_pids (pid ∷ []));
                  idle = h.idle;
                })
                | inr full ↦ rw full (record { background = h.background; idle = h.idle })
              ]))

  execute-Keeps :
      (tokens : List Text) (s : ShellState)
      → 0 < length (strip_background tokens).0
      → has_token parallel_mark tokens ≡ false
      → IsBounded s
      → Keeps (execute world tokens s)
  unfolding execute serial_process
  execute-Keeps tokens s more single h =
      if-Keeps (has_token serial_mark tokens) _ _
        (command_loop-Keeps serial_mark (run_and_wait world) run_and_wait-Keeps command [] s h)
        (rw (single) (
          if-Keeps (strip_background tokens).1 _ _ (background_process-Keeps command s more h)
            (forground_process-Keeps command s more h)))
    where
      command : List Text
      command = (strip_background tokens).0

  run_tokens-Keeps :
      (tokens : List Text) (s : ShellState)
      → 0 < length (strip_background tokens).0
      → has_token parallel_mark tokens ≡ false
      → IsBounded s
      → Keeps (run_tokens world tokens s)
  unfolding run_tokens strip_background
  run_tokens-Keeps [] s more single h = absurd (omega (arith, more))
  run_tokens-Keeps (t ∷ tokens) s more single h = if-Keeps (text_eq t (codes "exit")) _ _ tt (
      execute-Keeps (t ∷ tokens) (record s { stop_execution = false }) more single
        (record { background = h.background; idle = h.idle }))

  run_line-Keeps :
      (line : Text) (s : ShellState) → IsPlain line → IsBounded s → Keeps (run_line world line s)
  unfolding run_line
  run_line-Keeps line s (fits, (tokens, e, more, single)) h =
      let room : ltb (length line + 1) max_input_size ≡ true = ground (arith, fits) in
      rw (e, room, run_line) (run_tokens-Keeps tokens s more single h)

  reaped-IsBounded : (s : ShellState) → IsBounded s → IsBounded (reap_background_processes world s)
  unfolding reap_background_processes
  reaped-IsBounded s h = record { background = h.background; idle = h.idle }

  -- Whatever the forks and the signals do, the shell does not crash on lines that fit into its buffer, that `tokenize`
  -- splits, and that hold a command and no &&&; as long as it goes on, it has noted at most 64 background processes, and
  -- at the prompt `fg_pid` is -1.
  pub main_loop-Keeps :
      (lines : List Text) (s : ShellState)
      → All IsPlain lines
      → IsBounded s
      → Keeps (main_loop world lines s)
  unfolding main_loop
  main_loop-Keeps [] s plain h = h
  main_loop-Keeps (line ∷ lines) s plain h =
      let reaped = reap_background_processes world s in
      and_then-Keeps (run_line world line reaped) _
        (run_line-Keeps line reaped plain.0 (reaped-IsBounded s h))
        (λ s' h'. main_loop-Keeps lines s' plain.1 h')
