-- ===== src/Shell/State.antt =====
-- shell-code/my_shell.c: the globals of the shell, what it asks of the operating system, and the
-- signal handler.
use os333_iit_bombay_labs.Prelude.{
  ℕ, ◌+◌, Bool, true, Option, none, some, List, [], ◌∷◌, ◌++◌, map, replicate, if◌then◌else◌,
}
use os333_iit_bombay_labs.Prelude.Text.{Text}

-- The result of a `fork` in the parent.
pub data Fork : Type 0 where
  failed : Fork
  child : ℕ → Fork

-- What the system answers: the n-th `fork`, whether SIGINT comes during the n-th `waitpid`, whether a
-- `pipe` succeeds after n forks, and how many children have ended and not been waited for at the n-th prompt.
pub record World : Type 0 where
  pub fork : ℕ → Fork
  pub interrupted : ℕ → Bool
  pub piped : ℕ → Bool
  pub finished : ℕ → ℕ

pub data Action : Type 0 where
  run : ℕ → List Text → Action  -- a child with this pid executes the arguments
  run_writer run_reader : Fork → List Text → Action  -- the two ends of a pipe
  wait : Fork → Action  -- `waitpid`; of a failed fork it is `waitpid(-1)`
  interrupt : ℕ → Action  -- kill(pid, SIGINT)
  terminate : ℕ → Action  -- kill(pid, SIGTERM)
  chdir : Text → Action
  complain : Text → Action
  announce : Action  -- "Shell: Background process finished"

-- The globals, the background processes of `main`, and the calls made so far. `none` for
-- `fg_pid` is -1.
pub record ShellState : Type 0 where
  pub fg_pid : Option ℕ
  pub stop_execution : Bool
  pub parallel_pids : List ℕ
  pub background_pids : List ℕ
  pub forks : ℕ
  pub waits : ℕ
  pub prompts : ℕ
  pub log : List Action

-- A part of the shell goes on, calls `exit`, or accesses memory that is not there.
pub data Outcome : Type 0 where
  going exits crashes : ShellState → Outcome

abbrev pub and_then : Outcome → (ShellState → Outcome) → Outcome
and_then (going s) f = f s
and_then (exits s) f = exits s
and_then (crashes s) f = crashes s

abbrev pub say : Action → ShellState → ShellState
say a s = record s { log = s.log ++ a ∷ [] }

abbrev pub say_all : List Action → ShellState → ShellState
say_all more s = record s { log = s.log ++ more }

unfoldable pub handle_sigint : ShellState → ShellState
handle_sigint s = elim s.fg_pid [
  | some pid ↦ record s { log = s.log ++ interrupt pid ∷ []; stop_execution = true }
  | none ↦ record s { log = s.log ++ map interrupt s.parallel_pids; stop_execution = true }
]

-- `waitpid`, with the signal handler if SIGINT comes meanwhile.
unfoldable pub wait_for : World → Fork → ShellState → ShellState
wait_for world pid s =
    let waiting = record s { log = s.log ++ wait pid ∷ []; waits = s.waits + 1 } in
    if world.interrupted s.waits then handle_sigint waiting else waiting

-- The loop of `terminate_background_processes`.
unfoldable pub terminate_background_processes : ShellState → ShellState
terminate_background_processes s = say_all (map terminate s.background_pids) s

-- The loop of `waitpid(-1, &status, WNOHANG)`. The pids stay in `background_pids`.
unfoldable pub reap_background_processes : World → ShellState → ShellState
reap_background_processes world s =
    say_all (replicate (world.finished s.prompts) announce) (record s { prompts = s.prompts + 1 })
