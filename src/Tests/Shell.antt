-- ===== src/Tests/Shell.antt =====
-- Runs of shell-code/my_shell.c.
use os333_iit_bombay_labs.Prelude.{
  if◌then◌else◌, ℕ, zero, suc, ◌+◌, ◌<◌, ◌≡◌, refl, true, false, none, some, List, [], ◌∷◌, ◌++◌,
  length, replicate, ◌==◌, arith, All,
}
use os333_iit_bombay_labs.Prelude.Text.{Text, codes, text_eq}
use os333_iit_bombay_labs.Shell.Tokenize.{
  max_num_tokens, end_token, add_char, scan_char, scan_line, tokenize,
}
use os333_iit_bombay_labs.Shell.Tokenize.Laws.{
  IsLetter, IsWord, IsLine, letters, joined, tokenize-line_of, tokenize_overflow,
}
use os333_iit_bombay_labs.Shell.Tokenize.Sound.{tokenize_sound}
use os333_iit_bombay_labs.Shell.State.{
  announce, reap_background_processes, child, World, Action, run, run_writer, run_reader, wait,
  interrupt, terminate, ShellState, Outcome, going, exits, crashes, handle_sigint, wait_for,
  terminate_background_processes,
}
use os333_iit_bombay_labs.Shell.Commands.{
  serial_mark, parallel_mark, run_and_wait, command_loop, serial_process, run_beside, wait_all,
  parallel_process, split_pipe, execute_pipe, forground_process, background_process, has_token,
  strip_background, execute, run_tokens, run_line, main_loop,
}
use os333_iit_bombay_labs.Shell.Loop.{joined_by, IsCommand}
use os333_iit_bombay_labs.Shell.Serial.{seen, serial_process-one_by_one, serial_interrupted}
use os333_iit_bombay_labs.Shell.Parallel.{
  parallel_process_lem, crashed, parallel_lines, parallel_lines_crash,
}
use os333_iit_bombay_labs.Shell.Bounds.{IsBounded, IsPlain, Keeps, main_loop-Keeps}
use os333_iit_bombay_labs.Shell.State.{failed}
use os333_iit_bombay_labs.Shell.Release.{
  null_marks, freed, frees_behind, round_frees, serial_frees_first,
}
use os333_iit_bombay_labs.Shell.Rounds.{run_line_long_word}

program : Unit {0}
unfolding text_eq end_token add_char scan_char scan_line tokenize handle_sigint wait_for
    terminate_background_processes run_and_wait command_loop serial_process run_beside wait_all
    parallel_process split_pipe execute_pipe forground_process background_process has_token
    strip_background execute run_tokens run_line main_loop reap_background_processes letters
program = tt

-- Every fork succeeds, and SIGINT comes never, or at the first `waitpid`.
abbrev pid_of : ℕ → ℕ
pid_of n = 100 + n

abbrev quiet : World
quiet = record {
  fork = λ n. child (100 + n);
  interrupted = λ n. false;
  piped = λ n. true;
  finished = λ n. if n == 3 then 1 else 0;
}

abbrev noisy : World
noisy = record {
  fork = λ n. child (100 + n);
  interrupted = λ n. n == 0;
  piped = λ n. true;
  finished = λ n. 0;
}

abbrev at_start : ShellState
at_start = record {
  fg_pid = none;
  stop_execution = false;
  parallel_pids = [];
  background_pids = [];
  forks = 0;
  waits = 0;
  prompts = 0;
  log = [];
}

abbrev ls : List Text
ls = codes "ls" ∷ codes "-l" ∷ []

abbrev echo : List Text
echo = codes "echo" ∷ codes "hi" ∷ []

abbrev logged : Outcome → List Action
logged (going s) = s.log
logged (exits s) = s.log
logged (crashes s) = s.log

main_loop-run :
    logged (
      main_loop quiet
        (codes "ls -l | wc"
          ∷ codes "sleep 9 &"
          ∷ codes "echo && ls"
          ∷ codes "exit"
          ∷ codes "ls"
          ∷ [])
        at_start)
    ≡ run_writer (child 100) ls
      ∷ run_reader (child 101) (codes "wc" ∷ [])
      ∷ wait (child 100)
      ∷ wait (child 101)
      ∷ run 102 (codes "sleep" ∷ codes "9" ∷ [])
      ∷ run 103 (codes "echo" ∷ [])
      ∷ wait (child 103)
      ∷ run 104 (codes "ls" ∷ [])
      ∷ wait (child 104)
      ∷ announce
      ∷ terminate 102
      ∷ []
unfolding program
main_loop-run = refl

abbrev short_line : List (Text × Text)
short_line = (codes "ls", codes "  ") ∷ (codes "-l", codes " ") ∷ []

ls-IsLine : IsLine short_line
ls-IsLine = (
  (ground arith, ground arith, (refl, (refl, tt))),
  ground arith,
  (refl, (refl, tt)),
  ((ground arith, ground arith, (refl, (refl, tt))), ground arith, (refl, tt), tt),
)

tokenize-line_of_example : tokenize (codes "  ls  -l ") ≡ some ls
tokenize-line_of_example =
    tokenize-line_of (codes "  ") short_line (refl, (refl, tt)) ls-IsLine (ground arith)

all_letters : (n : ℕ) → All IsLetter (replicate n b'a')
all_letters zero = tt
all_letters (suc n) = (refl, all_letters n)

abbrev long_word : Text
long_word = replicate 64 b'a'

tokenize_overflow_example : tokenize (codes "ls " ++ (long_word ++ b'\n' ∷ [])) ≡ none
tokenize_overflow_example =
    tokenize_overflow (codes "ls ") long_word b'\n' [] (all_letters 64) refl (ground arith)

tokens_of_run : tokenize (codes "ls -l" ++ b'\n' ∷ []) ≡ some ls
unfolding program
tokens_of_run = refl

tokenize_sound_example :
    All IsWord ls × (length ls < max_num_tokens) × (joined ls ≡ letters (codes "ls -l"))
tokenize_sound_example = tokenize_sound (codes "ls -l") b'\n' ls refl tokens_of_run

no_serial_mark : All (IsCommand serial_mark) (ls ∷ echo ∷ [])
unfolding text_eq
no_serial_mark = ((ground arith, (refl, (refl, tt))), ((ground arith, (refl, (refl, tt))), tt))

no_parallel_mark : All (IsCommand parallel_mark) (ls ∷ echo ∷ [])
unfolding text_eq
no_parallel_mark = ((ground arith, (refl, (refl, tt))), ((ground arith, (refl, (refl, tt))), tt))

single_commands : All (All (IsCommand parallel_mark)) ((ls ∷ []) ∷ (echo ∷ []) ∷ [])
single_commands = ((no_parallel_mark.0, tt), (no_parallel_mark.1, tt))

-- The second command is not reached where SIGINT comes during the first.
serial_process-one_by_one_example :
    seen (serial_process noisy (joined_by serial_mark (ls ∷ echo ∷ [])) at_start)
    ≡ some (run 100 ls ∷ wait (child 100) ∷ interrupt 100 ∷ [], true)
serial_process-one_by_one_example =
    serial_process-one_by_one noisy (ls ∷ echo ∷ []) at_start no_serial_mark refl

serial_interrupted_example :
    serial_process noisy (joined_by serial_mark (ls ∷ echo ∷ [])) at_start
    ≡ going (record at_start {
      stop_execution = true;
      forks = 1;
      waits = 1;
      log = run 100 ls ∷ wait (child 100) ∷ interrupt 100 ∷ [];
    })
serial_interrupted_example =
    serial_interrupted noisy ls (echo ∷ []) at_start 100 no_serial_mark refl refl refl

parallel_process_lem_example :
    parallel_process quiet (joined_by parallel_mark (ls ∷ echo ∷ [])) at_start
    ≡ going (record at_start {
      parallel_pids = 100 ∷ 101 ∷ [];
      forks = 2;
      waits = 2;
      log = run 100 ls ∷ run 101 echo ∷ wait (child 100) ∷ wait (child 101) ∷ [];
    })
parallel_process_lem_example =
    parallel_process_lem quiet pid_of (λ n. refl) (λ n. refl) (ls ∷ echo ∷ []) at_start
      no_parallel_mark refl (ground arith)

-- 63 commands have been started in parallel before.
abbrev nearly_full : ShellState
nearly_full = record at_start { parallel_pids = replicate 63 99 }

parallel_lines_crash_example :
    crashed (parallel_lines quiet ((ls ∷ []) ∷ (echo ∷ []) ∷ []) nearly_full) ≡ true
parallel_lines_crash_example =
    parallel_lines_crash quiet pid_of (λ n. refl) (λ n. refl) ((ls ∷ []) ∷ (echo ∷ []) ∷ [])
      nearly_full single_commands refl (ground arith)

at_start-IsBounded : IsBounded at_start
at_start-IsBounded = record { background = ground arith; idle = refl }

two_lines-IsPlain : All IsPlain (codes "ls -l" ∷ codes "echo hi &" ∷ [])
unfolding program
two_lines-IsPlain = (
  (ground arith, (ls, refl, ground arith, refl)),
  ((ground arith, (echo ++ codes "&" ∷ [], refl, ground arith, refl)), tt),
)

main_loop-Keeps_example : Keeps (main_loop quiet (codes "ls -l" ∷ codes "echo hi &" ∷ []) at_start)
main_loop-Keeps_example =
    main_loop-Keeps quiet (codes "ls -l" ∷ codes "echo hi &" ∷ []) at_start two_lines-IsPlain
      at_start-IsBounded

run_line_long_word_example : run_line quiet (codes "ls " ++ long_word) at_start ≡ crashes at_start
run_line_long_word_example =
    run_line_long_word quiet (codes "ls ") long_word at_start (all_letters 64) (ground arith)

in_front :
    strip_background (joined_by serial_mark (ls ∷ echo ∷ []))
    ≡ (joined_by serial_mark (ls ∷ echo ∷ []), false)
unfolding strip_background text_eq
in_front = refl

abbrev state_of : Outcome → ShellState
state_of (going s) = s
state_of (exits s) = s
state_of (crashes s) = s

abbrev behind_two : ShellState
behind_two = state_of (run_tokens quiet (joined_by serial_mark (ls ∷ echo ∷ [])) at_start)

two-going : run_tokens quiet (joined_by serial_mark (ls ∷ echo ∷ [])) at_start ≡ going behind_two
unfolding program
two-going = refl

abbrev no_fork : World
no_fork = record quiet { fork = λ n. failed }

-- Where the first fork fails the shell exits, and frees nothing.
none_freed : round_frees no_fork (joined_by serial_mark (ls ∷ echo ∷ [])) at_start ≡ []
unfolding program round_frees frees_behind null_marks freed
none_freed = refl

serial_frees_first_example :
    round_frees quiet (joined_by serial_mark (ls ∷ echo ∷ [])) at_start ≡ ls
unfolding text_eq
serial_frees_first_example =
    serial_frees_first quiet (codes "ls") (codes "-l" ∷ []) echo [] at_start behind_two
      no_serial_mark refl in_front two-going
