-- ===== src/Shell/Serial.antt =====
-- `serial_process` of shell-code/my_shell.c: commands joined by "&&" run one after another.
use mathlib.Core.List.{append_assoc, append-nil}
use os333_iit_bombay_labs.Prelude.{
  ℕ, ◌+◌, ◌≡◌, refl, sym, ap, ◌∙◌, inl, inr, Bool, true, false, Option, none, some, List, [], ◌∷◌,
  ◌++◌, All, Bool-cases,
}
use os333_iit_bombay_labs.Prelude.Text.{Text, codes}
use os333_iit_bombay_labs.Shell.State.{
  Fork, failed, child, World, Action, complain, exits, crashes, say, run, wait, interrupt,
  ShellState, Outcome, going, and_then, handle_sigint, wait_for,
}
use os333_iit_bombay_labs.Shell.Commands.{serial_mark, run_and_wait, serial_process}
use os333_iit_bombay_labs.Shell.Loop.{
  joined_by, IsCommand, run_in_turn, loop_in_turn, in_turn, stopped_in_turn,
}

-- A list of commands joined by "&&" is executed as the commands in turn.
in_turns :
    (world : World) (cs : List (List Text)) (s : ShellState)
    → All (IsCommand serial_mark) cs
    → serial_process world (joined_by serial_mark cs) s ≡ run_in_turn (run_and_wait world) cs s
unfolding serial_process
in_turns world cs s h = loop_in_turn serial_mark (run_and_wait world) cs s h

interrupted_turn :
    (world : World) (c : List Text) (cs : List (List Text)) (s : ShellState) (pid : ℕ)
    → s.stop_execution ≡ false
    → world.fork s.forks ≡ child pid
    → world.interrupted s.waits ≡ true
    → run_in_turn (run_and_wait world) (c ∷ cs) s
      ≡ going (record s {
        fg_pid = none;
        stop_execution = true;
        forks = s.forks + 1;
        waits = s.waits + 1;
        log = s.log ++ run pid c ∷ wait (child pid) ∷ interrupt pid ∷ [];
      })
unfolding run_and_wait wait_for handle_sigint
interrupted_turn world c cs s pid on forked sigint =
    in_turn (run_and_wait world) c cs s on
    ∙ ap (λ (o : Outcome). and_then o (λ s'. run_in_turn (run_and_wait world) cs s')) ended
    ∙ stopped_in_turn (run_and_wait world) cs after refl
  where
    after : ShellState
    after = record s {
      fg_pid = none;
      stop_execution = true;
      forks = s.forks + 1;
      waits = s.waits + 1;
      log = s.log ++ run pid c ∷ wait (child pid) ∷ interrupt pid ∷ [];
    }

    ended : run_and_wait world c s ≡ going after
    ended = rw (forked, run_and_wait, sigint, wait_for) (simp append_assoc)

-- SIGINT during a command of a serial line kills that command, and no later one is started.
pub serial_interrupted :
    (world : World) (c : List Text) (cs : List (List Text)) (s : ShellState) (pid : ℕ)
    → All (IsCommand serial_mark) (c ∷ cs)
    → s.stop_execution ≡ false
    → world.fork s.forks ≡ child pid
    → world.interrupted s.waits ≡ true
    → serial_process world (joined_by serial_mark (c ∷ cs)) s
      ≡ going (record s {
        fg_pid = none;
        stop_execution = true;
        forks = s.forks + 1;
        waits = s.waits + 1;
        log = s.log ++ run pid c ∷ wait (child pid) ∷ interrupt pid ∷ [];
      })
serial_interrupted world c cs s pid h on forked sigint =
    in_turns world (c ∷ cs) s h ∙ interrupted_turn world c cs s pid on forked sigint

-- What the shell does for one command, given the `fork`, whether SIGINT comes, and what it does for the other commands, and
-- whether it goes on.
abbrev pub one_turn : Fork → Bool → List Text → List Action × Bool → List Action × Bool
one_turn failed sigint c rest = (complain (codes "fork failed") ∷ [], false)
one_turn (child pid) true c rest = (run pid c ∷ wait (child pid) ∷ interrupt pid ∷ [], true)
one_turn (child pid) false c rest = (run pid c ∷ wait (child pid) ∷ rest.0, rest.1)

-- Commands one after the other, from the n-th `fork` and the w-th `waitpid` on.
abbrev pub one_by_one : World → ℕ → ℕ → List (List Text) → List Action × Bool
one_by_one world n w [] = ([], true)
one_by_one world n w (c ∷ cs) =
    one_turn (world.fork n) (world.interrupted w) c (one_by_one world (n + 1) (w + 1) cs)

-- The calls that have been made, and whether the shell goes on; `none` is a crash.
abbrev pub seen : Outcome → Option (List Action × Bool)
seen (going s) = some (s.log, true)
seen (exits s) = some (s.log, false)
seen (crashes s) = none

abbrev pub behind : List Action → List Action × Bool → Option (List Action × Bool)
behind log r = some (log ++ r.0, r.1)

module _ (world : World) where
  -- The state behind a command that nobody interrupts.
  abbrev waited : ℕ → List Text → ShellState → ShellState
  waited pid c s = record s {
    fg_pid = none;
    forks = s.forks + 1;
    waits = s.waits + 1;
    log = (s.log ++ run pid c ∷ []) ++ wait (child pid) ∷ [];
  }

  undisturbed :
      (c : List Text) (s : ShellState) (pid : ℕ)
      → world.fork s.forks ≡ child pid
      → world.interrupted s.waits ≡ false
      → run_and_wait world c s ≡ going (waited pid c s)
  unfolding run_and_wait wait_for
  undisturbed c s pid forked quiet = rw (forked, run_and_wait, quiet, wait_for) refl

  not_forked :
      (c : List Text) (s : ShellState)
      → world.fork s.forks ≡ failed
      → run_and_wait world c s ≡ exits (say (complain (codes "fork failed")) s)
  unfolding run_and_wait
  not_forked c s e = rw (e, run_and_wait) refl

  turns_seen :
      (cs : List (List Text)) (s : ShellState)
      → s.stop_execution ≡ false
      → All (IsCommand serial_mark) cs
      → seen (run_in_turn (run_and_wait world) cs s)
        ≡ behind s.log (one_by_one world s.forks s.waits cs)
  unfolding run_in_turn
  turns_seen [] s on h = ap (λ (l : List Action). some (l, true)) (sym (append-nil s.log))
  turns_seen (c ∷ cs) s on h =
      forked (world.fork s.forks) refl (λ pid. turns_seen cs (waited pid c s) on h.1)
    where
      others : List Action × Bool
      others = one_by_one world (s.forks + 1) (s.waits + 1) cs

      onward : Outcome → Outcome
      onward o = and_then o (λ s'. run_in_turn (run_and_wait world) cs s')

      forked :
          (f : Fork)
          → world.fork s.forks ≡ f
          → ((pid : ℕ)
              → seen (run_in_turn (run_and_wait world) cs (waited pid c s))
                ≡ behind (waited pid c s).log (one_by_one world (s.forks + 1) (s.waits + 1) cs))
          → seen (run_in_turn (run_and_wait world) (c ∷ cs) s)
            ≡ behind s.log (one_by_one world s.forks s.waits (c ∷ cs))
      forked failed e rest =
          ap seen (in_turn (run_and_wait world) c cs s on ∙ ap onward (not_forked c s e))
          ∙ ap (λ f. behind s.log (one_turn f (world.interrupted s.waits) c others)) (sym e)
      forked (child pid) e rest = elim (Bool-cases (world.interrupted s.waits)) [
        | inl sigint ↦ ap seen (interrupted_turn world c cs s pid on e sigint) ∙ λ i.
            behind s.log (one_turn (sym e i) (sym sigint i) c others)
        | inr quiet ↦
            ap seen
              (in_turn (run_and_wait world) c cs s on ∙ ap onward (undisturbed c s pid e quiet))
            ∙ rest pid
            ∙ ap (λ l. some (l, others.1))
                (append_assoc (s.log ++ run pid c ∷ []) (wait (child pid) ∷ []) others.0
                  ∙ append_assoc s.log (run pid c ∷ []) (wait (child pid) ∷ others.0))
            ∙ λ i. behind s.log (one_turn (sym e i) (sym quiet i) c others)
      ]

-- For commands joined by "&&", where `stop_execution` is 0, whatever the forks and the signals do, `serial_process` adds
-- to the calls that have been made these and no other: each command is started and waited for before the next one is
-- started, up to a SIGINT, which goes to the process that is waited for, or a failed `fork`, at which the shell exits.
pub serial_process-one_by_one :
    (world : World) (cs : List (List Text)) (s : ShellState)
    → All (IsCommand serial_mark) cs
    → s.stop_execution ≡ false
    → seen (serial_process world (joined_by serial_mark cs) s)
      ≡ behind s.log (one_by_one world s.forks s.waits cs)
serial_process-one_by_one world cs s h on =
    ap seen (in_turns world cs s h) ∙ turns_seen world cs s on h
