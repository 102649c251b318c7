-- ===== src/Shell/Parallel.antt =====
-- `parallel_process` of shell-code/my_shell.c: all commands are started before the first wait.
use mathlib.Core.List.{append-nil, append_assoc}
use os333_iit_bombay_labs.Prelude.{
  ℕ, suc, refl, Bool, dec_lt, ◌+◌, ◌≤◌, ◌<◌, ◌≡◌, sym, ap, ◌∙◌, true, false, List, [], ◌∷◌, ◌++◌,
  map, length, ltb, arith, length-append, All,
}
use os333_iit_bombay_labs.Prelude.Text.{Text}
use os333_iit_bombay_labs.Shell.State.{
  child, World, Action, run, wait, ShellState, Outcome, going, exits, crashes, and_then, wait_for,
}
use os333_iit_bombay_labs.Shell.Commands.{parallel_mark, run_beside, wait_all, parallel_process}
use os333_iit_bombay_labs.Shell.Tokenize.{max_num_tokens}
use os333_iit_bombay_labs.Shell.Loop.{joined_by, IsCommand, run_in_turn, loop_in_turn, in_turn}

-- The commands with the pids that the forks from the n-th on give them.
abbrev pub started : (ℕ → ℕ) → ℕ → List (List Text) → List Action
started pid n [] = []
started pid n (c ∷ cs) = run (pid n) c ∷ started pid (n + 1) cs

abbrev pub pids_of : (ℕ → ℕ) → ℕ → List (List Text) → List ℕ
pids_of pid n [] = []
pids_of pid n (c ∷ cs) = pid n ∷ pids_of pid (n + 1) cs

abbrev pub waits_for : List ℕ → List Action
waits_for = map (λ p. wait (child p))

-- Lines of parallel commands, one after the other, as the main loop executes them.
abbrev pub parallel_lines : World → List (List (List Text)) → ShellState → Outcome
parallel_lines world [] s = going s
parallel_lines world (cs ∷ lines) s =
    and_then (parallel_process world (joined_by parallel_mark cs) s)
      (λ s'. parallel_lines world lines s')

abbrev pub total : List (List (List Text)) → ℕ
total [] = 0
total (cs ∷ lines) = length cs + total lines

abbrev pub crashed : Outcome → Bool
crashed (going s) = false
crashed (exits s) = false
crashed (crashes s) = true

module _ (world : World) (pid : ℕ → ℕ) (forked : (n : ℕ) → world.fork n ≡ child (pid n)) where
  length-pids_of : (n : ℕ) (cs : List (List Text)) → length (pids_of pid n cs) ≡ length cs
  length-pids_of n [] = refl
  length-pids_of n (c ∷ cs) = ap suc (length-pids_of (n + 1) cs)

  -- The state after the commands have been started from `s`.
  abbrev all_started : List (List Text) → ShellState → ShellState
  all_started cs s = record s {
    parallel_pids = s.parallel_pids ++ pids_of pid s.forks cs;
    forks = s.forks + length cs;
    log = s.log ++ started pid s.forks cs;
  }

  run_beside_lem :
      (c : List Text) (s : ShellState)
      → length s.parallel_pids < max_num_tokens
      → run_beside world c s
        ≡ going (record s {
          parallel_pids = s.parallel_pids ++ pid s.forks ∷ [];
          forks = s.forks + 1;
          log = s.log ++ run (pid s.forks) c ∷ [];
        })
  unfolding run_beside
  run_beside_lem c s room =
      let fits : ltb (length s.parallel_pids) max_num_tokens ≡ true = ground arith in
      rw (forked s.forks, run_beside, fits)

  state_eq :
      (s : ShellState) {p q : List ℕ} {m n : ℕ} {k l : List Action}
      → p ≡ q
      → m ≡ n
      → k ≡ l
      → going (record s { parallel_pids = p; forks = m; log = k })
        ≡ going (record s { parallel_pids = q; forks = n; log = l })
  state_eq s e f g = λ i. going (record s { parallel_pids = e i; forks = f i; log = g i })

  start_all :
      (cs : List (List Text)) (s : ShellState)
      → s.stop_execution ≡ false
      → length s.parallel_pids + length cs ≤ max_num_tokens
      → run_in_turn (run_beside world) cs s ≡ going (all_started cs s)
  unfolding run_in_turn
  start_all [] s on room =
      state_eq s (sym (append-nil s.parallel_pids)) (omega arith) (sym (append-nil s.log))
  start_all (c ∷ cs) s on room =
      in_turn (run_beside world) c cs s on
      ∙ ap (λ (o : Outcome). and_then o (λ s'. run_in_turn (run_beside world) cs s'))
          (run_beside_lem c s (omega arith))
      ∙ start_all cs (all_started (c ∷ []) s) on
          (omega (arith, length-append s.parallel_pids (pid s.forks ∷ [])))
      ∙ state_eq s (append_assoc s.parallel_pids _ _) (omega arith) (append_assoc s.log _ _)

  waits_eq :
      (s : ShellState) {m n : ℕ} {k l : List Action}
      → m ≡ n
      → k ≡ l
      → ◌≡◌ {A = ShellState} (record s { waits = m; log = k }) (record s { waits = n; log = l })
  waits_eq s f g = λ i. record s { waits = f i; log = g i }

  wait_all_lem :
      (quiet : (n : ℕ) → world.interrupted n ≡ false)
      → (pids : List ℕ) (s : ShellState)
      → wait_all world pids s
        ≡ record s { waits = s.waits + length pids; log = s.log ++ waits_for pids }
  unfolding wait_all wait_for
  wait_all_lem quiet [] s = waits_eq s (omega arith) (sym (append-nil s.log))
  wait_all_lem quiet (p ∷ pids) s =
      ap (wait_all world pids) one
      ∙ wait_all_lem quiet pids
          (record s { waits = s.waits + 1; log = s.log ++ wait (child p) ∷ [] })
      ∙ waits_eq s (omega arith) (append_assoc s.log _ _)
    where
      one :
          wait_for world (child p) s
          ≡ record s { waits = s.waits + 1; log = s.log ++ wait (child p) ∷ [] }
      one = rw (quiet s.waits)

  -- With forks that succeed and no SIGINT, where `stop_execution` is 0, and the commands and the pids of earlier lines are
  -- at most 64 together: every command joined by "&&&" is started before the first wait, and then the shell waits for every
  -- pid in `parallel_pids`, those of earlier lines first; these stay there.
  pub parallel_process_lem :
      (quiet : (n : ℕ) → world.interrupted n ≡ false)
      → (cs : List (List Text)) (s : ShellState) → All (IsCommand parallel_mark) cs
      → s.stop_execution ≡ false
      → length s.parallel_pids + length cs ≤ max_num_tokens
      → parallel_process world (joined_by parallel_mark cs) s
        ≡ going (record s {
          parallel_pids = s.parallel_pids ++ pids_of pid s.forks cs;
          forks = s.forks + length cs;
          waits = s.waits + length (s.parallel_pids ++ pids_of pid s.forks cs);
          log =
              (s.log ++ started pid s.forks cs)
              ++ waits_for (s.parallel_pids ++ pids_of pid s.forks cs);
        })
  unfolding parallel_process
  parallel_process_lem quiet cs s h on room =
      rw (loop_in_turn parallel_mark (run_beside world) cs s h, start_all cs s on room)
        (ap going
          (wait_all_lem quiet (s.parallel_pids ++ pids_of pid s.forks cs) (all_started cs s)))

  run_beside-over :
      (c : List Text) (s : ShellState)
      → max_num_tokens ≤ length s.parallel_pids
      → (s' : ShellState) × (run_beside world c s ≡ crashes s')
  unfolding run_beside
  run_beside-over c s full =
      let over : ltb (length s.parallel_pids) max_num_tokens ≡ false = ground arith in
      (
        record s { log = s.log ++ run (pid s.forks) c ∷ []; forks = s.forks + 1 },
        rw (forked s.forks, run_beside, over),
      )

  -- One command too many is reached.
  start_over :
      (cs : List (List Text)) (s : ShellState)
      → s.stop_execution ≡ false
      → length s.parallel_pids ≤ max_num_tokens
      → max_num_tokens < length s.parallel_pids + length cs
      → (s' : ShellState) × (run_in_turn (run_beside world) cs s ≡ crashes s')
  start_over [] s on room more = absurd (omega (arith, room, more))
  start_over (c ∷ cs) s on room more = elim (dec_lt (length s.parallel_pids) max_num_tokens) [
    | no full ↦
        let (s', e) = run_beside-over c s (omega (arith, full)) in
        (s', in_turn (run_beside world) c cs s on ∙ ap onward e)
    | yes fits ↦
        let size = length-append s.parallel_pids (pid s.forks ∷ []) in
        let (s', e) =
          start_over cs (all_started (c ∷ []) s) on (omega (arith, size, fits))
            (omega (arith, size, more)) in
        (s', in_turn (run_beside world) c cs s on ∙ ap onward (run_beside_lem c s fits) ∙ e)
  ]
    where
      onward : Outcome → Outcome
      onward o = and_then o (λ s'. run_in_turn (run_beside world) cs s')

  over-crashes :
      (cs : List (List Text)) (s : ShellState)
      → All (IsCommand parallel_mark) cs
      → s.stop_execution ≡ false
      → length s.parallel_pids ≤ max_num_tokens
      → max_num_tokens < length s.parallel_pids + length cs
      → (s' : ShellState) × (parallel_process world (joined_by parallel_mark cs) s ≡ crashes s')
  unfolding parallel_process
  over-crashes cs s h on room more =
      let (s', e) = start_over cs s on room more in
      (
        s',
        ap (λ (o : Outcome). and_then o (λ t. going (wait_all world t.parallel_pids t)))
            (loop_in_turn parallel_mark (run_beside world) cs s h ∙ e),
      )

  -- Whatever lines of parallel commands are executed, one after the other, where every fork succeeds, SIGINT does not come,
  -- `stop_execution` is 0 and at most 64 pids are noted before: the shell crashes exactly where the commands of the lines
  -- and the pids noted before are more than 64 together.
  pub parallel_lines_crash :
      (quiet : (n : ℕ) → world.interrupted n ≡ false)
      → (lines : List (List (List Text))) (s : ShellState)
      → All (All (IsCommand parallel_mark)) lines
      → s.stop_execution ≡ false
      → length s.parallel_pids ≤ max_num_tokens
      → crashed (parallel_lines world lines s)
        ≡ ltb max_num_tokens (length s.parallel_pids + total lines)
  parallel_lines_crash quiet [] s h on room = ground (arith, room)
  parallel_lines_crash quiet (cs ∷ lines) s h on room =
      elim (dec_lt max_num_tokens (length s.parallel_pids + length cs)) [
        | yes over ↦
            let (s', e) = over-crashes cs s h.0 on room over in
            ap (λ o. crashed (and_then o (λ t. parallel_lines world lines t))) e
            ∙ ground (arith, over)
        | no fits ↦
            let more = pids_of pid s.forks cs in
            let size = length-append s.parallel_pids more in
            let count = length-pids_of s.forks cs in
            let done = parallel_process_lem quiet cs s h.0 on (omega (arith, fits)) in
            ap (λ o. crashed (and_then o (λ t. parallel_lines world lines t))) done
            ∙ parallel_lines_crash quiet lines _ h.1 on (omega (arith, size, count, fits))
            ∙ ap (ltb max_num_tokens) (omega (arith, size, count))
      ]
