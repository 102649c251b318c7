-- ===== src/Tests/Warmup.antt =====
-- Schedules of pthreads-sync-code/warmup_ex/ex1.c and ex2.c.
use os333_iit_bombay_labs.Prelude.{
  ℕ, ◌≤◌, ◌≡◌, refl, true, Option, some, none, List, [], ◌∷◌, ◌++◌, map, if◌then◌else◌, get_or,
  replicate,
}
use os333_iit_bombay_labs.Threads.{tally, occurs}
use os333_iit_bombay_labs.Turns.{up_to}
use os333_iit_bombay_labs.Warmup.Counter.{start, increment_func, step, run, all_joined, final_value}
use os333_iit_bombay_labs.Warmup.Counter.Increments.{holds, made}
use os333_iit_bombay_labs.Warmup.Counter.Totals.{increments_kept}
use os333_iit_bombay_labs.Warmup.Counter.Complete.{closing, all_join}
use os333_iit_bombay_labs.Warmup.Indexes.{Indexes, create, routine}
use os333_iit_bombay_labs.Warmup.Indexes as Ten
use os333_iit_bombay_labs.Warmup.Indexes.Once.{each_once}

-- Thread 0 reads `global`, thread 1 finds the mutex taken, thread 0 writes, and only then thread 1 reads.
abbrev race : List ℕ
race = 0 ∷ 0 ∷ 1 ∷ 0 ∷ 1 ∷ 0 ∷ 1 ∷ 1 ∷ 1 ∷ []

race-run : (run race start).global ≡ 2
unfolding start increment_func step run
race-run = refl

increments_kept_example :
    (tally holds (run race start).workers ≤ 1)
    × ((run race start).global ≡ tally made (run race start).workers)
    × ((run race start).global ≤ 1000000)
    × (final_value (run race start)
        ≡ (if all_joined (run race start).workers then some 1000000 else none))
increments_kept_example = increments_kept race

all_join_example :
    (all_joined (run (race ++ closing) start).workers ≡ true)
    × (final_value (run (race ++ closing) start) ≡ some 1000000)
all_join_example = all_join race

-- All threads are created, print, and free their cells, the first of them while `main` creates the others.
abbrev all_moves : List (Option ℕ)
all_moves = none ∷ some 0 ∷ replicate 9 none ++ some 0 ∷ map some (up_to 10) ++ map some (up_to 10)

abbrev finished : Indexes
finished = record {
  heap = replicate 10 none;
  threads = replicate 10 Ten.returned;
  printed = up_to 10;
}

all_moves-run : Ten.run all_moves Ten.start ≡ some finished
unfolding Ten.start create routine Ten.step Ten.run
all_moves-run = refl

all_moves-joined : Ten.all_joined finished.threads ≡ true
unfolding Ten.all_joined
all_moves-joined = refl

each_once_example : (occurs 3 (up_to 10) ≡ 1) × (get_or finished.heap 3 none ≡ none)
each_once_example = each_once all_moves finished all_moves-run refl all_moves-joined 3
