-- ===== src/Warmup/Counter.antt =====
-- pthreads-sync-code/warmup_ex/ex1.c. `global++` is a read and a write, so a thread has five places in its loop, and
-- another thread may run between any two of them.
pub mod Increments
pub mod Totals
pub mod Complete
use os333_iit_bombay_labs.Prelude.{
  ℕ, zero, suc, ◌+◌, Bool, true, false, Option, none, some, List, [], ◌∷◌, get_or, set, replicate,
  ltb, if◌then◌else◌,
}

abbrev pub num_threads : ℕ
num_threads = 10

abbrev pub iterations : ℕ
iterations = 100000

-- Before `pthread_mutex_lock`, before the read of `global`, before the write of its successor, before
-- `pthread_mutex_unlock`, and behind the loop.
pub data Place : Type 0 where
  at_lock at_read : Place
  at_write : ℕ → Place
  at_unlock returned : Place

-- A thread, and how many rounds of the loop it has ended.
pub record Worker : Type 0 where
  pub place : Place
  pub rounds : ℕ

pub record Counter : Type 0 where
  pub global : ℕ
  pub mutex_free : Bool
  pub workers : List Worker

abbrev pub gone : Worker
gone = record { place = returned; rounds = iterations }

-- The threads have been created.
unfoldable pub start : Counter
start = record {
  global = 0;
  mutex_free = true;
  workers = replicate num_threads (record { place = at_lock; rounds = 0 });
}

-- The next move of the thread `i` in its loop. At a mutex that is taken it waits.
unfoldable pub increment_func : Place → ℕ → ℕ → Counter → Counter
increment_func at_lock rounds i s =
    if s.mutex_free
    then record s {
      mutex_free = false;
      workers = set s.workers i (record { place = at_read; rounds = rounds });
    }
    else s
increment_func at_read rounds i s = record s {
  workers = set s.workers i (record { place = at_write s.global; rounds = rounds });
}
increment_func (at_write read) rounds i s = record s {
  global = read + 1;
  workers = set s.workers i (record { place = at_unlock; rounds = rounds });
}
increment_func at_unlock rounds i s = record s {
  mutex_free = true;
  workers = set s.workers i (record {
    place = if ltb (rounds + 1) iterations then at_lock else returned;
    rounds = rounds + 1;
  });
}
increment_func returned rounds i s = s

unfoldable pub step : ℕ → Counter → Counter
step i s = let w = get_or s.workers i gone in increment_func w.place w.rounds i s

unfoldable pub run : List ℕ → Counter → Counter
run [] s = s
run (i ∷ schedule) s = run schedule (step i s)

-- Whether `pthread_join` has come back for every thread, and the number that `main` prints then.
unfoldable pub all_joined : List Worker → Bool
all_joined [] = true
all_joined (w ∷ workers) =
    let others = all_joined workers in elim w.place [ returned ↦ others | _ ↦ false ]

unfoldable pub final_value : Counter → Option ℕ
final_value s = if all_joined s.workers then some s.global else none
