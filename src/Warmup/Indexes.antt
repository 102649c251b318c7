-- ===== src/Warmup/Indexes.antt =====
-- pthreads-sync-code/warmup_ex/ex2.c: `main` puts the index of each new thread into a cell of its own, and the thread
-- prints the cell and frees it.
pub mod Invariant
pub mod Once
use os333_iit_bombay_labs.Prelude.{
  ℕ, zero, suc, ◌+◌, Bool, true, false, Option, none, some, List, [], ◌∷◌, ◌++◌, length, get_or,
  set, ltb, if◌then◌else◌, ◌>>=◌,
}

abbrev pub num_threads : ℕ
num_threads = 10

-- A thread that is not created yet, or is before its `printf`, before its `free`, or behind it.
pub data Place : Type 0 where
  absent at_print at_free returned : Place

-- The cells that `malloc` has given, `none` for a freed one, and the threads; the thread `i` has the cell `i`.
pub record Indexes : Type 0 where
  pub heap : List (Option ℕ)
  pub threads : List Place
  pub printed : List ℕ

unfoldable pub start : Indexes
start = record { heap = []; threads = []; printed = [] }

-- One round of the first loop of `main`.
unfoldable pub create : Indexes → Indexes
create s =
    let index = length s.threads in
    if ltb index num_threads
    then record s { heap = s.heap ++ some index ∷ []; threads = s.threads ++ at_print ∷ [] }
    else s

-- The next move of a thread: it prints its cell, or frees it. `none` reads or frees what it must not.
unfoldable pub routine : Place → ℕ → Indexes → Option Indexes
routine absent i s = some s
routine at_print i s = get_or s.heap i none >>= λ index.
    some (record s { threads = set s.threads i at_free; printed = s.printed ++ index ∷ [] })
routine at_free i s = get_or s.heap i none >>= λ index.
    some (record s { heap = set s.heap i none; threads = set s.threads i returned })
routine returned i s = some s

-- The moves of `main`, `none`, and of the threads.
unfoldable pub step : Option ℕ → Indexes → Option Indexes
step none s = some (create s)
step (some i) s = routine (get_or s.threads i absent) i s

unfoldable pub run : List (Option ℕ) → Indexes → Option Indexes
run [] s = some s
run (move ∷ schedule) s = step move s >>= λ s'. run schedule s'

-- Whether all the threads have been created and `pthread_join` has come back for each.
unfoldable pub all_joined : List Place → Bool
all_joined [] = true
all_joined (returned ∷ threads) = all_joined threads
all_joined (absent ∷ threads) = false
all_joined (at_print ∷ threads) = false
all_joined (at_free ∷ threads) = false
