-- ===== src/Turns.antt =====
-- pthreads-sync-code/warmup_ex/ex3.c and ex4.c: threads that print their index in turn. In ex4.c this is
-- done ten times, each time with new threads and `turn` set back. A wait ends by `pthread_cond_broadcast`, and never without
-- it.
pub mod Order
use os333_iit_bombay_labs.Prelude.{
  ℕ, zero, suc, ◌+◌, ◌≤◌, ◌<◌, ◌≡◌, refl, sym, ◌∙◌, ap, ◌≢◌, inl, inr, Bool, true, false, ◌&&◌,
  Option, none, some, List, [], ◌∷◌, ◌++◌, length, get_or, set, map, replicate, ltb, ◌==◌,
  if◌then◌else◌, arith, Bool-cases, length-set, length-replicate, get_or-set, get_or-replicate,
  get_or_beyond,
}
use os333_iit_bombay_labs.Threads.{Phase, at_lock, in_wait, returned}

abbrev pub num_threads : ℕ
num_threads = 10

-- `turn`, what has been printed, and where the threads are.
pub record Turns : Type 0 where
  pub turn : ℕ
  pub printed : List ℕ
  pub threads : List Phase

-- `turn` is 0 and the threads have been created.
unfoldable pub start : Turns
start = record { turn = 0; printed = []; threads = replicate num_threads at_lock }

-- `pthread_cond_broadcast`: every thread that waits goes back to the lock.
abbrev pub awakened : Phase → Phase
awakened at_lock = at_lock
awakened in_wait = at_lock
awakened returned = returned

unfoldable pub broadcast : List Phase → List Phase
broadcast threads = map awakened threads

-- The `while` of a thread, with its test, and what follows it.
unfoldable pub take_turn : ℕ → Turns → Turns
take_turn index s =
    if index == s.turn
    then record {
      turn = s.turn + 1;
      printed = s.printed ++ index ∷ [];
      threads = broadcast (set s.threads index returned);
    }
    else record s { threads = set s.threads index in_wait }

-- The next critical section of the thread with this index. One that waits has none before a broadcast.
unfoldable pub routine : ℕ → Turns → Turns
routine index s = elim (get_or s.threads index returned) [
  | at_lock ↦ take_turn index s
  | in_wait ↦ s
  | returned ↦ s
]

unfoldable pub run : List ℕ → Turns → Turns
run [] s = s
run (index ∷ schedule) s = run schedule (routine index s)

-- Whether `pthread_join` has come back for every thread.
unfoldable pub all_joined : List Phase → Bool
all_joined [] = true
all_joined (returned ∷ threads) = all_joined threads
all_joined (at_lock ∷ threads) = false
all_joined (in_wait ∷ threads) = false

-- The rounds of ex4.c under one schedule each. `none` is a round that has not ended with its schedule.
unfoldable pub rounds : List (List ℕ) → Option (List (List ℕ))
rounds [] = some []
rounds (schedule ∷ schedules) =
    let s = run schedule start in
    let rest : Option (List (List ℕ)) = elim (rounds schedules) [
      | none ↦ none
      | some lines ↦ some (s.printed ∷ lines)
    ] in
    if all_joined s.threads then rest else none

-- 0 to n - 1.
abbrev pub up_to : ℕ → List ℕ
up_to zero = []
up_to (suc n) = up_to n ++ n ∷ []
