-- ===== src/Tests/Threads.antt =====
-- Interleavings of the programs of pthreads-sync-code.
use os333_iit_bombay_labs.Prelude.{
  ℕ, ◌+◌, ◌≤◌, ◌<◌, ◌≡◌, ◌⊎◌, refl, true, some, List, [], ◌∷◌, ◌++◌, take, ltb, if◌then◌else◌,
  arith, write,
}
use mathlib.Core.Option
use os333_iit_bombay_labs.Threads.{tally, at_lock, returned, occurs}
use os333_iit_bombay_labs.MasterWorker.{
  Config, Shared, System, produce, wait_or_produce, generate_requests_loop, consume,
  wait_or_consume, consume_request, Thread, master, worker, step,
}
use os333_iit_bombay_labs.MasterWorker.Correct.{run_once, run_all_consumed}
use os333_iit_bombay_labs.Turns.{num_threads, all_joined, rounds, take_turn, routine, up_to}
use os333_iit_bombay_labs.Turns.Order.{run_completes}
use os333_iit_bombay_labs.Barber.{chairs, barber, customer, Shop, Turn, of_barber, of_customer}
use os333_iit_bombay_labs.Barber.Chairs.{has_sat, has_left, run_bounded}
use os333_iit_bombay_labs.MasterWorker
use os333_iit_bombay_labs.Barber
use os333_iit_bombay_labs.Turns

program : Unit {0}
unfolding write MasterWorker.start produce wait_or_produce generate_requests_loop consume
    wait_or_consume consume_request step MasterWorker.run
program = tt

-- Two items, room for one, and two masters.
abbrev two_masters : Config
two_masters = record { total_items = 2; max_buf_size = 1; num_workers = 1; num_masters = 2 }

abbrev crowded : List Thread
crowded =
    master 0
    ∷ master 0
    ∷ master 1
    ∷ worker 0
    ∷ master 0
    ∷ worker 0
    ∷ master 1
    ∷ worker 0
    ∷ worker 0
    ∷ []

-- Both masters pass the test of `item_to_produce` before either waits, and three items are produced.
overproduction_run :
    Option.map
      (λ (s : System). s.shared.consumed)
      (MasterWorker.run two_masters (MasterWorker.start two_masters (7 ∷ [])) crowded)
    ≡ some (0 ∷ 1 ∷ 2 ∷ [])
unfolding program
overproduction_run = refl

run_once_example :
    (s : System) × (MasterWorker.run two_masters (MasterWorker.start two_masters (7 ∷ [])) crowded
      ≡ some s)
    × (s.shared.curr_buf_size ≤ 1)
    × (s.shared.item_to_produce < 4)
    × ((x : ℕ)
        → occurs x s.shared.consumed + occurs x (take s.shared.curr_buf_size s.shared.buffer)
          ≡ (if ltb x s.shared.item_to_produce then 1 else 0))
run_once_example = run_once two_masters (7 ∷ []) crowded refl (omega arith)

abbrev one_master : Config
one_master = record { total_items = 3; max_buf_size = 2; num_workers = 2; num_masters = 1 }

-- The buffer fills, the master waits, and one of the workers returns.
abbrev one_by_one : List Thread
one_by_one =
    worker 1
    ∷ master 0
    ∷ master 0
    ∷ master 0
    ∷ worker 0
    ∷ worker 1
    ∷ master 0
    ∷ worker 0
    ∷ master 0
    ∷ worker 0
    ∷ []

abbrev all_done : System
all_done = record {
  shared = record {
    buffer = 2 ∷ 1 ∷ [];
    curr_buf_size = 0;
    item_to_produce = 3;
    consumed = 1 ∷ 0 ∷ 2 ∷ [];
  };
  masters = returned ∷ [];
  workers = returned ∷ at_lock ∷ [];
}

one_master-run :
    MasterWorker.run one_master (MasterWorker.start one_master (7 ∷ 7 ∷ [])) one_by_one
    ≡ some all_done
unfolding program
one_master-run = refl

run_all_consumed_example :
    (all_done.shared.curr_buf_size ≡ 0)
    × ((x : ℕ) → occurs x (1 ∷ 0 ∷ 2 ∷ []) ≡ (if ltb x 3 then 1 else 0))
run_all_consumed_example =
    run_all_consumed one_master (7 ∷ 7 ∷ []) one_by_one all_done refl refl one_master-run
      (omega arith)

-- Thread 1 comes too early and waits.
abbrev early : List ℕ
early = 1 ∷ 0 ∷ 2 ∷ 1 ∷ []

run_completes_example :
    (all_joined (Turns.run (early ++ up_to num_threads) Turns.start).threads ≡ true)
    × ((Turns.run (early ++ up_to num_threads) Turns.start).printed ≡ up_to num_threads)
run_completes_example = run_completes early

two_rounds :
    rounds (up_to num_threads ∷ (early ++ up_to num_threads) ∷ [])
    ≡ some (up_to num_threads ∷ up_to num_threads ∷ [])
unfolding Turns.run Turns.start Turns.broadcast take_turn routine all_joined rounds
two_rounds = refl

-- Four customers come before the barber, and the fourth leaves.
abbrev busy_day : List Turn
busy_day =
    of_barber
    ∷ of_customer 0
    ∷ of_customer 1
    ∷ of_customer 2
    ∷ of_customer 3
    ∷ of_barber
    ∷ of_customer 1
    ∷ of_customer 4
    ∷ of_barber
    ∷ []

busy_day_counts :
    ((Barber.run busy_day Barber.start).waiting_customers ≡ 2)
    × ((Barber.run busy_day Barber.start).cuts ≡ 2)
unfolding Barber.run Barber.start barber customer
busy_day_counts = (refl, refl)

run_bounded_example :
    ((Barber.run busy_day Barber.start).waiting_customers ≤ chairs)
    × (tally has_sat (Barber.run busy_day Barber.start).customers
        ≡ (Barber.run busy_day Barber.start).waiting_customers
          + (Barber.run busy_day Barber.start).cuts)
    × ((tally has_left (Barber.run busy_day Barber.start).customers ≡ 0)
        ⊎ (chairs ≤ tally has_sat (Barber.run busy_day Barber.start).customers))
run_bounded_example = run_bounded busy_day
