-- ===== src/Tests/Signals.antt =====
-- Schedules of pthreads-sync-code/master-worker/master-worker.c with its signals.
use os333_iit_bombay_labs.Prelude.{
  ℕ, zero, suc, ◌≡◌, refl, some, List, [], ◌∷◌, ◌++◌, get_or, ltb, if◌then◌else◌, arith, write,
}
use os333_iit_bombay_labs.Threads.{occurs}
use os333_iit_bombay_labs.MasterWorker.{
  Config, produce, wait_or_produce, generate_requests_loop, consume, wait_or_consume,
  consume_request,
}
use os333_iit_bombay_labs.MasterWorker.Signals.{
  in_wait, returned, Crew, start, signal, Choice, master, worker, generate, serve_request, step,
  run,
}
use os333_iit_bombay_labs.MasterWorker.Signals.Complete.{sweeps, pair_completes}
use os333_iit_bombay_labs.MasterWorker.Signals.Asleep.{worker_sleeps}

-- One item, and two workers that wait for it.
abbrev two_workers : Config
two_workers = record { total_items = 1; max_buf_size = 1; num_workers = 2; num_masters = 1 }

abbrev one_signal : List Choice
one_signal = worker 0 0 ∷ worker 1 0 ∷ master 0 0 ∷ master 0 0 ∷ worker 0 0 ∷ worker 0 0 ∷ []

-- The master has returned, the first worker has consumed the item and returned, the second one waits.
abbrev stuck : Crew
stuck = record {
  shared = record { buffer = 0 ∷ []; curr_buf_size = 0; item_to_produce = 1; consumed = 0 ∷ [] };
  masters = returned ∷ [];
  workers = returned ∷ in_wait ∷ [];
}

lost_run : run two_workers (start two_workers (7 ∷ [])) one_signal ≡ some stuck
unfolding write start produce wait_or_produce generate_requests_loop consume wait_or_consume
    consume_request signal generate serve_request step run
lost_run = refl

all_returned : (j : ℕ) → get_or (returned ∷ []) j returned ≡ returned
all_returned zero = refl
all_returned (suc j) = refl

worker_sleeps_example :
    (s : Crew) × (run two_workers stuck (worker 1 0 ∷ worker 0 1 ∷ master 0 1 ∷ []) ≡ some s)
    × (get_or s.workers 1 returned ≡ in_wait)
worker_sleeps_example =
    worker_sleeps two_workers 1 stuck (worker 1 0 ∷ worker 0 1 ∷ master 0 1 ∷ []) (omega arith) refl
      all_returned refl

abbrev one_each : Config
one_each = record { total_items = 3; max_buf_size = 1; num_workers = 1; num_masters = 1 }

-- The master fills the buffer and waits.
abbrev full : List Choice
full = worker 0 0 ∷ master 0 0 ∷ master 0 0 ∷ []

pair_completes_example :
    (s : Crew) × (run one_each (start one_each (7 ∷ [])) (full ++ sweeps one_each 22) ≡ some s)
    × (s.masters ≡ returned ∷ [])
    × (s.workers ≡ returned ∷ [])
    × ((x : ℕ) → occurs x s.shared.consumed ≡ (if ltb x 3 then 1 else 0))
pair_completes_example = pair_completes one_each (7 ∷ []) full refl (omega arith) refl refl
