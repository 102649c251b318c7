-- ===== src/MasterWorker/Signals.antt =====
-- The signals of pthreads-sync-code/master-worker/master-worker.c: a thread that waits goes on only after a signal.
pub mod Forget
pub mod Simulate
pub mod Pair
pub mod Service
pub mod Complete
pub mod Asleep
use os333_iit_bombay_labs.Prelude.{
  ℕ, zero, suc, ◌+◌, Bool, true, false, Option, none, some, List, [], ◌∷◌, ◌++◌, length, map,
  get_or, set, replicate, ltb, if◌then◌else◌, ◌>>=◌,
}
use os333_iit_bombay_labs.Threads.{Phase}
use os333_iit_bombay_labs.MasterWorker.{Config, Shared, generate_requests_loop, consume_request}

-- Where a thread is: before a lock, in a wait, behind the signal that ends the wait, or returned.
pub data Place : Type 0 where
  at_lock in_wait signalled returned : Place

abbrev pub phase : Place → Phase
phase at_lock = Phase.at_lock
phase in_wait = Phase.in_wait
phase signalled = Phase.in_wait
phase returned = Phase.returned

abbrev pub place_of : Phase → Place
place_of Phase.at_lock = at_lock
place_of Phase.in_wait = in_wait
place_of Phase.returned = returned

pub record Crew : Type 0 where
  pub shared : Shared
  pub masters : List Place
  pub workers : List Place

unfoldable pub start : Config → List ℕ → Crew
start c buffer = record {
  shared = record { buffer = buffer; curr_buf_size = 0; item_to_produce = 0; consumed = [] };
  masters = replicate c.num_masters at_lock;
  workers = replicate c.num_workers at_lock;
}

abbrev pub wake_first : List Place → List Place
wake_first [] = []
wake_first (in_wait ∷ ps) = signalled ∷ ps
wake_first (at_lock ∷ ps) = at_lock ∷ wake_first ps
wake_first (signalled ∷ ps) = signalled ∷ wake_first ps
wake_first (returned ∷ ps) = returned ∷ wake_first ps

-- `pthread_cond_signal` wakes a thread that waits, if one does: thread `i`, or the first.
unfoldable pub signal : ℕ → List Place → List Place
signal i ps = elim (get_or ps i returned) [ in_wait ↦ set ps i signalled | _ ↦ wake_first ps ]

-- The scheduler's choice: who runs next, and whom its signal wakes.
pub data Choice : Type 0 where
  master worker : ℕ → ℕ → Choice

-- What a critical section of a master leaves. It signals `not_empty` behind the item it produces.
abbrev pub generated : ℕ → ℕ → Crew → Shared × Phase → Crew
generated i w s (shared', q) = record {
  shared = shared';
  masters = set s.masters i (place_of q);
  workers =
      if ltb s.shared.item_to_produce shared'.item_to_produce
      then signal w s.workers
      else s.workers;
}

unfoldable pub generate : Config → ℕ → ℕ → Crew → Option Crew
generate c i w s = elim (get_or s.masters i returned) [
  | in_wait ↦ some s
  | p ↦ generate_requests_loop c (phase p) s.shared >>= λ r. some (generated i w s r)
]

-- What a critical section of a worker leaves. It signals `not_full` behind the item it consumes.
abbrev pub served : ℕ → ℕ → Crew → Shared × Phase → Crew
served i w s (shared', q) = record {
  shared = shared';
  masters =
      if ltb shared'.curr_buf_size s.shared.curr_buf_size then signal w s.masters else s.masters;
  workers = set s.workers i (place_of q);
}

unfoldable pub serve_request : Config → ℕ → ℕ → Crew → Option Crew
serve_request c i w s = elim (get_or s.workers i returned) [
  | in_wait ↦ some s
  | p ↦ consume_request c (phase p) s.shared >>= λ r. some (served i w s r)
]

unfoldable pub step : Config → Crew → Choice → Option Crew
step c s (master i w) = if ltb i (length s.masters) then generate c i w s else some s
step c s (worker i w) = if ltb i (length s.workers) then serve_request c i w s else some s

unfoldable pub run : Config → Crew → List Choice → Option Crew
run c s [] = some s
run c s (t ∷ ts) = step c s t >>= λ s'. run c s' ts
