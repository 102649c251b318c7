-- ===== src/MasterWorker.antt =====
-- pthreads-sync-code/master-worker/master-worker.c: masters that produce numbered items into a bounded
-- buffer, and workers that consume them. `none` is an access outside the buffer.
pub mod Section
pub mod Correct
pub mod Signals
use os333_iit_bombay_labs.Prelude.{
  ℕ, zero, suc, ◌+◌, ◌-◌, Bool, true, false, ◌&&◌, Option, none, some, List, [], ◌∷◌, ◌++◌, length,
  get_elem?, get_or, set, replicate, write, ltb, leb, ◌==◌, if◌then◌else◌, ◌>>=◌,
}
use os333_iit_bombay_labs.Threads.{Phase, at_lock, in_wait, returned}

-- The globals that the command line sets.
pub record Config : Type 0 where
  pub total_items : ℕ
  pub max_buf_size : ℕ
  pub num_workers : ℕ
  pub num_masters : ℕ

-- The globals that the mutex guards, and the items printed as consumed.
pub record Shared : Type 0 where
  pub buffer : List ℕ
  pub curr_buf_size : ℕ
  pub item_to_produce : ℕ
  pub consumed : List ℕ

-- The globals, and where each thread is.
pub record System : Type 0 where
  pub shared : Shared
  pub masters : List Phase
  pub workers : List Phase

-- `buffer` holds what `malloc` returns; the threads are created.
unfoldable pub start : Config → List ℕ → System
start c buffer = record {
  shared = record { buffer = buffer; curr_buf_size = 0; item_to_produce = 0; consumed = [] };
  masters = replicate c.num_masters at_lock;
  workers = replicate c.num_workers at_lock;
}

unfoldable pub produce : Shared → Option (Shared × Phase)
produce s = write s.buffer s.curr_buf_size s.item_to_produce >>= λ b. some (
  record s {
    buffer = b;
    curr_buf_size = s.curr_buf_size + 1;
    item_to_produce = s.item_to_produce + 1;
  },
  at_lock,
)

-- The `while` of a master and what follows it.
unfoldable pub wait_or_produce : Config → Shared → Option (Shared × Phase)
wait_or_produce c s = if leb c.max_buf_size s.curr_buf_size then some (s, in_wait) else produce s

unfoldable pub generate_requests_loop : Config → Phase → Shared → Option (Shared × Phase)
generate_requests_loop c at_lock s =
    if leb c.total_items s.item_to_produce then some (s, returned) else wait_or_produce c s
generate_requests_loop c in_wait s = wait_or_produce c s
generate_requests_loop c returned s = some (s, returned)

unfoldable pub consume : Shared → Option (Shared × Phase)
consume s =
    let taken : Option (Shared × Phase) = get_elem? s.buffer (s.curr_buf_size - 1) >>= λ item.
    some (
      record s { curr_buf_size = s.curr_buf_size - 1; consumed = s.consumed ++ item ∷ [] },
      at_lock,
    ) in
    if ltb 0 s.curr_buf_size then taken else some (s, at_lock)

-- The `while` of a worker and what follows it.
unfoldable pub wait_or_consume : Config → Shared → Option (Shared × Phase)
wait_or_consume c s =
    if s.curr_buf_size == 0 && ltb s.item_to_produce c.total_items
    then some (s, in_wait)
    else consume s

unfoldable pub consume_request : Config → Phase → Shared → Option (Shared × Phase)
consume_request c at_lock s =
    if s.curr_buf_size == 0 && leb c.total_items s.item_to_produce
    then some (s, returned)
    else wait_or_consume c s
consume_request c in_wait s = wait_or_consume c s
consume_request c returned s = some (s, returned)

-- The scheduler's choice of who holds the mutex next.
pub data Thread : Type 0 where
  master worker : ℕ → Thread

unfoldable pub step : Config → System → Thread → Option System
step c s (master i) =
    let next : Option System =
      generate_requests_loop c (get_or s.masters i returned) s.shared >>= λ (shared', p).
      some (record s { shared = shared'; masters = set s.masters i p }) in
    if ltb i (length s.masters) then next else some s
step c s (worker i) =
    let next : Option System =
      consume_request c (get_or s.workers i returned) s.shared >>= λ (shared', p).
      some (record s { shared = shared'; workers = set s.workers i p }) in
    if ltb i (length s.workers) then next else some s

-- The critical sections in the order in which the threads run them.
unfoldable pub run : Config → System → List Thread → Option System
run c s [] = some s
run c s (t ∷ ts) = step c s t >>= λ s'. run c s' ts
