-- ===== src/MasterWorker/Correct.antt =====
-- Every interleaving of the threads of pthreads-sync-code/master-worker/master-worker.c.
use mathlib.Core.Option
use mathlib.Core.Path.{subst}
use os333_iit_bombay_labs.Prelude.{
  ℕ, ◌+◌, ◌≤◌, ◌<◌, ◌≡◌, refl, sym, ◌∙◌, inl, inr, some, List, [], ◌∷◌, length, get_or, set, take,
  ltb, if◌then◌else◌, arith, Bool-cases, length-set, length-replicate,
}
use os333_iit_bombay_labs.Threads.{
  Phase, at_lock, returned, waits, ends, tally, tally-set, tally-replicate, tally_lt, occurs,
}
use os333_iit_bombay_labs.MasterWorker.{
  Config, Shared, System, start, Thread, master, worker, step, run,
}
use os333_iit_bombay_labs.MasterWorker.Section.{
  Holds, MasterMove, WorkerMove, generate_requests_loop_lem, consume_request_lem,
}

-- What holds of the globals and the threads between critical sections.
pub record IsValid (c : Config) (s : System) : Type 0 where
  pub holds : Holds c s.shared
  pub all_masters : length s.masters ≡ c.num_masters
  pub bounded : s.shared.item_to_produce + tally waits s.masters + 1 ≤ c.total_items + c.num_masters
  pub drained :
      0 < tally ends s.workers → c.total_items + s.shared.curr_buf_size ≤ s.shared.item_to_produce

start-IsValid :
    (c : Config) (buffer : List ℕ)
    → length buffer ≡ c.max_buf_size
    → 0 < c.num_masters
    → IsValid c (start c buffer)
unfolding start
start-IsValid c buffer room some_master = record {
  holds = record { room = room; fits = omega arith; once = λ x. ground arith };
  all_masters = length-replicate c.num_masters at_lock;
  bounded = omega (arith, tally-replicate waits c.num_masters at_lock refl);
  drained = λ h. absurd (omega (arith, h, tally-replicate ends c.num_workers at_lock refl));
}

module _ (c : Config) where
  master-IsValid :
      (s : System) (i : ℕ) (r : Shared × Phase)
      → IsValid c s
      → i < length s.masters
      → MasterMove c (get_or s.masters i returned) s.shared r
      → IsValid c (record s { shared = r.0; masters = set s.masters i r.1 })
  master-IsValid s i r v h m = record {
    holds = m.holds;
    all_masters = length-set s.masters i r.1 ∙ v.all_masters;
    bounded = elim m.bounded [
      | inl less ↦ omega (arith, less, v.bounded, tally-set returned waits s.masters i r.1 h)
      | inr (more, less, w) ↦ omega (
        arith,
        more,
        less,
        w,
        v.all_masters,
        tally-set returned waits s.masters i r.1 h,
        tally_lt s.masters i h w,
      )
    ];
    drained = λ e. omega (arith, v.drained e, m.produced);
  }

  worker-IsValid :
      (s : System) (i : ℕ) (r : Shared × Phase)
      → IsValid c s
      → i < length s.workers
      → WorkerMove c (get_or s.workers i returned) s.shared r
      → IsValid c (record s { shared = r.0; workers = set s.workers i r.1 })
  worker-IsValid s i r v h m = record {
    holds = m.holds;
    all_masters = v.all_masters;
    bounded = omega (arith, v.bounded, m.same_items);
    drained = λ e. elim m.drained [
      | inl same ↦
          let before : 0 < tally ends s.workers =
            omega (arith, same, e, tally-set returned ends s.workers i r.1 h) in
          omega (arith, v.drained before, m.same_items, m.fewer)
      | inr (empty, over) ↦ omega (arith, empty, over)
    ];
  }

  step-IsValid :
      (s : System) (t : Thread)
      → IsValid c s
      → (s' : System) × (step c s t ≡ some s') × IsValid c s'
  unfolding step
  step-IsValid s (master i) v = elim (Bool-cases (ltb i (length s.masters))) [
    | inl here ↦
        let (r, e, m) =
          generate_requests_loop_lem c (get_or s.masters i returned) s.shared v.holds in
        (
          record s { shared = r.0; masters = set s.masters i r.1 },
          rw (here, e) refl,
          master-IsValid s i r v (ground arith) m,
        )
    | inr gone ↦ (s, rw (gone) refl, v)
  ]
  step-IsValid s (worker i) v = elim (Bool-cases (ltb i (length s.workers))) [
    | inl here ↦
        let (r, e, m) = consume_request_lem c (get_or s.workers i returned) s.shared v.holds in
        (
          record s { shared = r.0; workers = set s.workers i r.1 },
          rw (here, e) refl,
          worker-IsValid s i r v (ground arith) m,
        )
    | inr gone ↦ (s, rw (gone) refl, v)
  ]

  run-IsValid :
      (ts : List Thread) (s : System)
      → IsValid c s
      → (s' : System) × (run c s ts ≡ some s') × IsValid c s'
  unfolding run
  run-IsValid [] s v = (s, refl, v)
  run-IsValid (t ∷ ts) s v =
      let (s1, e1, v1) = step-IsValid s t v in
      let (s2, e2, v2) = run-IsValid ts s1 v1 in (s2, rw (e1) e2, v2)

-- With a buffer of `max_buf_size` entries and at least one master, no interleaving accesses memory
-- outside the buffer. Afterwards each item below `item_to_produce`, and nothing else, is once in
-- the buffer or printed as consumed, and fewer than `num_masters` items are produced beyond `total_items`.
pub run_once :
    (c : Config) (buffer : List ℕ) (ts : List Thread)
    → length buffer ≡ c.max_buf_size
    → 0 < c.num_masters
    → (s : System) × (run c (start c buffer) ts ≡ some s)
      × (s.shared.curr_buf_size ≤ c.max_buf_size)
      × (s.shared.item_to_produce < c.total_items + c.num_masters)
      × ((x : ℕ)
          → occurs x s.shared.consumed + occurs x (take s.shared.curr_buf_size s.shared.buffer)
            ≡ (if ltb x s.shared.item_to_produce then 1 else 0))
run_once c buffer ts room some_master =
    let (s, e, v) = run-IsValid c ts (start c buffer) (start-IsValid c buffer room some_master) in
    (s, e, v.holds.fits, omega (arith, v.bounded), v.holds.once)

-- With one master, once a worker has returned, the items printed as consumed are 0 to
-- `total_items` - 1, each once, and the buffer is empty.
pub run_all_consumed :
    (c : Config) (buffer : List ℕ) (ts : List Thread) (s : System)
    → length buffer ≡ c.max_buf_size
    → c.num_masters ≡ 1
    → run c (start c buffer) ts ≡ some s
    → 0 < tally ends s.workers
    → (s.shared.curr_buf_size ≡ 0)
      × ((x : ℕ) → occurs x s.shared.consumed ≡ (if ltb x c.total_items then 1 else 0))
run_all_consumed c buffer ts s room one e done =
    let (s', e', v') =
      run-IsValid c ts (start c buffer) (start-IsValid c buffer room (omega (arith, one))) in
    let same : s' ≡ s = Option.some-injective s' s (sym e' ∙ e) in
    let v : IsValid c s = subst (IsValid c) same v' in
    let empty : s.shared.curr_buf_size ≡ 0 = omega (arith, v.bounded, v.drained done, one) in
    let all : s.shared.item_to_produce ≡ c.total_items =
      omega (arith, v.bounded, v.drained done, one) in
    (empty, λ x. let once = rw (empty, all) at (v.holds.once x) in omega (arith, once))
