-- ===== src/MasterWorker/Section.antt =====
-- One critical section of pthreads-sync-code/master-worker/master-worker.c, of a master and of a worker.
use os333_iit_bombay_labs.Prelude.{
  ℕ, ◌+◌, ◌-◌, ◌≤◌, ◌<◌, ◌≡◌, refl, ◌∙◌, ◌⊎◌, inl, inr, true, false, ◌&&◌, some, [], ◌∷◌, ◌++◌,
  length, get_or, set, take, ltb, leb, ◌==◌, if◌then◌else◌, arith, Bool-cases, get_elem?-get_or,
  length-set, write-some, dec_lt,
}
use os333_iit_bombay_labs.Threads.{
  Phase, at_lock, in_wait, returned, waits, ends, occurs, occurs-append, occurs-set, occurs-get_or,
}
use os333_iit_bombay_labs.MasterWorker.{
  Config, Shared, produce, wait_or_produce, generate_requests_loop, consume, wait_or_consume,
  consume_request,
}

-- The buffer is `malloc`ed, the index is in it, and each item below `item_to_produce`, and no other, is
-- once in the buffer or among the consumed.
pub record Holds (c : Config) (s : Shared) : Type 0 where
  pub room : length s.buffer ≡ c.max_buf_size
  pub fits : s.curr_buf_size ≤ c.max_buf_size
  pub once :
      (x : ℕ)
      → occurs x s.consumed + occurs x (take s.curr_buf_size s.buffer)
        ≡ (if ltb x s.item_to_produce then 1 else 0)

-- What a critical section of a master does to the counters.
pub record MasterMove (c : Config) (p : Phase) (s : Shared) (r : Shared × Phase) : Type 0 where
  pub holds : Holds c r.0
  pub produced : r.0.curr_buf_size + s.item_to_produce ≡ s.curr_buf_size + r.0.item_to_produce
  pub bounded :
      (r.0.item_to_produce + waits r.1 ≤ s.item_to_produce + waits p)
      ⊎ ((s.item_to_produce < c.total_items)
          × (r.0.item_to_produce + waits r.1 ≤ s.item_to_produce + 1)
          × (waits p ≡ 0))

-- What a critical section of a worker does to the counters.
pub record WorkerMove (c : Config) (p : Phase) (s : Shared) (r : Shared × Phase) : Type 0 where
  pub holds : Holds c r.0
  pub same_items : r.0.item_to_produce ≡ s.item_to_produce
  pub fewer : r.0.curr_buf_size ≤ s.curr_buf_size
  pub drained :
      (ends r.1 ≤ ends p) ⊎ ((r.0.curr_buf_size ≡ 0) × (c.total_items ≤ r.0.item_to_produce))

module _ (c : Config) where
  abbrev pub produced_one : Shared → Shared
  produced_one s = record s {
    buffer = set s.buffer s.curr_buf_size s.item_to_produce;
    curr_buf_size = s.curr_buf_size + 1;
    item_to_produce = s.item_to_produce + 1;
  }

  pub produce_lem :
      (s : Shared)
      → Holds c s
      → s.curr_buf_size < c.max_buf_size
      → (produce s ≡ some (produced_one s, at_lock)) × Holds c (produced_one s)
  unfolding produce
  produce_lem s h free =
      let inside : s.curr_buf_size < length s.buffer = omega (arith, h.room) in
      (
        rw (write-some s.buffer s.curr_buf_size s.item_to_produce inside) refl,
        record {
          room = length-set s.buffer s.curr_buf_size s.item_to_produce ∙ h.room;
          fits = omega arith;
          once = λ x. ground (
            arith,
            h.once x,
            occurs-set x s.buffer (s.curr_buf_size + 1) s.curr_buf_size s.item_to_produce inside
                refl,
          );
        },
      )

  wait_or_produce_lem :
      (p : Phase) (s : Shared)
      → Holds c s
      → (waits p ≡ 1) ⊎ ((s.item_to_produce < c.total_items) × (waits p ≡ 0))
      → (r : Shared × Phase) × (wait_or_produce c s ≡ some r) × MasterMove c p s r
  unfolding wait_or_produce
  wait_or_produce_lem p s h why = elim (dec_lt s.curr_buf_size c.max_buf_size) [
    | yes free ↦
        let free? : leb c.max_buf_size s.curr_buf_size ≡ false = ground arith in
        let (e, after) = produce_lem s h free in
        (
          (produced_one s, at_lock),
          rw (free?) e,
          record {
            holds = after;
            produced = omega arith;
            bounded = elim why [
              | inl w ↦ inl (omega arith)
              | inr (less, w) ↦ inr (less, omega arith, w)
            ];
          },
        )
    | no full ↦
        let full? : leb c.max_buf_size s.curr_buf_size ≡ true = ground arith in
        (
          (s, in_wait),
          rw (full?) refl,
          record {
            holds = h;
            produced = refl;
            bounded = elim why [
              | inl w ↦ inl (omega arith)
              | inr (less, w) ↦ inr (less, omega arith, w)
            ];
          },
        )
  ]

  pub generate_requests_loop_lem :
      (p : Phase) (s : Shared)
      → Holds c s
      → (r : Shared × Phase) × (generate_requests_loop c p s ≡ some r) × MasterMove c p s r
  unfolding generate_requests_loop
  generate_requests_loop_lem at_lock s h = elim (dec_lt s.item_to_produce c.total_items) [
    | yes less ↦
        let less? : leb c.total_items s.item_to_produce ≡ false = ground arith in
        let (r, e, m) = wait_or_produce_lem at_lock s h (inr (less, refl)) in (r, rw (less?) e, m)
    | no over ↦
        let over? : leb c.total_items s.item_to_produce ≡ true = ground arith in
        (
          (s, returned),
          rw (over?) refl,
          record { holds = h; produced = refl; bounded = inl (omega arith) },
        )
  ]
  generate_requests_loop_lem in_wait s h = wait_or_produce_lem in_wait s h (inl refl)
  generate_requests_loop_lem returned s h =
      ((s, returned), refl, record { holds = h; produced = refl; bounded = inl (omega arith) })

  abbrev pub consumed_one : Shared → Shared
  consumed_one s = record s {
    curr_buf_size = s.curr_buf_size - 1;
    consumed = s.consumed ++ get_or s.buffer (s.curr_buf_size - 1) 0 ∷ [];
  }

  pub consume_lem :
      (s : Shared)
      → Holds c s
      → 0 < s.curr_buf_size
      → (consume s ≡ some (consumed_one s, at_lock)) × Holds c (consumed_one s)
  unfolding consume
  consume_lem s h some_left =
      let last = s.curr_buf_size - 1 in
      let inside : last < length s.buffer = omega (arith, h.room, h.fits) in
      let some_left? : ltb 0 s.curr_buf_size ≡ true = ground arith in
      (
        rw (some_left?, get_elem?-get_or s.buffer last 0 inside) refl,
        record {
          room = h.room;
          fits = omega (arith, h.fits);
          once = λ x. ground (
            arith,
            h.once x,
            occurs-append x s.consumed (get_or s.buffer last 0 ∷ []),
            occurs-get_or x s.buffer s.curr_buf_size last inside (omega arith),
          );
        },
      )

  -- A section of a worker that leaves the globals as they are.
  stays : (p : Phase) (s : Shared) → Holds c s → (q : Phase) → ends q ≡ 0 → WorkerMove c p s (s, q)
  stays p s h q e = record {
    holds = h;
    same_items = refl;
    fewer = omega arith;
    drained = inl (omega (arith, e));
  }

  wait_or_consume_lem :
      (p : Phase) (s : Shared)
      → Holds c s
      → (r : Shared × Phase) × (wait_or_consume c s ≡ some r) × WorkerMove c p s r
  unfolding wait_or_consume consume
  wait_or_consume_lem p s h = elim (dec_lt 0 s.curr_buf_size) [
    | yes some_left ↦
        let some_left? : (s.curr_buf_size == 0) ≡ false = ground arith in
        let (e, after) = consume_lem s h some_left in
        (
          (consumed_one s, at_lock),
          rw (some_left?) e,
          record {
            holds = after;
            same_items = refl;
            fewer = omega arith;
            drained = inl (omega arith);
          },
        )
    | no empty ↦
        let empty? : (s.curr_buf_size == 0) ≡ true = ground arith in
        let none_left? : ltb 0 s.curr_buf_size ≡ false = ground arith in
        elim (Bool-cases (ltb s.item_to_produce c.total_items)) [
          | inl more ↦ ((s, in_wait), rw (empty?, more) refl, stays p s h in_wait refl)
          | inr done ↦ ((s, at_lock), rw (empty?, done, none_left?) refl, stays p s h at_lock refl)
        ]
  ]

  pub consume_request_lem :
      (p : Phase) (s : Shared)
      → Holds c s
      → (r : Shared × Phase) × (consume_request c p s ≡ some r) × WorkerMove c p s r
  unfolding consume_request
  consume_request_lem at_lock s h =
      elim (Bool-cases (s.curr_buf_size == 0 && leb c.total_items s.item_to_produce)) [
        | inl done ↦ (
          (s, returned),
          rw (done) refl,
          record {
            holds = h;
            same_items = refl;
            fewer = omega arith;
            drained = inr (ground arith, ground arith);
          },
        )
        | inr more ↦ let (r, e, m) = wait_or_consume_lem at_lock s h in (r, rw (more) e, m)
      ]
  consume_request_lem in_wait s h = wait_or_consume_lem in_wait s h
  consume_request_lem returned s h = (
    (s, returned),
    refl,
    record { holds = h; same_items = refl; fewer = omega arith; drained = inl (omega arith) },
  )
