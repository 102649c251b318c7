-- ===== src/MasterWorker/Signals/Service.antt =====
-- One master and one worker (MasterWorker/Signals): what the critical sections of the worker lower.
use os333_iit_bombay_labs.Prelude.{
  ℕ, suc, ◌-◌, ◌≤◌, ◌≡◌, ◌⊎◌, refl, ap, inl, inr, true, false, ◌&&◌, some, ltb, leb, ◌==◌, ◌>>=◌,
  arith, Bool-cases, dec_lt,
}
use os333_iit_bombay_labs.MasterWorker.{Config, Shared, consume_request, wait_or_consume, consume}
use os333_iit_bombay_labs.MasterWorker.Section.{consumed_one, consume_lem}
use os333_iit_bombay_labs.MasterWorker.Signals.{
  Place, at_lock, in_wait, signalled, returned, served, serve_request,
}
use os333_iit_bombay_labs.MasterWorker.Signals.Pair.{
  pair, woken, signal_one, OfMaster, IsValid, rank, left, Leaves, is_awake, rank-woken,
}

module _ (c : Config) where
  OfMaster-consumed :
      (s : Shared) (m : Place) → OfMaster c s m → OfMaster c (consumed_one c s) (woken m)
  OfMaster-consumed s at_lock h = h
  OfMaster-consumed s in_wait h = h.0
  OfMaster-consumed s signalled h = h
  OfMaster-consumed s returned h = h

  -- A worker that finds an item, and one that does not.
  wait_or_consume-Leaves :
      (k : ℕ) (s : Shared) (m w : Place) (n : ℕ)
      → IsValid c s m w
      → 2 ≤ rank w
      → (w ≡ signalled) ⊎ ((s.curr_buf_size == 0 && leb c.total_items s.item_to_produce) ≡ false)
      → left c s m w ≤ suc n
      → Leaves c n (wait_or_consume c s >>= λ r. some (served 0 k (pair s m w) r))
  unfolding wait_or_consume consume
  wait_or_consume-Leaves k s m w n v high why bound = elim (dec_lt 0 s.curr_buf_size) [
    | yes some_left ↦
        let some_left? : (s.curr_buf_size == 0) ≡ false = ground arith in
        let fewer? : ltb (s.curr_buf_size - 1) s.curr_buf_size ≡ true = ground arith in
        let (e, after) = consume_lem c s v.holds some_left in
        (
          consumed_one c s,
          woken m,
          at_lock,
          rw (some_left?, e, fewer?, signal_one k m) refl,
          record { holds = after; of_master = OfMaster-consumed s m v.of_master; of_worker = tt },
          omega (arith, rank-woken m),
        )
    | no empty ↦
        let empty? : (s.curr_buf_size == 0) ≡ true = ground arith in
        let none_left? : ltb 0 s.curr_buf_size ≡ false = ground arith in
        let same? : ltb s.curr_buf_size s.curr_buf_size ≡ false = ground arith in
        elim (Bool-cases (ltb s.item_to_produce c.total_items)) [
          | inl more ↦ (
            s,
            m,
            in_wait,
            rw (empty?, more, same?) refl,
            record {
              holds = v.holds;
              of_master = v.of_master;
              of_worker = (ground arith, omega arith);
            },
            omega arith,
          )
          | inr done ↦ elim why [
            | inl was ↦ (
              s,
              m,
              at_lock,
              rw (empty?, done, none_left?, same?) refl,
              record { holds = v.holds; of_master = v.of_master; of_worker = tt },
              omega (arith, ap rank was),
            )
            | inr other ↦ absurd (ground arith)
          ]
        ]
  ]

  pub serve_request-Leaves :
      (k : ℕ) (s : Shared) (m w : Place) (n : ℕ)
      → IsValid c s m w
      → is_awake w ≡ true
      → left c s m w ≤ suc n
      → Leaves c n (serve_request c 0 k (pair s m w))
  unfolding serve_request consume_request
  serve_request-Leaves k s m at_lock n v awake bound =
      elim (Bool-cases (s.curr_buf_size == 0 && leb c.total_items s.item_to_produce)) [
        | inl done ↦
            let same? : ltb s.curr_buf_size s.curr_buf_size ≡ false = ground arith in
            (
              s,
              m,
              returned,
              rw (done, same?) refl,
              record {
                holds = v.holds;
                of_master = v.of_master;
                of_worker = (ground arith, ground arith);
              },
              omega arith,
            )
        | inr more ↦
            rw (more) (wait_or_consume-Leaves k s m at_lock n v (omega arith) (inr more) bound)
      ]
  serve_request-Leaves k s m signalled n v awake bound =
      wait_or_consume-Leaves k s m signalled n v (omega arith) (inl refl) bound
  serve_request-Leaves k s m in_wait n v awake bound = absurd (ground (arith, awake))
  serve_request-Leaves k s m returned n v awake bound = absurd (ground (arith, awake))

  pub serve_request_rests :
      (k : ℕ) (s : Shared) (m w : Place)
      → is_awake w ≡ false
      → serve_request c 0 k (pair s m w) ≡ some (pair s m w)
  unfolding serve_request consume_request
  serve_request_rests k s m in_wait asleep = refl
  serve_request_rests k s m returned asleep =
      let same? : ltb s.curr_buf_size s.curr_buf_size ≡ false = ground arith in rw (same?) refl
  serve_request_rests k s m at_lock asleep = absurd (ground (arith, asleep))
  serve_request_rests k s m signalled asleep = absurd (ground (arith, asleep))
