-- ===== src/MasterWorker/Signals/Asleep.antt =====
-- A worker that waits when the last item is gone (MasterWorker/Signals).
use os333_iit_bombay_labs.Prelude.{
  ℕ, zero, suc, ◌≤◌, ◌≡◌, ◌≢◌, refl, sym, ap, ◌∙◌, inl, inr, true, false, some, List, [], ◌∷◌,
  length, get_or, set, ltb, leb, ◌==◌, ◌>>=◌, arith, Bool-cases, get_or-set_ne,
}
use os333_iit_bombay_labs.Threads.{Phase}
use os333_iit_bombay_labs.MasterWorker.{
  Config, generate_requests_loop, consume_request, wait_or_consume, consume,
}
use os333_iit_bombay_labs.MasterWorker.Signals.Forget.{generate_awake, serve_request_awake}
use os333_iit_bombay_labs.MasterWorker.Signals.{
  Place, at_lock, in_wait, signalled, returned, place_of, Crew, generate, serve_request, served,
  Choice, master, worker, step, run,
}

-- All masters have returned, nothing is left, and worker `i` waits.
pub record IsOver (c : Config) (i : ℕ) (s : Crew) : Type 0 where
  pub all_produced : c.total_items ≤ s.shared.item_to_produce
  pub all_consumed : s.shared.curr_buf_size ≡ 0
  pub no_master : (j : ℕ) → get_or s.masters j returned ≡ returned
  pub asleep : get_or s.workers i returned ≡ in_wait

still_returned :
    (ps : List Place) (j : ℕ)
    → ((n : ℕ) → get_or ps n returned ≡ returned)
    → (n : ℕ) → get_or (set ps j returned) n returned ≡ returned
still_returned [] j h n = refl
still_returned (p ∷ ps) zero h zero = refl
still_returned (p ∷ ps) zero h (suc n) = h (suc n)
still_returned (p ∷ ps) (suc j) h zero = h zero
still_returned (p ∷ ps) (suc j) h (suc n) = still_returned ps j (λ k. h (suc k)) n

module _ (c : Config) (i : ℕ) where
  generate-IsOver :
      (j k : ℕ) (s : Crew)
      → IsOver c i s
      → (s' : Crew) × (generate c j k s ≡ some s') × IsOver c i s'
  unfolding generate_requests_loop
  generate-IsOver j k s v =
      let same? : ltb s.shared.item_to_produce s.shared.item_to_produce ≡ false = ground arith in
      (
        record s { masters = set s.masters j returned },
        rw (generate_awake c j k s returned (v.no_master j) (λ e. ground (arith, e)), same?) refl,
        record {
          all_produced = v.all_produced;
          all_consumed = v.all_consumed;
          no_master = still_returned s.masters j v.no_master;
          asleep = v.asleep;
        },
      )

  -- Whatever a worker that is not in its wait does, the globals stay, and it is another one.
  after-IsOver :
      (j k : ℕ) (s : Crew) (q : Phase)
      → IsOver c i s
      → get_or s.workers j returned ≢ in_wait
      → (s' : Crew) × ((some (s.shared, q) >>= λ r. some (served j k s r)) ≡ some s')
        × IsOver c i s'
  after-IsOver j k s q v other =
      let same? : ltb s.shared.curr_buf_size s.shared.curr_buf_size ≡ false = ground arith in
      (
        record s { workers = set s.workers j (place_of q) },
        rw (same?) refl,
        record {
          all_produced = v.all_produced;
          all_consumed = v.all_consumed;
          no_master = v.no_master;
          asleep =
              get_or-set_ne s.workers j i (place_of q) returned
                (λ e. other (ap (λ n. get_or s.workers n returned) e ∙ v.asleep))
              ∙ v.asleep;
        },
      )

  serve_request-IsOver :
      (j k : ℕ) (s : Crew) (p : Place)
      → IsOver c i s
      → get_or s.workers j returned ≡ p
      → (s' : Crew) × (serve_request c j k s ≡ some s') × IsOver c i s'
  unfolding serve_request consume_request wait_or_consume consume
  serve_request-IsOver j k s in_wait v e = (s, rw (serve_request, e) refl, v)
  serve_request-IsOver j k s at_lock v e =
      let empty? : (s.shared.curr_buf_size == 0) ≡ true = ground (arith, v.all_consumed) in
      let done? : leb c.total_items s.shared.item_to_produce ≡ true =
        ground (arith, v.all_produced) in
      let awake : at_lock ≢ in_wait = λ q. ground (arith, q) in
      rw (serve_request_awake c j k s at_lock e awake, empty?, done?)
        (after-IsOver j k s Phase.returned v (λ q. awake (sym e ∙ q)))
  serve_request-IsOver j k s signalled v e =
      let empty? : (s.shared.curr_buf_size == 0) ≡ true = ground (arith, v.all_consumed) in
      let none_left? : ltb 0 s.shared.curr_buf_size ≡ false = ground (arith, v.all_consumed) in
      let more? : ltb s.shared.item_to_produce c.total_items ≡ false =
        ground (arith, v.all_produced) in
      let awake : signalled ≢ in_wait = λ q. ground (arith, q) in
      rw (serve_request_awake c j k s signalled e awake, empty?, more?, none_left?)
        (after-IsOver j k s Phase.at_lock v (λ q. awake (sym e ∙ q)))
  serve_request-IsOver j k s returned v e =
      let awake : returned ≢ in_wait = λ q. ground (arith, q) in
      rw (serve_request_awake c j k s returned e awake)
        (after-IsOver j k s Phase.returned v (λ q. awake (sym e ∙ q)))

  step-IsOver :
      (t : Choice) (s : Crew) → IsOver c i s → (s' : Crew) × (step c s t ≡ some s') × IsOver c i s'
  unfolding step
  step-IsOver (master j k) s v = elim (Bool-cases (ltb j (length s.masters))) [
    | inl here ↦ rw (here) (generate-IsOver j k s v)
    | inr gone ↦ (s, rw (gone) refl, v)
  ]
  step-IsOver (worker j k) s v = elim (Bool-cases (ltb j (length s.workers))) [
    | inl here ↦ rw (here) (serve_request-IsOver j k s (get_or s.workers j returned) v refl)
    | inr gone ↦ (s, rw (gone) refl, v)
  ]

  run-IsOver :
      (ts : List Choice) (s : Crew)
      → IsOver c i s
      → (s' : Crew) × (run c s ts ≡ some s') × IsOver c i s'
  unfolding run
  run-IsOver [] s v = (s, refl, v)
  run-IsOver (t ∷ ts) s v =
      let (s1, e1, v1) = step-IsOver t s v in
      let (s2, e2, v2) = run-IsOver ts s1 v1 in (s2, rw (e1) e2, v2)

-- Where waits end only by a signal: once all masters have returned and nothing is left to consume, a worker that waits
-- is waiting after every further schedule.
pub worker_sleeps :
    (c : Config) (i : ℕ) (s : Crew) (ts : List Choice)
    → c.total_items ≤ s.shared.item_to_produce
    → s.shared.curr_buf_size ≡ 0
    → ((j : ℕ) → get_or s.masters j returned ≡ returned)
    → get_or s.workers i returned ≡ in_wait
    → (s' : Crew) × (run c s ts ≡ some s') × (get_or s'.workers i returned ≡ in_wait)
worker_sleeps c i s ts produced consumed no_master asleep =
    let (s', e, v) = run-IsOver c i ts s (record {
      all_produced = produced;
      all_consumed = consumed;
      no_master = no_master;
      asleep = asleep;
    }) in
    (s', e, v.asleep)
