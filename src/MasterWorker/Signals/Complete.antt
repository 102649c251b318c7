-- ===== src/MasterWorker/Signals/Complete.antt =====
-- One master and one worker (MasterWorker/Signals) end, and consume every item.
use mathlib.Core.Option
use mathlib.Core.Path.{subst}
use os333_iit_bombay_labs.Prelude.{
  ℕ, zero, suc, ◌+◌, ◌*◌, ◌≤◌, ◌<◌, ◌≡◌, refl, ap, ◌∙◌, inl, inr, false, Option, none, some, List,
  [], ◌∷◌, ◌++◌, length, ltb, if◌then◌else◌, arith, Bool-cases,
}
use os333_iit_bombay_labs.Threads.{occurs}
use os333_iit_bombay_labs.MasterWorker.{Config, Shared}
use os333_iit_bombay_labs.MasterWorker.Signals.{
  Place, at_lock, in_wait, signalled, returned, Crew, start, Choice, master, worker, step, run,
}
use os333_iit_bombay_labs.MasterWorker.Signals.Pair.{
  pair, OfMaster, IsValid, rank, left, Leaves, is_awake, generate-Leaves, generate_rests,
}
use os333_iit_bombay_labs.MasterWorker.Signals.Service.{serve_request-Leaves, serve_request_rests}

module _ (c : Config) where
  step-Leaves :
      (t : Choice) (s : Shared) (m w : Place) (n : ℕ)
      → IsValid c s m w
      → left c s m w ≤ n
      → Leaves c n (step c (pair s m w) t)
  unfolding step
  step-Leaves (master zero k) s m w n v bound = elim (Bool-cases (is_awake m)) [
    | inl awake ↦ generate-Leaves c k s m w n v awake (omega arith)
    | inr asleep ↦ (s, m, w, generate_rests c k s m w asleep, v, bound)
  ]
  step-Leaves (master (suc i) k) s m w n v bound =
      let beyond : ltb (suc i) 1 ≡ false = ground arith in (s, m, w, rw (beyond) refl, v, bound)
  step-Leaves (worker zero k) s m w n v bound = elim (Bool-cases (is_awake w)) [
    | inl awake ↦ serve_request-Leaves c k s m w n v awake (omega arith)
    | inr asleep ↦ (s, m, w, serve_request_rests c k s m w asleep, v, bound)
  ]
  step-Leaves (worker (suc i) k) s m w n v bound =
      let beyond : ltb (suc i) 1 ≡ false = ground arith in (s, m, w, rw (beyond) refl, v, bound)

  -- The master, then the worker.
  abbrev sweep : List Choice
  sweep = master 0 0 ∷ worker 0 0 ∷ []

  -- Both rest only when both have returned.
  both_rest :
      (s : Shared) (m w : Place)
      → 0 < c.max_buf_size
      → IsValid c s m w
      → is_awake m ≡ false
      → is_awake w ≡ false
      → left c s m w ≡ 0
  both_rest s returned returned room v h k = omega (arith, v.of_master, v.of_worker.1)
  both_rest s in_wait in_wait room v h k = absurd (omega (arith, v.of_master.1, v.of_worker.1))
  both_rest s in_wait returned room v h k = absurd (omega (arith, v.of_master.0, v.of_worker.0))
  both_rest s returned in_wait room v h k = absurd (omega (arith, v.of_master, v.of_worker.0))
  both_rest s at_lock w room v h k = absurd (ground (arith, h))
  both_rest s signalled w room v h k = absurd (ground (arith, h))
  both_rest s returned at_lock room v h k = absurd (ground (arith, k))
  both_rest s returned signalled room v h k = absurd (ground (arith, k))
  both_rest s in_wait at_lock room v h k = absurd (ground (arith, k))
  both_rest s in_wait signalled room v h k = absurd (ground (arith, k))

  -- A sweep lowers what is left until both have returned.
  sweep-Leaves :
      (s : Shared) (m w : Place) (n : ℕ)
      → 0 < c.max_buf_size
      → IsValid c s m w
      → left c s m w ≤ suc n
      → Leaves c n (run c (pair s m w) sweep)
  unfolding run step
  sweep-Leaves s m w n room v bound = elim (Bool-cases (is_awake m)) [
    | inl awake ↦
        let (s', m', w', e, v', bound') = generate-Leaves c 0 s m w n v awake bound in
        let (s2, m2, w2, e2, v2, bound2) = step-Leaves (worker 0 0) s' m' w' n v' bound' in
        (s2, m2, w2, rw (e, e2) refl, v2, bound2)
    | inr asleep ↦ elim (Bool-cases (is_awake w)) [
      | inl awake ↦
          let (s', m', w', e, v', bound') = serve_request-Leaves c 0 s m w n v awake bound in
          (s', m', w', rw (generate_rests c 0 s m w asleep, e) refl, v', bound')
      | inr resting ↦ (
        s,
        m,
        w,
        rw (generate_rests c 0 s m w asleep, serve_request_rests c 0 s m w resting) refl,
        v,
        omega (arith, both_rest s m w room v asleep resting),
      )
    ]
  ]

  abbrev pub sweeps : ℕ → List Choice
  sweeps zero = []
  sweeps (suc n) = sweep ++ sweeps n

  run_next :
      (t : Choice) (ts us : List Choice) (s s' : Crew) (next : Option Crew)
      → step c s t ≡ next
      → run c s (t ∷ ts) ≡ some s'
      → ((s1 : Crew) → run c s1 ts ≡ some s' → run c s1 (ts ++ us) ≡ run c s' us)
      → run c s (t ∷ ts ++ us) ≡ run c s' us
  unfolding run
  run_next t ts us s s' none e r h = absurd (Option.none-ne-some s' (rw (e) at r))
  run_next t ts us s s' (some s1) e r h = rw (e) (h s1 (rw (e) at r))

  run_append :
      (ts us : List Choice) (s s' : Crew) → run c s ts ≡ some s' → run c s (ts ++ us) ≡ run c s' us
  unfolding run
  run_append [] us s s' e = ap (λ (x : Crew). run c x us) (Option.some-injective s s' e)
  run_append (t ∷ ts) us s s' e =
      run_next t ts us s s' (step c s t) refl e (λ s1 e1. run_append ts us s1 s' e1)

  run-Leaves :
      (ts : List Choice) (s : Shared) (m w : Place) (n : ℕ)
      → IsValid c s m w
      → left c s m w ≤ n
      → Leaves c n (run c (pair s m w) ts)
  unfolding run
  run-Leaves [] s m w n v bound = (s, m, w, refl, v, bound)
  run-Leaves (t ∷ ts) s m w n v bound =
      let (s1, m1, w1, e1, v1, bound1) = step-Leaves t s m w n v bound in
      let (s2, m2, w2, e2, v2, bound2) = run-Leaves ts s1 m1 w1 n v1 bound1 in
      (s2, m2, w2, rw (e1) e2, v2, bound2)

  sweeps-Leaves :
      (n : ℕ) (s : Shared) (m w : Place)
      → 0 < c.max_buf_size
      → IsValid c s m w
      → left c s m w ≤ n
      → Leaves c 0 (run c (pair s m w) (sweeps n))
  unfolding run
  sweeps-Leaves zero s m w room v bound = (s, m, w, refl, v, bound)
  sweeps-Leaves (suc n) s m w room v bound =
      let (s1, m1, w1, e1, v1, bound1) = sweep-Leaves s m w n room v bound in
      let (s2, m2, w2, e2, v2, bound2) = sweeps-Leaves n s1 m1 w1 room v1 bound1 in
      (s2, m2, w2, run_append sweep (sweeps n) (pair s m w) (pair s1 m1 w1) e1 ∙ e2, v2, bound2)

  start_one :
      (buffer : List ℕ)
      → c.num_masters ≡ 1
      → c.num_workers ≡ 1
      → start c buffer
        ≡ pair
            (record { buffer = buffer; curr_buf_size = 0; item_to_produce = 0; consumed = [] })
            at_lock
            at_lock
  unfolding start
  start_one buffer one_master one_worker = rw (one_master, one_worker) refl

rank_zero : (p : Place) → rank p ≤ 0 → p ≡ returned
rank_zero returned h = refl
rank_zero at_lock h = absurd (omega arith)
rank_zero in_wait h = absurd (omega arith)
rank_zero signalled h = absurd (omega arith)

-- Valid with nothing left to do: both have returned and each item has been consumed once.
nothing_left :
    (c : Config) (s : Shared) (m w : Place)
    → IsValid c s m w
    → left c s m w ≤ 0
    → (m ≡ returned)
      × (w ≡ returned)
      × ((x : ℕ) → occurs x s.consumed ≡ (if ltb x c.total_items then 1 else 0))
nothing_left c s m w v bound =
    let over : m ≡ returned = rank_zero m (omega arith) in
    let all : s.item_to_produce ≡ c.total_items = subst (OfMaster c s) over v.of_master in
    let empty : s.curr_buf_size ≡ 0 = omega arith in
    (
      over,
      rank_zero w (omega arith),
      λ x. let once = rw (empty, all) at (v.holds.once x) in omega (arith, once),
    )

-- With one master, one worker and room for at least one item, after every schedule in which waits end only by a signal,
-- once both threads have run 6 * total_items + 4 times more in turn, both have returned, and the items printed as
-- consumed are 0 to total_items - 1, each once.
pub pair_completes :
    (c : Config) (buffer : List ℕ) (ts : List Choice)
    → length buffer ≡ c.max_buf_size
    → 0 < c.max_buf_size
    → c.num_masters ≡ 1
    → c.num_workers ≡ 1
    → (s : Crew) × (run c (start c buffer) (ts ++ sweeps c (6 * c.total_items + 4)) ≡ some s)
      × (s.masters ≡ returned ∷ [])
      × (s.workers ≡ returned ∷ [])
      × ((x : ℕ) → occurs x s.shared.consumed ≡ (if ltb x c.total_items then 1 else 0))
pair_completes c buffer ts sized room one_master one_worker =
    let first : Shared = record {
      buffer = buffer;
      curr_buf_size = 0;
      item_to_produce = 0;
      consumed = [];
    } in
    let bound = 6 * c.total_items + 4 in
    let v : IsValid c first at_lock at_lock = record {
      holds = record { room = sized; fits = omega arith; once = λ x. ground arith };
      of_master = omega arith;
      of_worker = tt;
    } in
    let (s1, m1, w1, e1, v1, bound1) =
      run-Leaves c ts first at_lock at_lock bound v (omega arith) in
    let (s2, m2, w2, e2, v2, bound2) = sweeps-Leaves c bound s1 m1 w1 room v1 bound1 in
    let (over, done, all) = nothing_left c s2 m2 w2 v2 bound2 in
    (
      pair s2 m2 w2,
      rw (start_one c buffer one_master one_worker)
          (run_append c ts (sweeps c bound) (pair first at_lock at_lock) (pair s1 m1 w1) e1 ∙ e2),
      ap (λ (p : Place). p ∷ []) over,
      ap (λ (p : Place). p ∷ []) done,
      all,
    )
