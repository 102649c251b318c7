-- ===== src/Warmup/Counter/Increments.antt =====
-- The invariant of pthreads-sync-code/warmup_ex/ex1.c.
use os333_iit_bombay_labs.Prelude.{
  ℕ, zero, suc, ◌+◌, ◌<◌, ◌≡◌, ◌≢◌, ◌⊎◌, inl, inr, refl, ap, ◌∙◌, sym, Bool, true, false, List, [],
  ◌∷◌, length, get_or, set, ltb, arith, dec_lt, Bool-cases, length-set, get_or_beyond, replicate,
}
use os333_iit_bombay_labs.Threads.{tally, tally-set, tally_ge, tally_two, set-all}
use os333_iit_bombay_labs.Warmup.Counter.{
  num_threads, iterations, Place, at_lock, at_read, at_write, at_unlock, returned, Worker, Counter,
  gone, start, increment_func, step, run,
}

-- 1 for a thread between its lock and its unlock.
abbrev pub holds_at : Place → ℕ
holds_at at_lock = 0
holds_at at_read = 1
holds_at (at_write read) = 1
holds_at at_unlock = 1
holds_at returned = 0

abbrev pub holds : Worker → ℕ
holds w = holds_at w.place

-- The increments that a thread has made.
abbrev pub made_at : Place → ℕ → ℕ
made_at at_lock rounds = rounds
made_at at_read rounds = rounds
made_at (at_write read) rounds = rounds
made_at at_unlock rounds = rounds + 1
made_at returned rounds = rounds

abbrev pub made : Worker → ℕ
made w = made_at w.place w.rounds

-- What a thread has read is still there, and the loop ends at its bound.
abbrev pub IsCurrentAt : Place → ℕ → ℕ → Type 0
IsCurrentAt at_lock rounds global = rounds < iterations
IsCurrentAt at_read rounds global = rounds < iterations
IsCurrentAt (at_write read) rounds global = (read ≡ global) × (rounds < iterations)
IsCurrentAt at_unlock rounds global = rounds < iterations
IsCurrentAt returned rounds global = rounds ≡ iterations

abbrev pub IsCurrent : ℕ → Worker → Type 0
IsCurrent global w = IsCurrentAt w.place w.rounds global

abbrev pub bit : Bool → ℕ
bit true = 1
bit false = 0

pub record IsValid (s : Counter) : Type 0 where
  pub all_threads : length s.workers ≡ num_threads
  pub one_holder : tally holds s.workers + bit s.mutex_free ≡ 1
  pub none_lost : s.global ≡ tally made s.workers
  pub current : (i : ℕ) → IsCurrent s.global (get_or s.workers i gone)

replicate-all :
    {A : Type 0} (P : A → Type 0) (n : ℕ) (a d : A)
    → P a
    → P d
    → (i : ℕ) → P (get_or (replicate n a) i d)
replicate-all P zero a d ha hd i = hd
replicate-all P (suc n) a d ha hd zero = ha
replicate-all P (suc n) a d ha hd (suc i) = replicate-all P n a d ha hd i

pub start-IsValid : IsValid start
unfolding start
start-IsValid = record {
  all_threads = refl;
  one_holder = refl;
  none_lost = refl;
  current =
      replicate-all (λ w. IsCurrent 0 w) num_threads (record { place = at_lock; rounds = 0 }) gone
        (omega arith) refl;
}

-- A thread that does not hold the mutex has read nothing.
other-IsCurrent :
    (global global' : ℕ) (place : Place) (rounds : ℕ)
    → holds_at place ≡ 0
    → IsCurrentAt place rounds global
    → IsCurrentAt place rounds global'
other-IsCurrent global global' at_lock rounds h k = k
other-IsCurrent global global' at_read rounds h k = k
other-IsCurrent global global' (at_write read) rounds h k = absurd (omega arith)
other-IsCurrent global global' at_unlock rounds h k = k
other-IsCurrent global global' returned rounds h k = k

module _ (s : Counter) (v : IsValid s) (i : ℕ) (less : i < length s.workers) where
  untouched :
      (old : Worker) (global : ℕ)
      → get_or s.workers i gone ≡ old
      → holds old ≡ 1
      → (j : ℕ) → i ≢ j
      → IsCurrent global (get_or s.workers j gone)
  untouched old global e mine j ne =
      let held : holds (get_or s.workers i gone) ≡ 1 = ap holds e ∙ mine in
      elim (dec_lt j (length s.workers)) [
        | yes here ↦
            let w = get_or s.workers j gone in
            let free : holds w ≡ 0 =
              omega (arith, held, v.one_holder, tally_two gone holds s.workers i j less here ne) in
            other-IsCurrent s.global global w.place w.rounds free (v.current j)
        | no beyond ↦ rw (get_or_beyond s.workers j gone (omega arith)) refl
      ]

  -- One thread moves.
  moved-IsValid :
      (old new : Worker) (global : ℕ) (free : Bool)
      → get_or s.workers i gone ≡ old
      → holds new + bit free ≡ holds old + bit s.mutex_free
      → global + made old ≡ s.global + made new
      → IsCurrent global new
      → (global ≡ s.global) ⊎ (holds old ≡ 1)
      → IsValid (record { global = global; mutex_free = free; workers = set s.workers i new })
  moved-IsValid old new global free e holder increments now other =
      let held : holds (get_or s.workers i gone) ≡ holds old = ap holds e in
      let counted : made (get_or s.workers i gone) ≡ made old = ap made e in
      record {
        all_threads = length-set s.workers i new ∙ v.all_threads;
        one_holder = omega (arith, v.one_holder, tally-set gone holds s.workers i new less);
        none_lost = omega (arith, v.none_lost, tally-set gone made s.workers i new less);
        current =
            set-all (λ j w. IsCurrent global w) s.workers i new gone less now
              (λ j ne. elim other [
                | inl same ↦ rw (same) (v.current j)
                | inr mine ↦ untouched old global e mine j ne
              ]);
      }

  increment_func-IsValid :
      (place : Place) (rounds : ℕ)
      → get_or s.workers i gone ≡ record { place = place; rounds = rounds }
      → IsCurrent s.global (record { place = place; rounds = rounds })
      → IsValid (increment_func place rounds i s)
  unfolding increment_func
  increment_func-IsValid at_lock rounds e now = elim (Bool-cases s.mutex_free) [
    | inl free ↦
        let bits : 1 ≡ bit s.mutex_free = sym (ap bit free) in
        rw (free) (
          moved-IsValid _ (record { place = at_read; rounds = rounds }) s.global false e
            (omega (arith, bits)) refl now (inl refl))
    | inr taken ↦ simp (taken) v
  ]
  increment_func-IsValid at_read rounds e now =
      moved-IsValid _ (record { place = at_write s.global; rounds = rounds }) s.global s.mutex_free
        e refl refl (refl, now) (inl refl)
  increment_func-IsValid (at_write read) rounds e now =
      moved-IsValid _ (record { place = at_unlock; rounds = rounds }) (read + 1) s.mutex_free e refl
        (omega (arith, now.0)) now.1 (inr refl)
  increment_func-IsValid at_unlock rounds e now =
      let held : holds (get_or s.workers i gone) ≡ 1 = ap holds e in
      let taken : 1 ≡ 1 + bit s.mutex_free =
        omega (arith, held, v.one_holder, tally_ge gone holds s.workers i less) in
      elim (Bool-cases (ltb (rounds + 1) iterations)) [
        | inl more ↦ rw (more) (
            moved-IsValid _ (record { place = at_lock; rounds = rounds + 1 }) s.global true e taken
              (omega arith) (ground arith) (inl refl))
        | inr last ↦ rw (last) (
            moved-IsValid _ (record { place = returned; rounds = rounds + 1 }) s.global true e taken
              (omega arith) (ground arith) (inl refl))
      ]
  increment_func-IsValid returned rounds e now = v

pub step-IsValid : (i : ℕ) (s : Counter) → IsValid s → IsValid (step i s)
unfolding step increment_func
step-IsValid i s v = elim (dec_lt i (length s.workers)) [
  | yes less ↦
      let w = get_or s.workers i gone in
      increment_func-IsValid s v i less w.place w.rounds refl (v.current i)
  | no beyond ↦ rw (get_or_beyond s.workers i gone (omega arith)) v
]

pub run-IsValid : (schedule : List ℕ) (s : Counter) → IsValid s → IsValid (run schedule s)
unfolding run
run-IsValid [] s v = v
run-IsValid (i ∷ schedule) s v = run-IsValid schedule (step i s) (step-IsValid i s v)
