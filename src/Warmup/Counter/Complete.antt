-- ===== src/Warmup/Counter/Complete.antt =====
-- The end of pthreads-sync-code/warmup_ex/ex1.c.
use mathlib.Core.Path.{subst}
use os333_iit_bombay_labs.Prelude.{
  ℕ, zero, suc, ◌+◌, ◌-◌, ◌*◌, ◌≤◌, ◌<◌, ◌≡◌, ◌⊎◌, inl, inr, refl, ap, ◌∙◌, sym, Bool, true, false,
  none, some, List, [], ◌∷◌, ◌++◌, length, get_or, set, ltb, arith, if◌then◌else◌, dec_lt,
  Bool-cases, All, All-split, get_or_beyond,
}
use os333_iit_bombay_labs.Threads.{tally, tally-set, tally_zero}
use os333_iit_bombay_labs.Threads.Sweeps.{moves, moves-append, sweeps, sweeps-Quiet}
use os333_iit_bombay_labs.Turns.{up_to}
use os333_iit_bombay_labs.Warmup.Counter.{
  num_threads, iterations, Place, at_lock, at_read, at_write, at_unlock, returned, Worker, Counter,
  gone, start, increment_func, step, run, all_joined, final_value,
}
use os333_iit_bombay_labs.Warmup.Counter.Totals.{printed_number}
use os333_iit_bombay_labs.Warmup.Counter.Increments.{
  holds, bit, IsCurrentAt, IsValid, start-IsValid, step-IsValid, run-IsValid,
}

-- The moves that a thread still has to make.
abbrev left_at : Place → ℕ → ℕ
left_at at_lock rounds = 4 * (iterations - rounds)
left_at at_read rounds = 4 * (iterations - rounds) - 1
left_at (at_write read) rounds = 4 * (iterations - rounds) - 2
left_at at_unlock rounds = 4 * (iterations - rounds) - 3
left_at returned rounds = 0

abbrev left : Worker → ℕ
left w = left_at w.place w.rounds

abbrev all_left : Counter → ℕ
all_left s = tally left s.workers

-- Outside the critical section, and at the mutex only while it is taken.
abbrev Blocked : ℕ → Counter → Type 0
Blocked i s =
    let w = get_or s.workers i gone in (holds w ≡ 0) × (s.mutex_free ≡ true → w.place ≡ returned)

module _ (s : Counter) (i : ℕ) (less : i < length s.workers) where
  one_less :
      (old new : Worker)
      → get_or s.workers i gone ≡ old
      → left new < left old
      → tally left (set s.workers i new) < tally left s.workers
  one_less old new e fewer =
      omega (arith, fewer, ap left e, tally-set gone left s.workers i new less)

  moves_on :
      (place : Place) (rounds : ℕ)
      → get_or s.workers i gone ≡ record { place = place; rounds = rounds }
      → IsCurrentAt place rounds s.global
      → ((increment_func place rounds i s ≡ s) × Blocked i s)
        ⊎ (all_left (increment_func place rounds i s) < all_left s)
  unfolding increment_func
  moves_on at_lock rounds e now = elim (Bool-cases s.mutex_free) [
    | inl free ↦
        inr (simp (free) (one_less _ (record { place = at_read; rounds = rounds }) e (omega arith)))
    | inr taken ↦
        inl (simp (taken) refl, (ap holds e, λ free. absurd (ground (arith, taken, free))))
  ]
  moves_on at_read rounds e now =
      inr (one_less _ (record { place = at_write s.global; rounds = rounds }) e (omega arith))
  moves_on (at_write read) rounds e now =
      inr (one_less _ (record { place = at_unlock; rounds = rounds }) e (omega (arith, now.1)))
  moves_on at_unlock rounds e now = elim (Bool-cases (ltb (rounds + 1) iterations)) [
    | inl more ↦
        inr
          (rw (more) (one_less _ (record { place = at_lock; rounds = rounds + 1 }) e (omega arith)))
    | inr last ↦
        inr (
          rw (last) (one_less _ (record { place = returned; rounds = rounds + 1 }) e (omega arith)))
  ]
  moves_on returned rounds e now = inl (refl, (ap holds e, λ free. ap (λ (w : Worker). w.place) e))

step_moves :
    (i : ℕ) (s : Counter)
    → IsValid s
    → ((step i s ≡ s) × Blocked i s) ⊎ (all_left (step i s) < all_left s)
unfolding step increment_func
step_moves i s v = elim (dec_lt i (length s.workers)) [
  | yes less ↦
      let w = get_or s.workers i gone in moves_on s i less w.place w.rounds refl (v.current i)
  | no beyond ↦ rw (get_or_beyond s.workers i gone (omega arith)) (inl (refl, (refl, λ free. refl)))
]

run-moves : (schedule : List ℕ) (s : Counter) → run schedule s ≡ moves step schedule s
unfolding run
run-moves [] s = refl
run-moves (i ∷ schedule) s = run-moves schedule (step i s)

all_joined-returned :
    (workers : List Worker)
    → ((i : ℕ) → i < length workers → (get_or workers i gone).place ≡ returned)
    → all_joined workers ≡ true
unfolding all_joined
all_joined-returned [] h = refl
all_joined-returned (w ∷ workers) h =
    rw (h 0 (omega arith), all_joined-returned workers (λ i less. h (suc i) (omega arith))) refl

free_of : (b : Bool) → bit b ≡ 1 → b ≡ true
free_of true h = refl
free_of false h = absurd (omega arith)

All_up_to : (P : ℕ → Type 0) (n : ℕ) → All P (up_to n) → (i : ℕ) → i < n → P i
All_up_to P zero h i less = absurd (omega arith)
All_up_to P (suc n) h i less =
    let (before, now) = All-split P (up_to n) (n ∷ []) h in
    elim (dec_lt i n) [
      | yes earlier ↦ All_up_to P n before i earlier
      | no there ↦ let same : n ≡ i = omega arith in subst P same now.0
    ]

-- Where all are blocked, all have returned.
quiet-returned :
    (s : Counter)
    → IsValid s
    → ((i : ℕ) → i < num_threads → Blocked i s)
    → all_joined s.workers ≡ true
quiet-returned s v h =
    let outside : (i : ℕ) → holds (get_or s.workers i gone) ≡ 0 = λ i. elim (dec_lt i num_threads) [
      | yes less ↦ (h i less).0
      | no beyond ↦ ap holds (get_or_beyond s.workers i gone (omega (arith, v.all_threads)))
    ] in
    let nobody : tally holds s.workers ≡ 0 = tally_zero gone holds s.workers outside in
    let free : s.mutex_free ≡ true = free_of s.mutex_free (omega (arith, nobody, v.one_holder)) in
    all_joined-returned s.workers (λ i less. (h i (omega (arith, v.all_threads))).1 free)

left_at_most : (place : Place) (rounds : ℕ) → left_at place rounds ≤ 4 * iterations
left_at_most at_lock rounds = omega arith
left_at_most at_read rounds = omega arith
left_at_most (at_write read) rounds = omega arith
left_at_most at_unlock rounds = omega arith
left_at_most returned rounds = omega arith

all_left_at_most : (workers : List Worker) → tally left workers ≤ length workers * (4 * iterations)
all_left_at_most [] = omega arith
all_left_at_most (w ∷ workers) =
    omega (arith, left_at_most w.place w.rounds, all_left_at_most workers)

-- Enough sweeps for ten threads with 100,000 rounds of four moves each.
abbrev pub closing : List ℕ
closing = sweeps 4000000 (up_to num_threads)

Ends : Counter → Type 0
Ends s = (all_joined s.workers ≡ true) × (final_value s ≡ some 1000000)

closing-Ends : (s : Counter) → IsValid s → Ends (moves step closing s)
unfolding Ends
closing-Ends s valid =
    let last = moves step closing s in
    let enough : all_left s ≤ 4000000 =
      omega (arith, valid.all_threads, all_left_at_most s.workers) in
    let (v, quiet) =
      sweeps-Quiet step IsValid Blocked all_left step-IsValid step_moves 4000000 (up_to num_threads)
        s valid enough in
    let blocked : (i : ℕ) → i < num_threads → Blocked i last = λ i less.
      (All_up_to (λ j. (step j last ≡ last) × Blocked j last) num_threads quiet i less).1 in
    let joined = quiet-returned last v blocked in
    (joined, printed_number last v ∙ ap (λ b. if b then some 1000000 else none) joined)

-- After every schedule, once the ten threads have been scheduled in turns often enough, all of them are joined, and
-- `main` prints 1,000,000.
pub all_join :
    (schedule : List ℕ)
    → (all_joined (run (schedule ++ closing) start).workers ≡ true)
      × (final_value (run (schedule ++ closing) start) ≡ some 1000000)
unfolding Ends
all_join schedule =
    let before = run schedule start in
    let same : moves step closing before ≡ run (schedule ++ closing) start =
      ap (moves step closing) (run-moves schedule start)
      ∙ sym (moves-append step schedule closing start)
      ∙ sym (run-moves (schedule ++ closing) start) in
    subst Ends same (closing-Ends before (run-IsValid schedule start start-IsValid))
