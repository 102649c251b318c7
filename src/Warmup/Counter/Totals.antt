-- ===== src/Warmup/Counter/Totals.antt =====
-- The number that pthreads-sync-code/warmup_ex/ex1.c counts to.
use os333_iit_bombay_labs.Prelude.{
  ℕ, suc, ◌*◌, ◌≤◌, ◌≡◌, inl, inr, refl, ap, true, none, some, List, [], ◌∷◌, length, get_or, arith,
  if◌then◌else◌, Bool-cases,
}
use os333_iit_bombay_labs.Threads.{tally}
use os333_iit_bombay_labs.Warmup.Counter.{
  iterations, Place, at_lock, at_read, at_write, at_unlock, returned, Worker, Counter, gone, start,
  run, all_joined, final_value,
}
use os333_iit_bombay_labs.Warmup.Counter.Increments.{
  holds, made_at, made, IsCurrentAt, IsCurrent, IsValid, start-IsValid, run-IsValid,
}

made_by_joined :
    (place : Place) (rounds global : ℕ) (workers : List Worker)
    → all_joined (record { place = place; rounds = rounds } ∷ workers) ≡ true
    → IsCurrentAt place rounds global
    → (made_at place rounds ≡ iterations) × (all_joined workers ≡ true)
unfolding all_joined
made_by_joined at_lock rounds global workers h now = absurd (ground (arith, h))
made_by_joined at_read rounds global workers h now = absurd (ground (arith, h))
made_by_joined (at_write read) rounds global workers h now = absurd (ground (arith, h))
made_by_joined at_unlock rounds global workers h now = absurd (ground (arith, h))
made_by_joined returned rounds global workers h now = (now, h)

made_by_all :
    (global : ℕ) (workers : List Worker)
    → all_joined workers ≡ true
    → ((i : ℕ) → IsCurrent global (get_or workers i gone))
    → tally made workers ≡ length workers * iterations
made_by_all global [] h now = refl
made_by_all global (w ∷ workers) h now =
    let (one, others) = made_by_joined w.place w.rounds global workers h (now 0) in
    omega (arith, one, made_by_all global workers others (λ i. now (suc i)))

made_at_most :
    (place : Place) (rounds global : ℕ)
    → IsCurrentAt place rounds global
    → made_at place rounds ≤ iterations
made_at_most at_lock rounds global now = omega arith
made_at_most at_read rounds global now = omega arith
made_at_most (at_write read) rounds global now = omega (arith, now.1)
made_at_most at_unlock rounds global now = omega arith
made_at_most returned rounds global now = omega arith

made_in_all :
    (global : ℕ) (workers : List Worker)
    → ((i : ℕ) → IsCurrent global (get_or workers i gone))
    → tally made workers ≤ length workers * iterations
made_in_all global [] now = omega arith
made_in_all global (w ∷ workers) now = omega (
  arith,
  made_at_most w.place w.rounds global (now 0),
  made_in_all global workers (λ i. now (suc i)),
)

pub printed_number :
    (s : Counter)
    → IsValid s
    → final_value s ≡ (if all_joined s.workers then some 1000000 else none)
unfolding final_value
printed_number s v = elim (Bool-cases (all_joined s.workers)) [
  | inl joined ↦
      let everyone = made_by_all s.global s.workers joined v.current in
      let all : s.global ≡ 1000000 = omega (arith, v.none_lost, v.all_threads, everyone) in
      rw (joined) (ap some all)
  | inr running ↦ rw (running) refl
]

-- Under every schedule at most one thread is between its lock and its unlock, `global` is the number of increments the
-- threads have made and at most 1,000,000, and what `main` prints, once every thread is joined, is 1,000,000.
pub increments_kept :
    (schedule : List ℕ)
    → (tally holds (run schedule start).workers ≤ 1)
      × ((run schedule start).global ≡ tally made (run schedule start).workers)
      × ((run schedule start).global ≤ 1000000)
      × (final_value (run schedule start)
          ≡ (if all_joined (run schedule start).workers then some 1000000 else none))
increments_kept schedule =
    let s = run schedule start in
    let v = run-IsValid schedule start start-IsValid in
    (
      omega (arith, v.one_holder),
      v.none_lost,
      omega (arith, v.none_lost, v.all_threads, made_in_all s.global s.workers v.current),
      printed_number s v,
    )
