-- ===== src/Turns/Order.antt =====
-- The order in which the threads of pthreads-sync-code/warmup_ex/ex3.c and ex4.c print, and their end.
use mathlib.Core.Option
use os333_iit_bombay_labs.Prelude.{
  ℕ, zero, suc, ◌+◌, ◌≤◌, ◌<◌, ◌≡◌, refl, sym, ◌∙◌, ap, ◌≢◌, ◌⊎◌, inl, inr, true, some, List, [],
  ◌∷◌, ◌++◌, length, get_or, set, replicate, ltb, ◌==◌, arith, Bool-cases, Option-cases, dec_lt,
  length-set, get_or-set, get_or-replicate, get_or_beyond, get_or-map, length-map, get_or-set_ne,
}
use os333_iit_bombay_labs.Threads.{Phase, at_lock, in_wait, returned}
use os333_iit_bombay_labs.Turns.{
  num_threads, Turns, start, awakened, broadcast, take_turn, routine, run, all_joined, rounds,
  up_to,
}

-- The threads before `turn` have printed and returned, the others have not, and the one whose turn it is does not wait.
record IsValid (s : Turns) : Type 0 where
  all_threads : length s.threads ≡ num_threads
  in_order : s.printed ≡ up_to s.turn
  bounded : s.turn ≤ num_threads
  gone : (i : ℕ) → i < s.turn → get_or s.threads i returned ≡ returned
  here : (i : ℕ) → s.turn ≤ i → i < num_threads → get_or s.threads i returned ≢ returned
  awake : s.turn < num_threads → get_or s.threads s.turn returned ≢ in_wait

start-IsValid : IsValid start
unfolding start
start-IsValid = record {
  all_threads = refl;
  in_order = refl;
  bounded = omega arith;
  gone = λ i h. absurd (omega arith);
  here = λ i h less. ground (arith, get_or-replicate num_threads i at_lock returned);
  awake = λ less e. ground (arith, e);
}

get_or-broadcast :
    (ps : List Phase) (i : ℕ) → get_or (broadcast ps) i returned ≡ awakened (get_or ps i returned)
unfolding broadcast
get_or-broadcast ps i = get_or-map awakened ps i returned

length-broadcast : (ps : List Phase) → length (broadcast ps) ≡ length ps
unfolding broadcast
length-broadcast ps = length-map awakened ps

awakened_returned : (p : Phase) → awakened p ≡ returned → p ≡ returned
awakened_returned at_lock e = absurd (ground (arith, e))
awakened_returned in_wait e = absurd (ground (arith, e))
awakened_returned returned e = refl

awakened_awake : (p : Phase) → awakened p ≢ in_wait
awakened_awake at_lock e = ground (arith, e)
awakened_awake in_wait e = ground (arith, e)
awakened_awake returned e = ground (arith, e)

-- The thread whose turn it is prints, returns, and wakes the others.
prints-IsValid :
    (s : Turns)
    → IsValid s
    → s.turn < num_threads
    → IsValid (record {
      turn = s.turn + 1;
      printed = s.printed ++ s.turn ∷ [];
      threads = broadcast (set s.threads s.turn returned);
    })
prints-IsValid s v less =
    let there : s.turn < length s.threads = omega (arith, v.all_threads) in
    let ps = set s.threads s.turn returned in
    record {
      all_threads = length-broadcast ps ∙ length-set s.threads s.turn returned ∙ v.all_threads;
      in_order = ground (arith, v.in_order);
      bounded = omega arith;
      gone = λ i h.
          let before : get_or ps i returned ≡ returned =
            ground (arith, v.gone i, get_or-set s.threads s.turn i returned returned there) in
          get_or-broadcast ps i ∙ ap awakened before;
      here = λ i h below e. v.here i (omega arith) below (
          sym (get_or-set_ne s.threads s.turn i returned returned (λ q. omega (arith, q, h)))
          ∙ awakened_returned (get_or ps i returned) (sym (get_or-broadcast ps i) ∙ e));
      awake = λ below e.
          awakened_awake (get_or ps (s.turn + 1) returned)
            (sym (get_or-broadcast ps (s.turn + 1)) ∙ e);
    }

-- A thread whose turn it is not waits.
waits-IsValid :
    (index : ℕ) (s : Turns)
    → IsValid s
    → index < num_threads
    → get_or s.threads index returned ≢ returned
    → index ≢ s.turn
    → IsValid (record s { threads = set s.threads index in_wait })
waits-IsValid index s v less active other =
    let behind : s.turn ≤ index = ground (arith, v.gone index) in
    let there : index < length s.threads = omega (arith, v.all_threads) in
    record {
      all_threads = length-set s.threads index in_wait ∙ v.all_threads;
      in_order = v.in_order;
      bounded = v.bounded;
      gone = λ i h. ground (arith, v.gone i, get_or-set s.threads index i in_wait returned there);
      here = λ i h below.
          ground (arith, v.here i, get_or-set s.threads index i in_wait returned there);
      awake = λ below e.
          v.awake below (sym (get_or-set_ne s.threads index s.turn in_wait returned other) ∙ e);
    }

take_turn-IsValid :
    (index : ℕ) (s : Turns)
    → IsValid s
    → index < num_threads
    → get_or s.threads index returned ≢ returned
    → IsValid (take_turn index s)
unfolding take_turn
take_turn-IsValid index s v less active = elim (Bool-cases (index == s.turn)) [
  | inl now ↦
      let same : index ≡ s.turn = ground arith in
      rw (now, same) (prints-IsValid s v (omega (arith, same)))
  | inr later ↦ rw (later) (waits-IsValid index s v less active (λ e. ground (arith, e, later)))
]

active : (i : ℕ) (s : Turns) → get_or s.threads i returned ≡ at_lock → routine i s ≡ take_turn i s
unfolding routine
active i s e = rw (e, routine) refl

idle : (i : ℕ) (s : Turns) → get_or s.threads i returned ≢ at_lock → routine i s ≡ s
unfolding routine
idle i s h = split (get_or s.threads i returned) h
  where
    split :
        (p : Phase)
        → p ≢ at_lock
        → (elim p [ at_lock ↦ take_turn i s | in_wait ↦ s | returned ↦ s ]) ≡ s
    split at_lock ne = absurd (ne refl)
    split in_wait ne = refl
    split returned ne = refl

Phase-cases : (p : Phase) → (p ≡ at_lock) ⊎ (p ≢ at_lock)
Phase-cases at_lock = inl refl
Phase-cases in_wait = inr (λ e. ground arith)
Phase-cases returned = inr (λ e. ground arith)

at_lock_of : (p : Phase) → p ≢ returned → p ≢ in_wait → p ≡ at_lock
at_lock_of at_lock a b = refl
at_lock_of in_wait a b = absurd (b refl)
at_lock_of returned a b = absurd (a refl)

lock_returned : (p : Phase) → p ≡ at_lock → p ≢ returned
lock_returned p e k = ground (arith, e, k)

routine-IsValid : (i : ℕ) (s : Turns) → IsValid s → IsValid (routine i s)
routine-IsValid i s v = elim (Phase-cases (get_or s.threads i returned)) [
  | inr elsewhere ↦ rw (idle i s elsewhere) v
  | inl lock ↦
      let here = lock_returned (get_or s.threads i returned) lock in
      elim (Bool-cases (ltb i num_threads)) [
        | inl less ↦ rw (active i s lock) (take_turn-IsValid i s v (ground arith) here)
        | inr over ↦
            absurd (here (get_or_beyond s.threads i returned (ground (arith, v.all_threads))))
      ]
]

run-IsValid : (schedule : List ℕ) (s : Turns) → IsValid s → IsValid (run schedule s)
unfolding run
run-IsValid [] s v = v
run-IsValid (i ∷ schedule) s v = run-IsValid schedule (routine i s) (routine-IsValid i s v)

run-append : (a b : List ℕ) (s : Turns) → run (a ++ b) s ≡ run b (run a s)
unfolding run
run-append [] b s = refl
run-append (i ∷ a) b s = run-append a b (routine i s)

all_joined_lem : (ps : List Phase) (i : ℕ) → all_joined ps ≡ true → get_or ps i returned ≡ returned
unfolding all_joined
all_joined_lem [] i h = refl
all_joined_lem (returned ∷ ps) zero h = refl
all_joined_lem (returned ∷ ps) (suc i) h = all_joined_lem ps i h
all_joined_lem (at_lock ∷ ps) i h = ground arith
all_joined_lem (in_wait ∷ ps) i h = ground arith

joined_all :
    (ps : List Phase)
    → ((i : ℕ) → i < length ps → get_or ps i returned ≡ returned)
    → all_joined ps ≡ true
unfolding all_joined
joined_all [] h = refl
joined_all (returned ∷ ps) h = joined_all ps (λ i less. h (suc i) (omega arith))
joined_all (at_lock ∷ ps) h = absurd (let e = h 0 (omega arith) in ground arith)
joined_all (in_wait ∷ ps) h = absurd (let e = h 0 (omega arith) in ground arith)

-- The thread whose turn it is, when it runs, ends its turn.
turn-routine :
    (i : ℕ) (s : Turns) → IsValid s → i < num_threads → i ≤ s.turn → i + 1 ≤ (routine i s).turn
unfolding take_turn
turn-routine i s v less h = elim (Bool-cases (i == s.turn)) [
  | inl now ↦
      let same : i ≡ s.turn = ground arith in
      let lock =
        at_lock_of (get_or s.threads s.turn returned)
          (v.here s.turn (omega arith) (omega (arith, same))) (v.awake (omega (arith, same))) in
      let mine : get_or s.threads i returned ≡ at_lock =
        ap (λ k. get_or s.threads k returned) same ∙ lock in
      rw (active i s mine, now) (ground arith)
  | inr before ↦
      let gone = v.gone i (ground arith) in
      rw (idle i s (λ e. lock_returned (get_or s.threads i returned) e gone)) (ground arith)
]

turn-run : (n : ℕ) (s : Turns) → IsValid s → n ≤ num_threads → n ≤ (run (up_to n) s).turn
unfolding run
turn-run zero s v h = omega arith
turn-run (suc n) s v h =
    let before = run (up_to n) s in
    rw (run-append (up_to n) (n ∷ []) s) (
      omega (
        arith,
        turn-routine n before (run-IsValid (up_to n) s v) (omega arith)
            (turn-run n s v (omega arith)),
      ))

-- After every schedule in which waits end only by a broadcast, if each thread runs once more in the order of the
-- indices, all threads have returned, and 0 to 9 have been printed in this order.
pub run_completes :
    (schedule : List ℕ)
    → (all_joined (run (schedule ++ up_to num_threads) start).threads ≡ true)
      × ((run (schedule ++ up_to num_threads) start).printed ≡ up_to num_threads)
run_completes schedule =
    let v = run-IsValid schedule start start-IsValid in
    let w = run-IsValid (up_to num_threads) (run schedule start) v in
    let reached = turn-run num_threads (run schedule start) v (omega arith) in
    let whole : (run (up_to num_threads) (run schedule start)).turn ≡ num_threads =
      omega (arith, w.bounded) in
    rw (run-append schedule (up_to num_threads) start) (
      joined_all _ (λ i less. w.gone i (omega (arith, w.all_threads))),
      w.in_order ∙ ap up_to whole,
    )

-- A round that has ended has printed all.
joined_printed :
    (schedule : List ℕ)
    → all_joined (run schedule start).threads ≡ true
    → (run schedule start).printed ≡ up_to num_threads
joined_printed schedule joined =
    let s = run schedule start in
    let v = run-IsValid schedule start start-IsValid in
    let whole : s.turn ≡ num_threads = elim (dec_lt s.turn num_threads) [
      | yes less ↦
          absurd (v.here s.turn (omega arith) less (all_joined_lem s.threads s.turn joined))
      | no over ↦ omega (arith, v.bounded)
    ] in
    v.in_order ∙ ap up_to whole

-- If every round of ex4.c ends, each round prints 0 to 9 in this order.
pub rounds_in_order :
    (schedules lines : List (List ℕ))
    → rounds schedules ≡ some lines
    → lines ≡ replicate (length schedules) (up_to num_threads)
unfolding rounds
rounds_in_order [] lines e = ground arith
rounds_in_order (schedule ∷ schedules) lines e =
    elim (Bool-cases (all_joined (run schedule start).threads)) [
      | inl joined ↦ elim (Option-cases (rounds schedules)) [
        | inl stuck ↦ absurd (Option.none-ne-some lines (rw (joined, stuck) at e))
        | inr (more, e') ↦
            let here = joined_printed schedule joined in
            let rest = rounds_in_order schedules more e' in
            sym (Option.some-injective _ lines (rw (joined, e', here, rest) at e))
      ]
      | inr open_round ↦ absurd (Option.none-ne-some lines (rw (open_round) at e))
    ]
