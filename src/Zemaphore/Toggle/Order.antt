-- ===== src/Zemaphore/Toggle/Order.antt =====
-- Every schedule of pthreads-sync-code/zemaphore/test-toggle.c prints in turn, and comes to an end.
use mathlib.Core.Path.{subst}
use os333_iit_bombay_labs.Prelude.{
  ℕ, zero, suc, ◌+◌, ◌/◌, ◌%◌, ◌≤◌, ◌<◌, ◌≡◌, ◌⊎◌, inl, inr, refl, sym, ap, ◌∙◌, Bool, true, false,
  List, [], ◌∷◌, ◌++◌, get_or, replicate, ◌==◌, arith, get_or_beyond, dec_lt,
}
use os333_iit_bombay_labs.Prelude.Int.{ℤ, pos}
use os333_iit_bombay_labs.Zemaphore.Toggle.{
  num_threads, num_iter, Place, at_down, in_wait, signalled, at_print, at_up, returned, Toggle,
  start, zem_at, justprint,
}
use os333_iit_bombay_labs.Prelude.{eq_of_get_or, get_or-replicate}
use os333_iit_bombay_labs.Zemaphore.Toggle.{run}
use os333_iit_bombay_labs.Zemaphore.Toggle.State.{
  Stage, in_zem, printing, passing, has_turn, has_returned, fits, count_of, ahead, cyclic, IsValid,
  start-IsValid,
}
use os333_iit_bombay_labs.Zemaphore.Toggle.Step.{rank, step-IsValid}

-- A reached state, by how far it is.
record Reached (s : Toggle) : Type 0 where
  round : ℕ
  stage : Stage
  valid : IsValid round stage s

abbrev far : {s : Toggle} → Reached s → ℕ
far r = rank r.round r.stage

no_move : (i : ℕ) (s : Toggle) → get_or s.places i returned ≡ returned → justprint i s ≡ s
unfolding justprint
no_move i s e = rw (e, justprint) refl

abbrev Onward : {s : Toggle} → ℕ → Reached s → Toggle → Type 0
Onward i r t =
    (r' : Reached t) × (far r ≤ far r')
    × (i ≡ r.round % num_threads → (far r + 1 ≤ far r') ⊎ (90 ≤ far r))

step-Onward : (i : ℕ) (s : Toggle) (r : Reached s) → Onward i r (justprint i s)
step-Onward i s r = elim (dec_lt i num_threads) [
  | yes less ↦
      let m = step-IsValid r.round i s less r.stage r.valid in
      (record { round = m.round; stage = m.stage; valid = m.valid }, m.no_less, m.further)
  | no beyond ↦
      let gone : get_or s.places i returned ≡ returned =
        get_or_beyond s.places i returned (omega (arith, r.valid.places_length)) in
      subst (Onward i r) (sym (no_move i s gone)) (r, omega arith, λ e. absurd (omega (arith, e)))
]

run-Reached : (schedule : List ℕ) (s : Toggle) → Reached s → Reached (run schedule s)
unfolding run
run-Reached [] s r = r
run-Reached (i ∷ schedule) s r = run-Reached schedule (justprint i s) (step-Onward i s r).0

run-append : (a b : List ℕ) (s : Toggle) → run (a ++ b) s ≡ run b (run a s)
unfolding run
run-append [] b s = refl
run-append (i ∷ a) b s = run-append a b (justprint i s)

ended_turn : (c : Stage) (p : Place) → has_turn c p ≡ true → has_returned p ≡ true → c ≡ in_zem
ended_turn in_zem p h k = refl
ended_turn printing at_down h k = cc
ended_turn printing in_wait h k = cc
ended_turn printing signalled h k = cc
ended_turn printing at_print h k = cc
ended_turn printing at_up h k = cc
ended_turn printing returned h k = cc
ended_turn passing at_down h k = cc
ended_turn passing in_wait h k = cc
ended_turn passing signalled h k = cc
ended_turn passing at_print h k = cc
ended_turn passing at_up h k = cc
ended_turn passing returned h k = cc

-- Once thirty rounds are over, every thread has returned, and the token stays in its zemaphore.
all_returned :
    (u : ℕ) (c : Stage) (s : Toggle) (i : ℕ)
    → IsValid u c s
    → 30 ≤ u
    → i < num_threads
    → has_returned (get_or s.places i returned) ≡ true
all_returned u c s i v h less =
    let ten : get_or s.iterations i 0 ≡ num_iter = omega (arith, v.rounds i less, v.bounded) in
    v.ended i less ∙ ground (arith, ten)

over : (u : ℕ) (c : Stage) (s : Toggle) → IsValid u c s → 30 ≤ u → c ≡ in_zem
over u c s v h =
    let turn : (0 == u % num_threads) ≡ true = ground (arith, v.bounded) in
    ended_turn c (get_or s.places 0 returned)
      (ap (λ b. fits c b (get_or s.places 0 returned)) (sym turn) ∙ v.fitting 0 (omega arith))
      (all_returned u c s 0 v h (omega arith))

-- Each of the three threads once: the program gets further, unless all is over.
abbrev sweep : List ℕ
sweep = 0 ∷ 1 ∷ 2 ∷ []

round_of : (u : ℕ) (c : Stage) → u ≡ rank u c / 3
round_of u in_zem = omega arith
round_of u printing = omega arith
round_of u passing = omega arith

sweep-Reached :
    (s : Toggle) (r : Reached s)
    → (r' : Reached (run sweep s)) × (far r ≤ far r') × ((far r + 1 ≤ far r') ⊎ (90 ≤ far r))
unfolding run
sweep-Reached s r =
    let (r1, n1, f1) = step-Onward 0 s r in
    let (r2, n2, f2) = step-Onward 1 (justprint 0 s) r1 in
    let (r3, n3, f3) = step-Onward 2 (justprint 1 (justprint 0 s)) r2 in
    (
      r3,
      omega (arith, n1, n2, n3),
      ground (
        arith,
        n1,
        n2,
        n3,
        f1,
        f2,
        f3,
        round_of r.round r.stage,
        round_of r1.round r1.stage,
        round_of r2.round r2.stage,
      ),
    )

abbrev pub sweeps : ℕ → List ℕ
sweeps zero = []
sweeps (suc n) = sweep ++ sweeps n

sweeps-Reached :
    (n : ℕ) (s : Toggle) (r : Reached s)
    → (r' : Reached (run (sweeps n) s)) × (far r ≤ far r') × ((far r + n ≤ far r') ⊎ (90 ≤ far r'))
unfolding run
sweeps-Reached zero s r = (r, omega arith, inl (omega arith))
sweeps-Reached (suc n) s r =
    let (r1, m1, h1) = sweep-Reached s r in
    let (r2, m2, h2) = sweeps-Reached n (run sweep s) r1 in
    subst
      (λ (t : Toggle).
        (r' : Reached t) × (far r ≤ far r') × ((far r + suc n ≤ far r') ⊎ (90 ≤ far r')))
      (sym (run-append sweep (sweeps n) s))
      (r2, omega arith, after n (far r) (far r1) (far r2) m1 h1 m2 h2)
  where
    after :
        (k a b c : ℕ)
        → a ≤ b
        → (a + 1 ≤ b) ⊎ (90 ≤ a)
        → b ≤ c
        → (b + k ≤ c) ⊎ (90 ≤ c)
        → (a + suc k ≤ c) ⊎ (90 ≤ c)
    after k a b c m h m' h' = ground arith

reached : (schedule : List ℕ) → Reached (run schedule start)
reached schedule =
    run-Reached schedule start (record { round = 0; stage = in_zem; valid = start-IsValid })

-- What is printed at stage `c` of round `u`.
printed_bound : (u : ℕ) (c : Stage) (s : Toggle) → IsValid u c s → u + ahead c ≤ 30
printed_bound u in_zem s v = omega (arith, v.bounded)
printed_bound u printing s v = omega (arith, v.bounded)
printed_bound u passing s v = elim (dec_lt u 30) [
  | yes less ↦ omega arith
  | no more ↦ let e = over u passing s v (omega arith) in cc
]

zero_or_one : (c : Stage) (b : Bool) → (count_of c b ≡ pos 0) ⊎ (count_of c b ≡ pos 1)
zero_or_one in_zem true = inr refl
zero_or_one in_zem false = inl refl
zero_or_one printing b = inl refl
zero_or_one passing b = inl refl

-- Under every schedule without a wait that ends by itself, what is printed is the start of 0, 1, 2, 0, 1, 2 and
-- so on, at most 30 numbers of it, and the count of each zemaphore is 0 or 1.
pub toggle_in_order :
    (schedule : List ℕ)
    → ((n : ℕ) × (n ≤ 30) × ((run schedule start).printed ≡ cyclic n))
      × ((i : ℕ)
          → i < num_threads
          → ((zem_at (run schedule start) i).count ≡ pos 0)
            ⊎ ((zem_at (run schedule start) i).count ≡ pos 1))
toggle_in_order schedule =
    let r = reached schedule in
    let s = run schedule start in
    (
      (r.round + ahead r.stage, printed_bound r.round r.stage s r.valid, r.valid.in_order),
      λ i less.
          subst (λ (z : ℤ). (z ≡ pos 0) ⊎ (z ≡ pos 1)) (sym (r.valid.counts i less))
            (zero_or_one r.stage (i == r.round % num_threads)),
    )

is_returned : (p : Place) → has_returned p ≡ true → p ≡ returned
is_returned at_down h = cc
is_returned in_wait h = cc
is_returned signalled h = cc
is_returned at_print h = cc
is_returned at_up h = cc
is_returned returned h = refl

everywhere :
    (u : ℕ) (c : Stage) (s : Toggle)
    → IsValid u c s
    → 30 ≤ u
    → (i : ℕ) → get_or s.places i returned ≡ returned
everywhere u c s v h i = elim (dec_lt i num_threads) [
  | yes less ↦ is_returned (get_or s.places i returned) (all_returned u c s i v h less)
  | no beyond ↦ get_or_beyond s.places i returned (omega (arith, v.places_length))
]

default : (i : ℕ) → returned ≡ get_or (replicate num_threads returned) i returned
default i = ground (arith, get_or-replicate num_threads i returned returned)

-- After every schedule, once each thread has been scheduled 90 times more in the order 0, 1, 2, all
-- threads have returned, and 0, 1, 2, 0, 1, 2 and so on has been printed, 30 numbers in all.
pub toggle_completes :
    (schedule : List ℕ)
    → ((run (schedule ++ sweeps 90) start).places ≡ replicate num_threads returned)
      × ((run (schedule ++ sweeps 90) start).printed ≡ cyclic 30)
toggle_completes schedule =
    let before = run schedule start in
    let (r, m, h) = sweeps-Reached 90 before (reached schedule) in
    let done : 90 ≤ far r = omega (arith, h) in
    let u_30 : 30 ≤ r.round = omega (arith, round_of r.round r.stage) in
    let rest : r.stage ≡ in_zem = over r.round r.stage (run (sweeps 90) before) r.valid u_30 in
    let all : r.round + ahead r.stage ≡ 30 = omega (arith, ap ahead rest, r.valid.bounded, u_30) in
    let gone : (i : ℕ) → get_or (run (sweeps 90) before).places i returned ≡ returned =
      everywhere r.round r.stage (run (sweeps 90) before) r.valid u_30 in
    rw (run-append schedule (sweeps 90) start) (
      eq_of_get_or (run (sweeps 90) before).places (replicate num_threads returned) returned
          r.valid.places_length (λ i. gone i ∙ default i),
      r.valid.in_order ∙ ap cyclic all,
    )
