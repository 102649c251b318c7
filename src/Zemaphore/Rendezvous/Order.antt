-- ===== src/Zemaphore/Rendezvous/Order.antt =====
-- The order of the lines of pthreads-sync-code/zemaphore/test-zem.c, and its end.
use mathlib.Core.Path.{subst}
use os333_iit_bombay_labs.Prelude.{
  ℕ, ◌+◌, ◌≤◌, ◌≡◌, ◌⊎◌, inl, inr, refl, ap, ◌∙◌, sym, List, [], ◌∷◌, ◌++◌, length, get_or, arith,
  Bool-cases, get_or_beyond, dec_lt, ◌==◌,
}
use os333_iit_bombay_labs.Threads.{tally, occurs}
use os333_iit_bombay_labs.Threads.Sweeps.{moves, moves-append, sweeps, sweeps-Quiet}
use os333_iit_bombay_labs.Zemaphore.Toggle.{
  Place, at_down, in_wait, signalled, at_print, at_up, returned,
}
use os333_iit_bombay_labs.Zemaphore.Rendezvous.{
  Stage, first_line, up_one, down_one, wait_one, called_one, line_one, up_two, down_two, wait_two,
  called_two, line_two, joins, second_printed, Rendezvous, start, justprint, Choice, main_thread,
  child_thread, step, run,
}
use os333_iit_bombay_labs.Zemaphore.Rendezvous.Counts.{shown, finished, went_in, woken, sleeping}
use os333_iit_bombay_labs.Zemaphore.Rendezvous.State.{
  ups, downs, main_waits, said, in_full, Spoken, IsValid, start-IsValid,
}
use os333_iit_bombay_labs.Zemaphore.Rendezvous.Step.{
  left_at, main_left, all_left, Onward, justprint-Onward,
}
use os333_iit_bombay_labs.Zemaphore.Rendezvous.MainStep.{main_step-Onward}

-- `main` waits or has ended, or a thread does.
abbrev Blocked : Choice → Rendezvous → Type 0
Blocked (main_thread k) s = (main_waits s.main ≡ 1) ⊎ (s.main ≡ joins)
Blocked (child_thread i) s =
    (get_or s.threads i returned ≡ in_wait) ⊎ (get_or s.threads i returned ≡ returned)

step-Onward : (c : Choice) (s : Rendezvous) → IsValid s → Onward s (step c s) (Blocked c s)
unfolding step justprint
step-Onward (main_thread k) s v = main_step-Onward s v k s.main refl
step-Onward (child_thread i) s v = elim (dec_lt i (length s.threads)) [
  | yes less ↦ justprint-Onward s v i less (get_or s.threads i returned) refl
  | no beyond ↦
      let gone = get_or_beyond s.threads i returned (omega arith) in
      rw (gone) (v, inl (refl, inr refl))
]

run-moves : (schedule : List Choice) (s : Rendezvous) → run schedule s ≡ moves step schedule s
unfolding run
run-moves [] s = refl
run-moves (c ∷ schedule) s = run-moves schedule (step c s)

run-IsValid : (schedule : List Choice) (s : Rendezvous) → IsValid s → IsValid (run schedule s)
unfolding run
run-IsValid [] s v = v
run-IsValid (c ∷ schedule) s v = run-IsValid schedule (step c s) (step-Onward c s v).0

pair_of : (ps : List Place) → length ps ≡ 2 → ps ≡ get_or ps 0 returned ∷ get_or ps 1 returned ∷ []
pair_of [] h = absurd (omega (arith, h))
pair_of (p ∷ []) h = absurd (omega (arith, h))
pair_of (p ∷ q ∷ []) h = refl
pair_of (p ∷ q ∷ r ∷ ps) h = absurd (omega (arith, h))

Rest : Place → Type 0
Rest p = (p ≡ in_wait) ⊎ (p ≡ returned)

-- Two threads that wait or have ended.
resting_sums :
    (p q : Place)
    → Rest p
    → Rest q
    → let ps = p ∷ q ∷ [] in
      (tally sleeping ps + tally finished ps ≡ 2)
      × (tally went_in ps ≡ tally finished ps)
      × (tally woken ps ≡ 0)
unfolding Rest
resting_sums p q (inl a) (inl b) = rw (a, b) (refl, refl, refl)
resting_sums p q (inl a) (inr b) = rw (a, b) (refl, refl, refl)
resting_sums p q (inr a) (inl b) = rw (a, b) (refl, refl, refl)
resting_sums p q (inr a) (inr b) = rw (a, b) (refl, refl, refl)

waits_for : (m : Stage) → main_waits m ≡ 1 → (ups m ≡ downs m + 1) × (downs m ≤ 1)
waits_for wait_one h = (refl, omega arith)
waits_for wait_two h = (refl, omega arith)
waits_for first_line h = absurd (omega (arith, h))
waits_for up_one h = absurd (omega (arith, h))
waits_for down_one h = absurd (omega (arith, h))
waits_for called_one h = absurd (omega (arith, h))
waits_for line_one h = absurd (omega (arith, h))
waits_for up_two h = absurd (omega (arith, h))
waits_for down_two h = absurd (omega (arith, h))
waits_for called_two h = absurd (omega (arith, h))
waits_for line_two h = absurd (omega (arith, h))
waits_for joins h = absurd (omega (arith, h))

-- Not all wait for each other.
no_deadlock_lem :
    (s : Rendezvous)
    → IsValid s
    → Blocked (main_thread 0) s
    → Rest (get_or s.threads 0 returned)
    → Rest (get_or s.threads 1 returned)
    → (s.main ≡ joins) × (tally finished s.threads ≡ 2)
no_deadlock_lem s v m a b =
    let both = pair_of s.threads v.counts.two in
    let (all, inside, awake) =
      subst
        (λ ps.
          (tally sleeping ps + tally finished ps ≡ 2)
          × (tally went_in ps ≡ tally finished ps)
          × (tally woken ps ≡ 0))
        (sym both) (resting_sums _ _ a b) in
    elim m [
      | inl waiting ↦
          let (one_more, few) = waits_for s.main waiting in
          elim v.counts.main_woken [
            | inl awake_main ↦ absurd (omega (arith, awake_main, waiting))
            | inr behind ↦ elim v.counts.child_woken [
              | inl nobody ↦ absurd (omega (arith, nobody, all, behind, few))
              | inr enough ↦ absurd (omega (arith, enough, inside, awake, behind, one_more))
            ]
          ]
      | inr done ↦
          let twice : downs s.main ≡ 2 = ap downs done in
          (done, omega (arith, all, twice, v.counts.main_behind))
    ]

two_of :
    (ids : List ℕ)
    → length ids ≡ 2
    → occurs 1 ids ≡ 1
    → occurs 2 ids ≡ 1
    → (ids ≡ 1 ∷ 2 ∷ []) ⊎ (ids ≡ 2 ∷ 1 ∷ [])
two_of [] h a b = absurd (omega (arith, h))
two_of (x ∷ []) h a b = absurd (omega (arith, h))
two_of (x ∷ y ∷ []) h a b = elim (Bool-cases (1 == x)) [
  | inl first ↦
      let one : x ≡ 1 = ground (arith, first) in
      let other : y ≡ 2 = ground (arith, first, b) in inl (rw (one, other) refl)
  | inr second ↦
      let one : y ≡ 1 = ground (arith, second, a) in
      let other : x ≡ 2 = ground (arith, one, b) in inr (rw (one, other) refl)
]
two_of (x ∷ y ∷ z ∷ ids) h a b = absurd (omega (arith, h))

-- Enough rounds for `main` and both threads.
abbrev pub closing : List Choice
closing = sweeps 21 (main_thread 0 ∷ child_thread 0 ∷ child_thread 1 ∷ [])

-- All have ended; `main` has printed first and last, and its second line behind the line of one thread at least.
abbrev pub Ends : Rendezvous → Type 0
Ends s =
    (s.main ≡ joins)
    × (s.threads ≡ returned ∷ returned ∷ [])
    × ((before : List ℕ) × (behind : List ℕ) × (s.printed
          ≡ in_full before behind ++ second_printed ∷ [])
        × (1 ≤ length before)
        × ((before ++ behind ≡ 1 ∷ 2 ∷ []) ⊎ (before ++ behind ≡ 2 ∷ 1 ∷ [])))

left_le : (p : Place) → left_at p ≤ 5
left_le at_down = omega arith
left_le in_wait = omega arith
left_le signalled = omega arith
left_le at_print = omega arith
left_le at_up = omega arith
left_le returned = omega arith

main_left_le : (m : Stage) → main_left m ≤ 11
main_left_le first_line = omega arith
main_left_le up_one = omega arith
main_left_le down_one = omega arith
main_left_le wait_one = omega arith
main_left_le called_one = omega arith
main_left_le line_one = omega arith
main_left_le up_two = omega arith
main_left_le down_two = omega arith
main_left_le wait_two = omega arith
main_left_le called_two = omega arith
main_left_le line_two = omega arith
main_left_le joins = omega arith

all_left_le : (s : Rendezvous) → IsValid s → all_left s ≤ 21
all_left_le s v =
    let two = pair_of s.threads v.counts.two in
    let sum = ap (λ ps. tally left_at ps) two in
    omega (
      arith,
      sum,
      left_le (get_or s.threads 0 returned),
      left_le (get_or s.threads 1 returned),
      main_left_le s.main,
    )

ended :
    (p q : Place)
    → tally finished (p ∷ q ∷ []) ≡ 2
    → Rest p
    → Rest q
    → p ∷ q ∷ [] ≡ returned ∷ returned ∷ []
unfolding Rest
ended p q h (inr a) (inr b) = rw (a, b) refl
ended p q h (inl a) (inl b) = absurd (omega (arith, ap finished a, ap finished b, h))
ended p q h (inl a) (inr b) = absurd (omega (arith, ap finished a, ap finished b, h))
ended p q h (inr a) (inl b) = absurd (omega (arith, ap finished a, ap finished b, h))

quiet-Ends :
    (s : Rendezvous)
    → IsValid s
    → Blocked (main_thread 0) s
    → Rest (get_or s.threads 0 returned)
    → Rest (get_or s.threads 1 returned)
    → Ends s
quiet-Ends s v m a b =
    let (done, all) = no_deadlock_lem s v m a b in
    let both = pair_of s.threads v.counts.two in
    let gone = both ∙ ended _ _ (subst (λ ps. tally finished ps ≡ 2) both all) a b in
    let t = subst (λ (n : Stage). Spoken s.printed s.threads (said n)) done v.spoken in
    let (before, behind, text, order, heard) = t.text in
    let shown_at : (i : ℕ)
        → occurs (i + 1) t.ids ≡ shown (get_or (returned ∷ returned ∷ []) i at_down) =
      λ i. t.each i ∙ ap (λ ps. shown (get_or ps i at_down)) gone in
    let size : length t.ids ≡ 2 = t.everyone ∙ ap (λ ps. tally shown ps) gone in
    (
      done,
      gone,
      (
        before,
        behind,
        text,
        heard,
        subst (λ ids. (ids ≡ 1 ∷ 2 ∷ []) ⊎ (ids ≡ 2 ∷ 1 ∷ [])) order
            (two_of t.ids size (shown_at 0) (shown_at 1)),
      ),
    )

-- After every schedule of `main` and the two threads, with no wait that ends by itself, once `main` and the threads have
-- been scheduled in turns often enough, all have ended, and what is printed is the first line of `main`, then the lines
-- of both threads, each once and one of them at least before the second line of `main`, and last its third line.
pub main_first_and_last : (schedule : List Choice) → Ends (run (schedule ++ closing) start)
unfolding Rest
main_first_and_last schedule =
    let before = run schedule start in
    let valid = run-IsValid schedule start start-IsValid in
    let (v, quiet) =
      sweeps-Quiet step IsValid Blocked all_left (λ c s w. (step-Onward c s w).0)
        (λ c s w. (step-Onward c s w).1) 21 (main_thread 0 ∷ child_thread 0 ∷ child_thread 1 ∷ [])
        before valid (all_left_le before valid) in
    let same : moves step closing before ≡ run (schedule ++ closing) start =
      ap (moves step closing) (run-moves schedule start)
      ∙ sym (moves-append step schedule closing start)
      ∙ sym (run-moves (schedule ++ closing) start) in
    subst Ends same (quiet-Ends (moves step closing before) v quiet.0.1 quiet.1.0.1 quiet.1.1.0.1)
