-- ===== src/Zemaphore/Rendezvous/Counts.antt =====
-- The counts of the two zemaphores of pthreads-sync-code/zemaphore/test-zem.c, and who waits for them.
pub mod Moves
use os333_iit_bombay_labs.Prelude.{
  ℕ, zero, suc, ◌+◌, ◌≤◌, ◌<◌, ◌≡◌, ◌⊎◌, inl, inr, refl, ap, ◌∙◌, true, false, List, length, get_or,
  set, arith, length-set,
}
use os333_iit_bombay_labs.Prelude.Int.{ℤ, pos, negsuc, incr, decr, not_positive}
use os333_iit_bombay_labs.Threads.{tally, tally-set, tally_ge, tally_zero}
use os333_iit_bombay_labs.Threads.Signal.{Signalled}
use os333_iit_bombay_labs.Zemaphore.Toggle.{
  Place, at_down, in_wait, signalled, at_print, at_up, returned,
}
use os333_iit_bombay_labs.Zemaphore.Rendezvous.{is_waiting}

-- A count is the ups less the downs.
abbrev pub IsDifference : ℤ → ℕ → ℕ → Type 0
IsDifference (pos n) ups downs = ups ≡ downs + n
IsDifference (negsuc n) ups downs = downs ≡ ups + (n + 1)

pub incr-IsDifference :
    (z : ℤ) (u d u' : ℕ) → u' ≡ u + 1 → IsDifference z u d → IsDifference (incr z) u' d
incr-IsDifference (pos n) u d u' e h = omega arith
incr-IsDifference (negsuc zero) u d u' e h = omega arith
incr-IsDifference (negsuc (suc n)) u d u' e h = omega arith

pub decr-IsDifference :
    (z : ℤ) (u d d' : ℕ) → d' ≡ d + 1 → IsDifference z u d → IsDifference (decr z) u d'
decr-IsDifference (pos zero) u d d' e h = omega arith
decr-IsDifference (pos (suc n)) u d d' e h = omega arith
decr-IsDifference (negsuc n) u d d' e h = omega arith

pub positive_lt : (z : ℤ) (u d : ℕ) → not_positive z ≡ false → IsDifference z u d → d < u
positive_lt (pos n) u d e h = ground (arith, e, h)
positive_lt (negsuc n) u d e h = absurd (ground (arith, e))

pub not_positive_le : (z : ℤ) (u d : ℕ) → not_positive z ≡ true → IsDifference z u d → u ≤ d
not_positive_le (pos n) u d e h = ground (arith, e, h)
not_positive_le (negsuc n) u d e h = omega arith

-- A thread that has passed `zem_down`, that waits in it, that is woken there, that has passed `zem_up`, and that has
-- printed.
abbrev pub went_in : Place → ℕ
went_in at_down = 0
went_in in_wait = 0
went_in signalled = 0
went_in at_print = 1
went_in at_up = 1
went_in returned = 1

abbrev pub sleeping : Place → ℕ
sleeping at_down = 0
sleeping in_wait = 1
sleeping signalled = 0
sleeping at_print = 0
sleeping at_up = 0
sleeping returned = 0

abbrev pub woken : Place → ℕ
woken at_down = 0
woken in_wait = 0
woken signalled = 1
woken at_print = 0
woken at_up = 0
woken returned = 0

abbrev pub finished : Place → ℕ
finished at_down = 0
finished in_wait = 0
finished signalled = 0
finished at_print = 0
finished at_up = 0
finished returned = 1

abbrev pub shown : Place → ℕ
shown at_down = 0
shown in_wait = 0
shown signalled = 0
shown at_print = 0
shown at_up = 1
shown returned = 1

-- `ups` of `child` and `downs` of `parent` by `main`, which waits where `main_waits` is 1 and has a signal where
-- `main_called` is 1.
pub record Counts (child parent : ℤ) (threads : List Place) (ups downs main_waits main_called : ℕ)
    : Type 0 where
  pub two : length threads ≡ 2
  pub child_count : IsDifference child ups (tally went_in threads)
  pub parent_count : IsDifference parent (tally finished threads) downs
  pub child_woken :
      (tally sleeping threads ≡ 0) ⊎ (ups ≤ tally went_in threads + tally woken threads)
  pub main_woken : (main_waits ≡ 0) ⊎ (tally finished threads ≤ downs)
  pub main_behind : downs + main_called ≤ tally finished threads
  pub not_early : (1 ≤ ups) ⊎ (tally woken threads + tally went_in threads ≡ 0)

-- What one move of a thread does to the sums.
record Sums (threads : List Place) (i : ℕ) (p q : Place) : Type 0 where
  size : length (set threads i q) ≡ length threads
  in_sum : tally went_in (set threads i q) + went_in p ≡ tally went_in threads + went_in q
  sleep_sum : tally sleeping (set threads i q) + sleeping p ≡ tally sleeping threads + sleeping q
  woken_sum : tally woken (set threads i q) + woken p ≡ tally woken threads + woken q
  finished_sum : tally finished (set threads i q) + finished p ≡ tally finished threads + finished q

sums :
    (threads : List Place) (i : ℕ) (p q : Place)
    → i < length threads
    → get_or threads i returned ≡ p
    → Sums threads i p q
sums threads i p q less e = record {
  size = length-set threads i q;
  in_sum = omega (arith, ap went_in e, tally-set returned went_in threads i q less);
  sleep_sum = omega (arith, ap sleeping e, tally-set returned sleeping threads i q less);
  woken_sum = omega (arith, ap woken e, tally-set returned woken threads i q less);
  finished_sum = omega (arith, ap finished e, tally-set returned finished threads i q less);
}

awake_lem : (p : Place) → is_waiting p ≡ false → sleeping p ≡ 0
awake_lem at_down h = refl
awake_lem in_wait h = absurd (ground (arith, h))
awake_lem signalled h = refl
awake_lem at_print h = refl
awake_lem at_up h = refl
awake_lem returned h = refl

pub asleep_lem : (p : Place) → is_waiting p ≡ true → p ≡ in_wait
asleep_lem in_wait h = refl
asleep_lem at_down h = absurd (ground (arith, h))
asleep_lem signalled h = absurd (ground (arith, h))
asleep_lem at_print h = absurd (ground (arith, h))
asleep_lem at_up h = absurd (ground (arith, h))
asleep_lem returned h = absurd (ground (arith, h))

same-IsDifference :
    (z : ℤ) (u d u' d' : ℕ) → u' ≡ u → d' ≡ d → IsDifference z u d → IsDifference z u' d'
same-IsDifference (pos n) u d u' d' e k h = omega arith
same-IsDifference (negsuc n) u d u' d' e k h = omega arith
