-- ===== src/Barber/Wakes.antt =====
-- pthreads-sync-code/own-sync-problem/barber-cv.c with its signals: whoever waits goes on only when woken.
pub mod Invariant
pub mod Complete
use os333_iit_bombay_labs.Prelude.{
  ℕ, ◌+◌, ◌-◌, Bool, true, false, List, [], ◌∷◌, get_or, set, replicate, ltb, ◌==◌, if◌then◌else◌,
}
use os333_iit_bombay_labs.Threads.Signal.{signal}
use os333_iit_bombay_labs.Barber.{max_customers, chairs, Turn, of_barber, of_customer}

-- A customer has not taken the mutex yet, waits for the barber, has been woken by him, has returned
-- from a haircut, or has returned without one.
pub data Guest : Type 0 where
  coming seated called served turned_away : Guest

-- The barber is before his lock, waits for a customer, or has been woken by one.
pub data Barber : Type 0 where
  at_lock asleep woken : Barber

pub record Salon : Type 0 where
  pub waiting_customers : ℕ
  pub cuts : ℕ
  pub barber_at : Barber
  pub guests : List Guest

unfoldable pub open_salon : Salon
open_salon = record {
  waiting_customers = 0;
  cuts = 0;
  barber_at = at_lock;
  guests = replicate max_customers coming;
}

abbrev pub is_seated : Guest → Bool
is_seated coming = false
is_seated seated = true
is_seated called = false
is_seated served = false
is_seated turned_away = false

abbrev pub rouse_barber : Barber → Barber
rouse_barber asleep = woken
rouse_barber b = b

-- The barber, from the test of his `while` on.
unfoldable pub cut : ℕ → Salon → Salon
cut k s = if s.waiting_customers == 0 then record s { barber_at = asleep } else record {
  waiting_customers = s.waiting_customers - 1;
  cuts = s.cuts + 1;
  barber_at = at_lock;
  guests = signal is_seated called served k s.guests;
}

-- The next critical section of the barber. `k` is for his signal.
unfoldable pub barber_turn : ℕ → Salon → Salon
barber_turn k s = elim s.barber_at [ at_lock ↦ cut k s | asleep ↦ s | woken ↦ cut k s ]

-- A customer up to its wait.
unfoldable pub arrive : ℕ → Salon → Salon
arrive id s =
    if ltb s.waiting_customers chairs
    then record s {
      waiting_customers = s.waiting_customers + 1;
      barber_at = rouse_barber s.barber_at;
      guests = set s.guests id seated;
    }
    else record s { guests = set s.guests id turned_away }

-- The next critical section of a customer.
unfoldable pub guest_turn : ℕ → Salon → Salon
guest_turn id s = elim (get_or s.guests id served) [
  | coming ↦ arrive id s
  | seated ↦ s
  | called ↦ record s { guests = set s.guests id served }
  | served ↦ s
  | turned_away ↦ s
]

-- Who holds the mutex next, and whom the barber's signal wakes.
pub data Choice : Type 0 where
  barbers guests : ℕ → Choice

unfoldable pub run : List Choice → Salon → Salon
run [] s = s
run (barbers k ∷ ts) s = run ts (barber_turn k s)
run (guests id ∷ ts) s = run ts (guest_turn id s)
