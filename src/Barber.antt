-- ===== src/Barber.antt =====
-- pthreads-sync-code/own-sync-problem/barber-cv.c: a barber and customers, with three chairs to wait on.
pub mod Chairs
pub mod Wakes
use os333_iit_bombay_labs.Prelude.{
  ℕ, ◌+◌, ◌-◌, Bool, true, false, Option, none, some, List, [], ◌∷◌, length, get_or, set, replicate,
  ltb, ◌==◌, if◌then◌else◌, ◌>>=◌,
}

abbrev pub max_customers : ℕ
max_customers = 5

abbrev pub chairs : ℕ
chairs = 3

-- A customer has not taken the mutex yet, waits for the barber, has printed that it gets a haircut,
-- or has left for want of a chair.
pub data Customer : Type 0 where
  coming seated served turned_away : Customer

-- `waiting_customers`, how often the barber has begun to cut, and the customers.
pub record Shop : Type 0 where
  pub waiting_customers : ℕ
  pub cuts : ℕ
  pub customers : List Customer

unfoldable pub start : Shop
start = record { waiting_customers = 0; cuts = 0; customers = replicate max_customers coming }

-- The barber, from the test of its `while` on; with nobody there it waits.
unfoldable pub barber : Shop → Shop
barber s =
    if s.waiting_customers == 0
    then s
    else record s { waiting_customers = s.waiting_customers - 1; cuts = s.cuts + 1 }

-- The next critical section of a customer: up to its wait, and from there on.
unfoldable pub customer : ℕ → Shop → Shop
customer id s = elim (get_or s.customers id served) [
  | coming ↦
      if ltb s.waiting_customers chairs
      then record s {
        waiting_customers = s.waiting_customers + 1;
        customers = set s.customers id seated;
      }
      else record s { customers = set s.customers id turned_away }
  | seated ↦ record s { customers = set s.customers id served }
  | served ↦ s
  | turned_away ↦ s
]

-- Who holds the mutex next.
pub data Turn : Type 0 where
  of_barber : Turn
  of_customer : ℕ → Turn

unfoldable pub run : List Turn → Shop → Shop
run [] s = s
run (of_barber ∷ ts) s = run ts (barber s)
run (of_customer id ∷ ts) s = run ts (customer id s)
