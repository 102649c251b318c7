-- ===== src/Tests/Salon.antt =====
-- The barber and the customers of pthreads-sync-code/own-sync-problem/barber-cv.c with their signals.
use os333_iit_bombay_labs.Prelude.{ℕ, ◌<◌, ◌≡◌, ◌⊎◌, refl, List, [], ◌∷◌, ◌++◌, get_or}
use os333_iit_bombay_labs.Threads.{tally}
use os333_iit_bombay_labs.Threads.Signal.{signal}
use os333_iit_bombay_labs.Barber.{max_customers}
use os333_iit_bombay_labs.Barber.Wakes.{
  coming, seated, served, turned_away, open_salon, cut, barber_turn, arrive, guest_turn, Choice,
  barbers, guests, run,
}
use os333_iit_bombay_labs.Barber.Wakes.Invariant.{count_served}
use os333_iit_bombay_labs.Barber.Wakes.Complete.{closing, all_leave}

-- The barber falls asleep; four customers come, and the fourth leaves; the second one is called.
abbrev rush : List Choice
rush = barbers 0 ∷ guests 0 ∷ guests 1 ∷ guests 2 ∷ guests 3 ∷ barbers 1 ∷ guests 0 ∷ guests 1 ∷ []

rush-run : (run rush open_salon).guests ≡ seated ∷ served ∷ seated ∷ turned_away ∷ coming ∷ []
unfolding open_salon signal cut barber_turn arrive guest_turn run
rush-run = refl

all_leave_example :
    let s = run (rush ++ closing) open_salon in
    ((j : ℕ)
      → j < max_customers
      → (get_or s.guests j served ≡ served) ⊎ (get_or s.guests j served ≡ turned_away))
    × (s.waiting_customers ≡ 0)
    × (s.cuts ≡ tally count_served s.guests)
all_leave_example = all_leave rush
