-- ===== src/Barber/Chairs.antt =====
-- The chairs of pthreads-sync-code/own-sync-problem/barber-cv.c, under every interleaving.
use os333_iit_bombay_labs.Prelude.{
  ℕ, ◌+◌, ◌≤◌, ◌<◌, ◌≡◌, ◌≢◌, ◌⊎◌, refl, inl, inr, List, [], ◌∷◌, length, get_or, set, ltb, ◌==◌,
  arith, Bool-cases, get_or-inside,
}
use os333_iit_bombay_labs.Threads.{tally, tally-set}
use os333_iit_bombay_labs.Barber.{
  chairs, Customer, coming, seated, served, turned_away, Shop, start, barber, customer, Turn,
  of_barber, of_customer, run,
}

-- Whether the customer has taken a chair, now or before.
abbrev pub has_sat : Customer → ℕ
has_sat coming = 0
has_sat seated = 1
has_sat served = 1
has_sat turned_away = 0

abbrev pub has_left : Customer → ℕ
has_left coming = 0
has_left seated = 0
has_left served = 0
has_left turned_away = 1

record IsValid (s : Shop) : Type 0 where
  bounded : s.waiting_customers ≤ chairs
  counted : tally has_sat s.customers ≡ s.waiting_customers + s.cuts
  room : (tally has_left s.customers ≡ 0) ⊎ (chairs ≤ tally has_sat s.customers)

start-IsValid : IsValid start
unfolding start
start-IsValid = record { bounded = omega arith; counted = refl; room = inl refl }

barber-IsValid : (s : Shop) → IsValid s → IsValid (barber s)
unfolding barber
barber-IsValid s v = elim (Bool-cases (s.waiting_customers == 0)) [
  | inl empty ↦ rw (empty) v
  | inr some_waiting ↦ rw (some_waiting) (record {
    bounded = omega (arith, v.bounded);
    counted = ground (arith, v.counted);
    room = v.room;
  })
]

-- One customer moves on.
moved :
    (s : Shop) (id n : ℕ) (c : Customer)
    → IsValid s
    → id < length s.customers
    → n ≤ chairs
    → n + has_sat (get_or s.customers id served) ≡ s.waiting_customers + has_sat c
    → (has_left c ≤ has_left (get_or s.customers id served)) ⊎ (s.waiting_customers ≡ chairs)
    → has_sat (get_or s.customers id served) ≤ has_sat c
    → IsValid (record s { waiting_customers = n; customers = set s.customers id c })
moved s id n c v less fits same why more = record {
  bounded = fits;
  counted = omega (arith, v.counted, same, tally-set served has_sat s.customers id c less);
  room = elim why [
    | inr full ↦
        inr (omega (arith, full, v.counted, more, tally-set served has_sat s.customers id c less))
    | inl stays ↦ elim v.room [
      | inl all ↦ inl (omega (arith, all, stays, tally-set served has_left s.customers id c less))
      | inr full ↦ inr (omega (arith, full, more, tally-set served has_sat s.customers id c less))
    ]
  ];
}

inside :
    (s : Shop) (id : ℕ) (c : Customer)
    → get_or s.customers id served ≡ c
    → served ≢ c
    → id < length s.customers
inside s id c e ne = get_or-inside s.customers id served c e ne

customer-IsValid : (id : ℕ) (s : Shop) → IsValid s → IsValid (customer id s)
unfolding customer
customer-IsValid id s v = by_place (get_or s.customers id served) refl
  where
    by_place : (c : Customer) → get_or s.customers id served ≡ c → IsValid (customer id s)
    by_place served e = rw (e, customer) v
    by_place turned_away e = rw (e, customer) v
    by_place seated e =
        let less = inside s id seated e (λ q. ground arith) in
        rw (e, customer)
          (moved s id s.waiting_customers served v less v.bounded (rw (e) refl)
            (inl (rw (e) (omega arith))) (rw (e) (omega arith)))
    by_place coming e =
        let less = inside s id coming e (λ q. ground arith) in
        elim (Bool-cases (ltb s.waiting_customers chairs)) [
          | inl free ↦
              rw (e, free, customer)
                (moved s id (s.waiting_customers + 1) seated v less (ground arith)
                  (rw (e) (omega arith)) (inl (rw (e) (omega arith))) (rw (e) (omega arith)))
          | inr full ↦
              rw (e, full, customer)
                (moved s id s.waiting_customers turned_away v less v.bounded (rw (e) (omega arith))
                  (inr (ground (arith, v.bounded))) (rw (e) (omega arith)))
        ]

run-IsValid : (ts : List Turn) (s : Shop) → IsValid s → IsValid (run ts s)
unfolding run
run-IsValid [] s v = v
run-IsValid (of_barber ∷ ts) s v = run-IsValid ts (barber s) (barber-IsValid s v)
run-IsValid (of_customer id ∷ ts) s v = run-IsValid ts (customer id s) (customer-IsValid id s v)

-- After every interleaving at most three customers are counted as waiting, every customer who has
-- taken a chair is counted as waiting or has been cut for, and if one has left, at least three have taken a chair.
pub run_bounded :
    (ts : List Turn)
    → ((run ts start).waiting_customers ≤ chairs)
      × (tally has_sat (run ts start).customers
          ≡ (run ts start).waiting_customers + (run ts start).cuts)
      × ((tally has_left (run ts start).customers ≡ 0)
          ⊎ (chairs ≤ tally has_sat (run ts start).customers))
run_bounded ts = let v = run-IsValid ts start start-IsValid in (v.bounded, v.counted, v.room)
