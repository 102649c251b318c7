-- ===== src/Barber/Wakes/Complete.antt =====
-- The end of a schedule of Barber/Wakes.
use os333_iit_bombay_labs.Prelude.{
  ℕ, zero, suc, ◌+◌, ◌≤◌, ◌<◌, ◌≡◌, ◌⊎◌, refl, sym, ap, ◌∙◌, inl, inr, List, [], ◌∷◌, ◌++◌, length,
  get_or, ◌==◌, arith, Bool-cases, dec_lt, get_or_beyond,
}
use os333_iit_bombay_labs.Threads.{tally, tally_ge, tally_zero}
use os333_iit_bombay_labs.Barber.{max_customers}
use os333_iit_bombay_labs.Barber.Wakes.{
  Guest, coming, seated, called, served, turned_away, Salon, open_salon, barber_turn, guest_turn,
  Choice, barbers, guests, run,
}
use os333_iit_bombay_labs.Barber.Wakes.Invariant.{
  count_coming, count_seated, count_called, count_served, IsValid, open_salon-IsValid,
  barber_turn-IsValid, guest_turn_lem,
}

run_append : (ts us : List Choice) (s : Salon) → run (ts ++ us) s ≡ run us (run ts s)
unfolding run
run_append [] us s = refl
run_append (barbers k ∷ ts) us s = run_append ts us (barber_turn k s)
run_append (guests id ∷ ts) us s = run_append ts us (guest_turn id s)

run-IsValid : (ts : List Choice) (s : Salon) → IsValid s → IsValid (run ts s)
unfolding run
run-IsValid [] s v = v
run-IsValid (barbers k ∷ ts) s v = run-IsValid ts (barber_turn k s) (barber_turn-IsValid k s v).0
run-IsValid (guests id ∷ ts) s v = run-IsValid ts (guest_turn id s) (guest_turn_lem id s v).valid

-- The first `n` customers, one after the other.
abbrev pub each_guest : ℕ → List Choice
each_guest zero = []
each_guest (suc n) = each_guest n ++ guests n ∷ []

last_guest : (n : ℕ) (s : Salon) → run (each_guest (suc n)) s ≡ guest_turn n (run (each_guest n) s)
unfolding run
last_guest n s = run_append (each_guest n) (guests n ∷ []) s

-- Those who have had their turn have come, and those whose turn is still to come are as they were.
all_come :
    (n : ℕ) (s : Salon)
    → IsValid s
    → ((j : ℕ) → j < n → count_coming (get_or (run (each_guest n) s).guests j served) ≡ 0)
all_come zero s v j less = absurd (omega arith)
all_come (suc n) s v j less =
    let before = run (each_guest n) s in
    let m = guest_turn_lem n before (run-IsValid (each_guest n) s v) in
    rw (last_guest n s) (elim (Bool-cases (n == j)) [
      | inl same ↦
          let eq : n ≡ j = ground (arith, same) in
          ap (λ i. count_coming (get_or (guest_turn n before).guests i served)) (sym eq) ∙ m.arrived
      | inr other ↦
          ap count_coming (m.others j (λ q. ground (arith, other, q)))
          ∙ all_come n s v j (ground (arith, other))
    ])

still :
    (n : ℕ) (s : Salon)
    → IsValid s
    → (j : ℕ) → n ≤ j
    → get_or (run (each_guest n) s).guests j served ≡ get_or s.guests j served
unfolding run
still zero s v j beyond = refl
still (suc n) s v j beyond =
    let before = run (each_guest n) s in
    let m = guest_turn_lem n before (run-IsValid (each_guest n) s v) in
    rw (last_guest n s) (m.others j (λ q. omega (arith, q)) ∙ still n s v j (omega arith))

-- Where all have come and nobody is seated, those who have had their turn have returned.
all_finish :
    (n : ℕ) (s : Salon)
    → IsValid s
    → ((j : ℕ)
        → count_coming (get_or s.guests j served) + count_seated (get_or s.guests j served) ≡ 0)
    → (j : ℕ) → j < n
    → let g = get_or (run (each_guest n) s).guests j served in
      count_coming g + (count_seated g + count_called g) ≡ 0
all_finish zero s v quiet j less = absurd (omega arith)
all_finish (suc n) s v quiet j less =
    let before = run (each_guest n) s in
    let m = guest_turn_lem n before (run-IsValid (each_guest n) s v) in
    rw (last_guest n s) (elim (Bool-cases (n == j)) [
      | inl same ↦
          let eq : n ≡ j = ground (arith, same) in
          let was =
            ap (λ (g : Guest). count_coming g + count_seated g) (still n s v n (omega arith))
            ∙ quiet n in
          ap
            (λ i.
              let g = get_or (guest_turn n before).guests i served in
              count_coming g + (count_seated g + count_called g))
            (sym eq)
          ∙ omega (arith, m.arrived, m.finished was)
      | inr other ↦
          ap (λ (g : Guest). count_coming g + (count_seated g + count_called g))
            (m.others j (λ q. ground (arith, other, q)))
          ∙ all_finish n s v quiet j (ground (arith, other))
    ])

-- Beyond the customers there is nobody.
beyond :
    (f : Guest → ℕ) (s : Salon)
    → f served ≡ 0
    → ((j : ℕ) → j < length s.guests → f (get_or s.guests j served) ≡ 0)
    → (j : ℕ) → f (get_or s.guests j served) ≡ 0
beyond f s zero_there h j = elim (dec_lt j (length s.guests)) [
  | yes less ↦ h j less
  | no outside ↦ ap f (get_or_beyond s.guests j served (omega arith)) ∙ zero_there
]

-- The barber's three turns leave nobody in a chair.
three_cuts :
    (s : Salon)
    → IsValid s
    → tally count_coming s.guests ≡ 0
    → let s' = run (barbers 0 ∷ barbers 0 ∷ barbers 0 ∷ []) s in
      IsValid s' × (s'.waiting_customers ≡ 0) × (tally count_coming s'.guests ≡ 0)
unfolding run
three_cuts s v nobody =
    let (v1, e1, c1) = barber_turn-IsValid 0 s v in
    let (v2, e2, c2) = barber_turn-IsValid 0 (barber_turn 0 s) v1 in
    let (v3, e3, c3) = barber_turn-IsValid 0 (barber_turn 0 (barber_turn 0 s)) v2 in
    (v3, omega (arith, v.bounded, e1, e2, e3), c3 ∙ c2 ∙ c1 ∙ nobody)

returned_of :
    (g : Guest)
    → count_coming g + (count_seated g + count_called g) ≡ 0
    → (g ≡ served) ⊎ (g ≡ turned_away)
returned_of served h = inl refl
returned_of turned_away h = inr refl
returned_of coming h = absurd (omega (arith, h))
returned_of seated h = absurd (omega (arith, h))
returned_of called h = absurd (omega (arith, h))

-- The customers, the barber three times, and the customers again.
abbrev pub closing : List Choice
closing =
    each_guest max_customers ++ (barbers 0 ∷ barbers 0 ∷ barbers 0 ∷ []) ++ each_guest max_customers

closed :
    (s : Salon)
    → IsValid s
    → IsValid (run closing s)
      × ((j : ℕ)
          → j < max_customers
          → let g = get_or (run closing s).guests j served in
            count_coming g + (count_seated g + count_called g) ≡ 0)
closed s v =
    let came = run (each_guest max_customers) s in
    let v1 = run-IsValid (each_guest max_customers) s v in
    let none_coming : tally count_coming came.guests ≡ 0 =
      tally_zero served count_coming came.guests (
        beyond count_coming came refl
          (λ j less. all_come max_customers s v j (omega (arith, less, v1.all_guests)))) in
    let cut_off = run (barbers 0 ∷ barbers 0 ∷ barbers 0 ∷ []) came in
    let (v2, nobody, still_none) = three_cuts came v1 none_coming in
    let quiet =
      beyond (λ g. count_coming g + count_seated g) cut_off refl
        (λ j less. omega (
          arith,
          nobody,
          still_none,
          v2.waiting,
          tally_ge served count_coming cut_off.guests j less,
          tally_ge served count_seated cut_off.guests j less,
        )) in
    let same : run closing s ≡ run (each_guest max_customers) cut_off =
      run_append (each_guest max_customers)
        ((barbers 0 ∷ barbers 0 ∷ barbers 0 ∷ []) ++ each_guest max_customers) s
      ∙ run_append (barbers 0 ∷ barbers 0 ∷ barbers 0 ∷ []) (each_guest max_customers) came in
    rw (same)
      (run-IsValid (each_guest max_customers) cut_off v2, all_finish max_customers cut_off v2 quiet)

-- After every schedule in which waits end only by the signals of the code, once each customer has run, the barber three
-- times, and each customer again, all customers have returned, nobody is counted as waiting, and the barber has cut as
-- often as customers have had a haircut.
pub all_leave :
    (ts : List Choice)
    → let s = run (ts ++ closing) open_salon in
      ((j : ℕ)
        → j < max_customers
        → (get_or s.guests j served ≡ served) ⊎ (get_or s.guests j served ≡ turned_away))
      × (s.waiting_customers ≡ 0)
      × (s.cuts ≡ tally count_served s.guests)
all_leave ts =
    let s = run ts open_salon in
    let (v, pending) = closed s (run-IsValid ts open_salon open_salon-IsValid) in
    let none_at =
      λ (f : Guest → ℕ) (zero_there : f served ≡ 0)
          (h : (j : ℕ) → j < max_customers → f (get_or (run closing s).guests j served) ≡ 0).
        tally_zero served f (run closing s).guests (
          beyond f (run closing s) zero_there
            (λ j less. h j (omega (arith, less, v.all_guests)))) in
    let no_seats : tally count_seated (run closing s).guests ≡ 0 =
      none_at count_seated refl (λ j less. omega (arith, pending j less)) in
    let no_calls : tally count_called (run closing s).guests ≡ 0 =
      none_at count_called refl (λ j less. omega (arith, pending j less)) in
    rw (run_append ts closing open_salon) (
      λ j less. returned_of (get_or (run closing s).guests j served) (pending j less),
      omega (arith, v.waiting, no_seats),
      omega (arith, v.haircuts, no_calls),
    )
