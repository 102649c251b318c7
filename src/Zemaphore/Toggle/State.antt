-- ===== src/Zemaphore/Toggle/State.antt =====
-- Where the one token of pthreads-sync-code/zemaphore/test-toggle.c is: the invariant, step by step.
use os333_iit_bombay_labs.Prelude.{
  ℕ, zero, suc, ◌+◌, ◌-◌, ◌*◌, ◌/◌, ◌%◌, ◌≤◌, ◌<◌, ◌≡◌, ◌≢◌, refl, sym, ap, ◌∙◌, Bool, true, false,
  List, [], ◌∷◌, ◌++◌, length, get_or, set, ◌==◌, arith, length-set,
}
use os333_iit_bombay_labs.Prelude.Int.{ℤ, pos}
use os333_iit_bombay_labs.Threads.{set-all}
use os333_iit_bombay_labs.Zemaphore.{Zemaphore, zem_init, zem_up}
use os333_iit_bombay_labs.Zemaphore.Toggle.{
  num_threads, num_iter, Place, at_down, in_wait, signalled, at_print, at_up, returned, Toggle,
  start, zem_at, go,
}

-- The token: the 1 in some `count`, or a thread that prints, or one that has printed.
pub data Stage : Type 0 where
  in_zem printing passing : Stage

-- The places of the thread whose turn it is.
abbrev pub has_turn : Stage → Place → Bool
has_turn in_zem at_down = true
has_turn in_zem signalled = true
has_turn in_zem returned = true
has_turn printing at_print = true
has_turn passing at_up = true
has_turn _ _ = false

-- The places of the others.
abbrev pub has_no_turn : Place → Bool
has_no_turn at_down = true
has_no_turn in_wait = true
has_no_turn returned = true
has_no_turn _ = false

abbrev pub fits : Stage → Bool → Place → Bool
fits c true p = has_turn c p
fits c false p = has_no_turn p

abbrev pub has_returned : Place → Bool
has_returned returned = true
has_returned _ = false

abbrev pub count_of : Stage → Bool → ℤ
count_of in_zem true = pos 1
count_of _ _ = pos 0

abbrev pub ahead : Stage → ℕ
ahead in_zem = 0
ahead printing = 0
ahead passing = 1

-- 0, 1, 2, 0, 1, and so on, n of them.
abbrev pub cyclic : ℕ → List ℕ
cyclic zero = []
cyclic (suc n) = cyclic n ++ (n % num_threads) ∷ []

-- `u` rounds are over, and the token of round `u` is at stage `c`.
pub record IsValid (u : ℕ) (c : Stage) (s : Toggle) : Type 0 where
  pub zem_length : length s.zem ≡ num_threads
  pub places_length : length s.places ≡ num_threads
  pub iterations_length : length s.iterations ≡ num_threads
  pub bounded : u ≤ num_threads * num_iter
  pub counts : (i : ℕ) → i < num_threads → (zem_at s i).count ≡ count_of c (i == u % num_threads)
  pub fitting :
      (i : ℕ) → i < num_threads → fits c (i == u % num_threads) (get_or s.places i returned) ≡ true
  pub rounds : (i : ℕ) → i < num_threads → get_or s.iterations i 0 ≡ (u + 2 - i) / num_threads
  pub ended :
      (i : ℕ)
      → i < num_threads
      → has_returned (get_or s.places i returned) ≡ (get_or s.iterations i 0 == num_iter)
  pub in_order : s.printed ≡ cyclic (u + ahead c)

each : (P : ℕ → Type 0) → P 0 → P 1 → P 2 → (i : ℕ) → i < num_threads → P i
each P a b c zero h = a
each P a b c (suc zero) h = b
each P a b c (suc (suc zero)) h = c
each P a b c (suc (suc (suc i))) h = absurd (omega arith)

pub start-IsValid : IsValid 0 in_zem start
unfolding start zem_init zem_up
start-IsValid = record {
  zem_length = refl;
  places_length = refl;
  iterations_length = refl;
  bounded = omega arith;
  counts = each (λ i. (zem_at start i).count ≡ count_of in_zem (i == 0)) refl refl refl;
  fitting = each (λ i. fits in_zem (i == 0) (get_or start.places i returned) ≡ true) refl refl refl;
  rounds = each (λ i. get_or start.iterations i 0 ≡ (2 - i) / num_threads) refl refl refl;
  ended =
      each
        (λ i.
          has_returned (get_or start.places i returned) ≡ (get_or start.iterations i 0 == num_iter))
        refl refl refl;
  in_order = refl;
}

pub its_turn : (i h : ℕ) → i ≡ h → (i == h) ≡ true
its_turn i h e = ground arith

pub not_its_turn : (i j h : ℕ) → i ≡ h → i ≢ j → (j == h) ≡ false
not_its_turn i j h e ne = ground arith

-- A move of thread `i` that leaves the token where it is.
pub moved :
    (u : ℕ) (c : Stage) (s : Toggle) (i : ℕ) (p : Place)
    → IsValid u c s
    → i < num_threads
    → fits c (i == u % num_threads) p ≡ true
    → has_returned p ≡ has_returned (get_or s.places i returned)
    → IsValid u c (go i p s)
moved u c s i p v less fit ends =
    let inside : i < length s.places = omega (arith, v.places_length) in
    record {
      zem_length = v.zem_length;
      places_length = length-set s.places i p ∙ v.places_length;
      iterations_length = v.iterations_length;
      bounded = v.bounded;
      counts = v.counts;
      fitting =
          set-all (λ j q. j < num_threads → fits c (j == u % num_threads) q ≡ true) s.places i p
            returned inside (λ h. fit) (λ j ne. v.fitting j);
      rounds = v.rounds;
      ended =
          set-all (λ j q. j < num_threads → has_returned q ≡ (get_or s.iterations j 0 == num_iter))
            s.places i p returned inside (λ h. ends ∙ v.ended i less) (λ j ne. v.ended j);
      in_order = v.in_order;
    }

pub others :
    (u : ℕ) (c : Stage) (s : Toggle) (i j : ℕ)
    → IsValid u c s
    → i ≡ u % num_threads
    → i ≢ j
    → j < num_threads
    → has_no_turn (get_or s.places j returned) ≡ true
others u c s i j v turn ne less =
    ap (λ b. fits c b (get_or s.places j returned))
      (sym (not_its_turn i j (u % num_threads) turn ne))
    ∙ v.fitting j less

-- The thread whose turn it is takes the token out of its zemaphore, and prints.
pub taken :
    (u : ℕ) (s : Toggle) (i : ℕ) (z : Zemaphore)
    → IsValid u in_zem s
    → i < num_threads
    → i ≡ u % num_threads
    → z.count ≡ pos 0
    → has_returned (get_or s.places i returned) ≡ false
    → IsValid u printing (go i at_print (record s { zem = set s.zem i z }))
taken u s i z v less turn empty going =
    let inside : i < length s.places = omega (arith, v.places_length) in
    let inside' : i < length s.zem = omega (arith, v.zem_length) in
    record {
      zem_length = length-set s.zem i z ∙ v.zem_length;
      places_length = length-set s.places i at_print ∙ v.places_length;
      iterations_length = v.iterations_length;
      bounded = v.bounded;
      counts =
          set-all
            (λ j (q : Zemaphore).
              j < num_threads → q.count ≡ count_of printing (j == u % num_threads))
            s.zem i z (zem_init (pos 0)) inside' (λ h. empty)
            (λ j ne h.
              v.counts j h ∙ ap (count_of in_zem) (not_its_turn i j (u % num_threads) turn ne));
      fitting =
          set-all (λ j q. j < num_threads → fits printing (j == u % num_threads) q ≡ true) s.places
            i at_print returned inside (λ h. rw (its_turn i (u % num_threads) turn) refl)
            (λ j ne h.
              rw (not_its_turn i j (u % num_threads) turn ne) (others u in_zem s i j v turn ne h));
      rounds = v.rounds;
      ended =
          set-all (λ j q. j < num_threads → has_returned q ≡ (get_or s.iterations j 0 == num_iter))
            s.places i at_print returned inside (λ h. sym going ∙ v.ended i less)
            (λ j ne. v.ended j);
      in_order = v.in_order;
    }

pub e0 : (u : ℕ) → u + 0 ≡ u
e0 u = omega arith

pub e1 : (u : ℕ) → u + 1 ≡ suc u
e1 u = omega arith

-- It has printed.
pub printed :
    (u : ℕ) (s : Toggle) (i : ℕ)
    → IsValid u printing s
    → i < num_threads
    → i ≡ u % num_threads
    → has_returned (get_or s.places i returned) ≡ false
    → IsValid u passing (go i at_up (record s { printed = s.printed ++ i ∷ [] }))
printed u s i v less turn going =
    let here : s.printed ≡ cyclic u = v.in_order ∙ ap cyclic (e0 u) in
    let inside : i < length s.places = omega (arith, v.places_length) in
    record {
      zem_length = v.zem_length;
      places_length = length-set s.places i at_up ∙ v.places_length;
      iterations_length = v.iterations_length;
      bounded = v.bounded;
      counts = v.counts;
      fitting =
          set-all (λ j q. j < num_threads → fits passing (j == u % num_threads) q ≡ true) s.places i
            at_up returned inside (λ h. rw (its_turn i (u % num_threads) turn) refl)
            (λ j ne h.
              rw (not_its_turn i j (u % num_threads) turn ne)
                (others u printing s i j v turn ne h));
      rounds = v.rounds;
      ended =
          set-all (λ j q. j < num_threads → has_returned q ≡ (get_or s.iterations j 0 == num_iter))
            s.places i at_up returned inside (λ h. sym going ∙ v.ended i less) (λ j ne. v.ended j);
      in_order = rw (e1 u, here, turn) refl;
    }
