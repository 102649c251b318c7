-- ===== src/Warmup/Indexes/Invariant.antt =====
-- The invariant of pthreads-sync-code/warmup_ex/ex2.c.
use os333_iit_bombay_labs.Prelude.{
  ℕ, zero, suc, ◌≤◌, ◌<◌, ◌≡◌, inl, inr, refl, ap, ◌∙◌, sym, true, Option, none, some, List, [],
  ◌∷◌, ◌++◌, length, get_or, set, ltb, ◌==◌, if◌then◌else◌, arith, Bool-cases, length-set,
  length-append, get_or-set, get_or_beyond,
}
use os333_iit_bombay_labs.Threads.{occurs, occurs-append}
use os333_iit_bombay_labs.Warmup.Indexes.{
  num_threads, Place, absent, at_print, at_free, returned, Indexes, start, create, routine,
}

-- The cell of a thread, and how often its index has been printed.
abbrev pub cell_of : ℕ → Place → Option ℕ
cell_of i absent = none
cell_of i at_print = some i
cell_of i at_free = some i
cell_of i returned = none

abbrev pub shown_at : Place → ℕ
shown_at absent = 0
shown_at at_print = 0
shown_at at_free = 1
shown_at returned = 1

pub shown_at_most : (place : Place) → shown_at place ≤ 1
shown_at_most absent = omega arith
shown_at_most at_print = omega arith
shown_at_most at_free = omega arith
shown_at_most returned = omega arith

pub record IsValid (s : Indexes) : Type 0 where
  pub cells : length s.heap ≡ length s.threads
  pub bounded : length s.threads ≤ num_threads
  pub owned : (i : ℕ) → get_or s.heap i none ≡ cell_of i (get_or s.threads i absent)
  pub shown : (i : ℕ) → occurs i s.printed ≡ shown_at (get_or s.threads i absent)

pub start-IsValid : IsValid start
unfolding start
start-IsValid = record { cells = refl; bounded = omega arith; owned = λ i. refl; shown = λ i. refl }

-- The entries of an array with one more.
get_or-append :
    {A : Type 0} (xs : List A) (x : A) (i : ℕ) (d : A)
    → get_or (xs ++ x ∷ []) i d ≡ (if i == length xs then x else get_or xs i d)
get_or-append [] x zero d = refl
get_or-append [] x (suc i) d = ground arith
get_or-append (y ∷ xs) x zero d = ground arith
get_or-append (y ∷ xs) x (suc i) d = ground (arith, get_or-append xs x i d)

pub create-IsValid : (s : Indexes) → IsValid s → IsValid (create s)
unfolding create
create-IsValid s v =
    let n = length s.threads in
    elim (Bool-cases (ltb n num_threads)) [
      | inl room ↦ rw (room) (record {
        cells = omega (
          arith,
          v.cells,
          length-append s.heap (some n ∷ []),
          length-append s.threads (at_print ∷ []),
        );
        bounded = ground (arith, room, length-append s.threads (at_print ∷ []));
        owned = λ i. elim (Bool-cases (i == n)) [
          | inl new ↦
              let same : n ≡ i = ground arith in
              rw
                (
                  get_or-append s.heap (some n) i none,
                  get_or-append s.threads at_print i absent,
                  v.cells,
                  new,
                )
                (ap some same)
          | inr old ↦
              rw
                (
                  get_or-append s.heap (some n) i none,
                  get_or-append s.threads at_print i absent,
                  v.cells,
                  old,
                )
                (v.owned i)
        ];
        shown = λ i. elim (Bool-cases (i == n)) [
          | inl new ↦
              let beyond : length s.threads ≤ i = ground arith in
              rw (get_or-append s.threads at_print i absent, new)
                (v.shown i ∙ ap shown_at (get_or_beyond s.threads i absent beyond))
          | inr old ↦ rw (get_or-append s.threads at_print i absent, old) (v.shown i)
        ];
      })
      | inr full ↦ simp (full) v
    ]

module _ (s : Indexes) (v : IsValid s) (i : ℕ) (less : i < length s.threads) where
  here :
      (place : Place) (j : ℕ)
      → get_or s.threads i absent ≡ place
      → (i == j) ≡ true
      → get_or s.threads j absent ≡ place
  here place j e same =
      let equal : j ≡ i = ground arith in ap (λ (k : ℕ). get_or s.threads k absent) equal ∙ e

  pub routine-IsValid :
      (place : Place)
      → get_or s.threads i absent ≡ place
      → (s' : Indexes) × (routine place i s ≡ some s') × IsValid s'
  unfolding routine
  routine-IsValid absent e = (s, refl, v)
  routine-IsValid at_print e =
      let cell : get_or s.heap i none ≡ some i = v.owned i ∙ ap (cell_of i) e in
      let s' : Indexes = record s {
        threads = set s.threads i at_free;
        printed = s.printed ++ i ∷ [];
      } in
      (
        s',
        rw (cell) refl,
        record {
          cells = v.cells ∙ sym (length-set s.threads i at_free);
          bounded = omega (arith, v.bounded, length-set s.threads i at_free);
          owned = λ j. elim (Bool-cases (i == j)) [
            | inl same ↦
                rw (get_or-set s.threads i j at_free absent less, same)
                  (v.owned j ∙ ap (cell_of j) (here at_print j e same))
            | inr other ↦ rw (get_or-set s.threads i j at_free absent less, other) (v.owned j)
          ];
          shown = λ j. elim (Bool-cases (i == j)) [
            | inl same ↦
                let before : occurs j s.printed ≡ 0 =
                  v.shown j ∙ ap shown_at (here at_print j e same) in
                let now : occurs j (i ∷ []) ≡ 1 = ground arith in
                rw (get_or-set s.threads i j at_free absent less, same)
                  (omega (arith, before, now, occurs-append j s.printed (i ∷ [])))
            | inr other ↦
                let now : occurs j (i ∷ []) ≡ 0 = ground arith in
                rw (get_or-set s.threads i j at_free absent less, other)
                  (omega (arith, v.shown j, now, occurs-append j s.printed (i ∷ [])))
          ];
        },
      )
  routine-IsValid at_free e =
      let cell : get_or s.heap i none ≡ some i = v.owned i ∙ ap (cell_of i) e in
      let inside : i < length s.heap = omega (arith, v.cells) in
      let s' : Indexes = record s {
        heap = set s.heap i none;
        threads = set s.threads i returned;
      } in
      (
        s',
        rw (cell) refl,
        record {
          cells = length-set s.heap i none ∙ v.cells ∙ sym (length-set s.threads i returned);
          bounded = omega (arith, v.bounded, length-set s.threads i returned);
          owned = λ j. elim (Bool-cases (i == j)) [
            | inl same ↦
                rw
                  (
                    get_or-set s.heap i j none none inside,
                    get_or-set s.threads i j returned absent less,
                    same,
                  )
                  refl
            | inr other ↦
                rw
                  (
                    get_or-set s.heap i j none none inside,
                    get_or-set s.threads i j returned absent less,
                    other,
                  )
                  (v.owned j)
          ];
          shown = λ j. elim (Bool-cases (i == j)) [
            | inl same ↦
                rw (get_or-set s.threads i j returned absent less, same)
                  (v.shown j ∙ ap shown_at (here at_free j e same))
            | inr other ↦ rw (get_or-set s.threads i j returned absent less, other) (v.shown j)
          ];
        },
      )
  routine-IsValid returned e = (s, refl, v)
