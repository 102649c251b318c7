-- ===== src/Warmup/Indexes/Once.antt =====
-- The lines and the cells of pthreads-sync-code/warmup_ex/ex2.c at its end.
use mathlib.Core.Option
use mathlib.Core.Path.{subst}
use os333_iit_bombay_labs.Prelude.{
  ℕ, zero, suc, ◌≤◌, ◌<◌, ◌≡◌, refl, ap, ◌∙◌, sym, true, false, Option, none, some, List, [], ◌∷◌,
  length, get_or, ltb, if◌then◌else◌, arith, dec_lt, get_or_beyond,
}
use os333_iit_bombay_labs.Threads.{occurs}
use os333_iit_bombay_labs.Warmup.Indexes.{
  num_threads, Place, absent, at_print, at_free, returned, Indexes, start, create, routine, step,
  run, all_joined,
}
use os333_iit_bombay_labs.Warmup.Indexes.Invariant.{
  cell_of, shown_at, shown_at_most, IsValid, start-IsValid, create-IsValid, routine-IsValid,
}

step-IsValid :
    (move : Option ℕ) (s : Indexes)
    → IsValid s
    → (s' : Indexes) × (step move s ≡ some s') × IsValid s'
unfolding step routine
step-IsValid none s v = (create s, refl, create-IsValid s v)
step-IsValid (some i) s v = elim (dec_lt i (length s.threads)) [
  | yes less ↦ routine-IsValid s v i less (get_or s.threads i absent) refl
  | no beyond ↦ (s, rw (get_or_beyond s.threads i absent (omega arith)) refl, v)
]

run-IsValid :
    (schedule : List (Option ℕ)) (s : Indexes)
    → IsValid s
    → (s' : Indexes) × (run schedule s ≡ some s') × IsValid s'
unfolding run
run-IsValid [] s v = (s, refl, v)
run-IsValid (move ∷ schedule) s v =
    let (s', e, v') = step-IsValid move s v in
    let (last, e', v'') = run-IsValid schedule s' v' in (last, rw (e) e', v'')

joined_place :
    (threads : List Place) (i : ℕ)
    → all_joined threads ≡ true
    → i < length threads
    → get_or threads i absent ≡ returned
unfolding all_joined
joined_place [] i h less = absurd (omega arith)
joined_place (returned ∷ threads) zero h less = refl
joined_place (returned ∷ threads) (suc i) h less = joined_place threads i h (omega arith)
joined_place (absent ∷ threads) i h less = absurd (ground (arith, h))
joined_place (at_print ∷ threads) i h less = absurd (ground (arith, h))
joined_place (at_free ∷ threads) i h less = absurd (ground (arith, h))

-- Under every schedule of `main` and the threads no access faults, and no index is printed twice.
no_index_twice :
    (schedule : List (Option ℕ))
    → (s : Indexes) × (run schedule start ≡ some s) × ((i : ℕ) → occurs i s.printed ≤ 1)
no_index_twice schedule =
    let (s, e, v) = run-IsValid schedule start start-IsValid in
    (s, e, λ i. omega (arith, v.shown i, shown_at_most (get_or s.threads i absent)))

reached-IsValid :
    (schedule : List (Option ℕ)) (s : Indexes) → run schedule start ≡ some s → IsValid s
reached-IsValid schedule s e =
    let (s', e', v) = run-IsValid schedule start start-IsValid in
    let same : s' ≡ s = Option.some-injective s' s (sym e' ∙ e) in subst IsValid same v

-- Once ten threads have been created and joined, every index below 10 has been printed once, nothing else has been, and
-- every cell is freed.
pub each_once :
    (schedule : List (Option ℕ)) (s : Indexes)
    → run schedule start ≡ some s
    → length s.threads ≡ num_threads
    → all_joined s.threads ≡ true
    → (i : ℕ)
    → (occurs i s.printed ≡ (if ltb i num_threads then 1 else 0)) × (get_or s.heap i none ≡ none)
each_once schedule s e all joined i =
    let v = reached-IsValid schedule s e in
    elim (dec_lt i num_threads) [
      | yes less ↦
          let place = joined_place s.threads i joined (omega (arith, all)) in
          let inside : ltb i num_threads ≡ true = ground arith in
          (rw (inside) (v.shown i ∙ ap shown_at place), v.owned i ∙ ap (cell_of i) place)
      | no beyond ↦
          let place = get_or_beyond s.threads i absent (omega (arith, all)) in
          let outside : ltb i num_threads ≡ false = ground arith in
          (rw (outside) (v.shown i ∙ ap shown_at place), v.owned i ∙ ap (cell_of i) place)
    ]
