-- ===== src/MasterWorker/Signals/Simulate.antt =====
-- Every run with signals (MasterWorker/Signals) is a run in which waits may also end by themselves (MasterWorker).
use mathlib.Core.Option
use os333_iit_bombay_labs.Prelude.{
  ℕ, ◌≡◌, ◌⊎◌, refl, sym, inl, inr, true, Option, none, some, List, [], ◌∷◌, length, get_or, ltb,
  arith, Bool-cases, map-replicate,
}
use os333_iit_bombay_labs.MasterWorker.{
  Config, Shared, System, Thread, generate_requests_loop, consume_request,
}
use os333_iit_bombay_labs.MasterWorker as Free
use os333_iit_bombay_labs.MasterWorker.Signals.{
  Place, at_lock, in_wait, signalled, returned, phase, Crew, start, Choice, master, worker,
  generate, serve_request, step, run,
}
use os333_iit_bombay_labs.MasterWorker.Signals.Forget.{forget, forget-master, forget-worker}

module _ (c : Config) where
  -- A step leaves the state, or is a step without signals.
  abbrev IsMatched : Crew → Choice → Type 0
  IsMatched s t =
      (step c s t ≡ some s)
      ⊎ ((u : Thread) × (Free.step c (forget s) u ≡ Option.map forget (step c s t)))

  master-IsMatched :
      (i w : ℕ) (s : Crew) (p : Place)
      → get_or s.masters i returned ≡ p
      → ltb i (length s.masters) ≡ true
      → IsMatched s (master i w)
  unfolding step generate
  master-IsMatched i w s in_wait e here = inl (rw (here, generate, e) refl)
  master-IsMatched i w s at_lock e here =
      inr
        (Thread.master i, rw (here) (forget-master c i w s at_lock e (λ q. ground (arith, q)) here))
  master-IsMatched i w s signalled e here =
      inr (
        Thread.master i,
        rw (here) (forget-master c i w s signalled e (λ q. ground (arith, q)) here),
      )
  master-IsMatched i w s returned e here =
      inr (
        Thread.master i,
        rw (here) (forget-master c i w s returned e (λ q. ground (arith, q)) here),
      )

  worker-IsMatched :
      (i w : ℕ) (s : Crew) (p : Place)
      → get_or s.workers i returned ≡ p
      → ltb i (length s.workers) ≡ true
      → IsMatched s (worker i w)
  unfolding step serve_request
  worker-IsMatched i w s in_wait e here = inl (rw (here, serve_request, e) refl)
  worker-IsMatched i w s at_lock e here =
      inr
        (Thread.worker i, rw (here) (forget-worker c i w s at_lock e (λ q. ground (arith, q)) here))
  worker-IsMatched i w s signalled e here =
      inr (
        Thread.worker i,
        rw (here) (forget-worker c i w s signalled e (λ q. ground (arith, q)) here),
      )
  worker-IsMatched i w s returned e here =
      inr (
        Thread.worker i,
        rw (here) (forget-worker c i w s returned e (λ q. ground (arith, q)) here),
      )

  step-IsMatched : (s : Crew) (t : Choice) → IsMatched s t
  unfolding step
  step-IsMatched s (master i w) = elim (Bool-cases (ltb i (length s.masters))) [
    | inl here ↦ master-IsMatched i w s (get_or s.masters i returned) refl here
    | inr gone ↦ inl (rw (gone) refl)
  ]
  step-IsMatched s (worker i w) = elim (Bool-cases (ltb i (length s.workers))) [
    | inl here ↦ worker-IsMatched i w s (get_or s.workers i returned) refl here
    | inr gone ↦ inl (rw (gone) refl)
  ]

  run-matched :
      (t : Choice) (ts : List Choice) (s : Crew) (u : Thread) (next : Option Crew)
      → step c s t ≡ next
      → Free.step c (forget s) u ≡ Option.map forget next
      → ((s' : Crew)
          → (us : List Thread) × (Free.run c (forget s') us ≡ Option.map forget (run c s' ts)))
      → (us : List Thread) × (Free.run c (forget s) us ≡ Option.map forget (run c s (t ∷ ts)))
  unfolding run Free.run
  run-matched t ts s u none e m h = (u ∷ [], rw (e, m) refl)
  run-matched t ts s u (some s') e m h = let (us, k) = h s' in (u ∷ us, rw (e, m) k)

  run_from :
      (ts : List Choice) (s : Crew)
      → (us : List Thread) × (Free.run c (forget s) us ≡ Option.map forget (run c s ts))
  unfolding run Free.run
  run_from [] s = ([], refl)
  run_from (t ∷ ts) s = elim (step-IsMatched s t) [
    | inl same ↦ let (us, k) = run_from ts s in (us, rw (same) k)
    | inr (u, m) ↦ run-matched t ts s u (step c s t) refl m (run_from ts)
  ]

-- Every run with signals leaves what some run leaves in which waits may also end by themselves.
pub run-forget :
    (c : Config) (buffer : List ℕ) (ts : List Choice)
    → (us : List Thread) × (Free.run c (Free.start c buffer) us
        ≡ Option.map forget (run c (start c buffer) ts))
unfolding start Free.start
run-forget c buffer ts =
    let (us, e) = run_from c ts (start c buffer) in
    (
      us,
      rw
          (
            sym (map-replicate phase c.num_masters at_lock),
            sym (map-replicate phase c.num_workers at_lock),
          )
          e,
    )
