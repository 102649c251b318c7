-- ===== src/MasterWorker/Signals/Forget.antt =====
-- A critical section with signals (MasterWorker/Signals) is one without (MasterWorker).
use mathlib.Core.Option
use os333_iit_bombay_labs.Prelude.{
  ℕ, zero, suc, ◌≡◌, ◌≢◌, refl, sym, ap, ◌∙◌, Bool, true, false, Option, none, some, List, [], ◌∷◌,
  length, map, get_or, set, ltb, if◌then◌else◌, ◌>>=◌, map-set, get_or-map, length-map,
}
use os333_iit_bombay_labs.Threads.{Phase}
use os333_iit_bombay_labs.MasterWorker.{
  Config, Shared, System, Thread, generate_requests_loop, consume_request,
}
use os333_iit_bombay_labs.MasterWorker as Free
use os333_iit_bombay_labs.MasterWorker.Signals.{
  Place, at_lock, in_wait, signalled, returned, phase, place_of, Crew, wake_first, signal,
  generated, generate, served, serve_request,
}

-- The same state without its signals.
abbrev pub forget : Crew → System
forget s = record {
  shared = s.shared;
  masters = map phase s.masters;
  workers = map phase s.workers;
}

phase-place_of : (q : Phase) → phase (place_of q) ≡ q
phase-place_of Phase.at_lock = refl
phase-place_of Phase.in_wait = refl
phase-place_of Phase.returned = refl

phase-set :
    (ps : List Place) (i : ℕ)
    → get_or ps i returned ≡ in_wait
    → map phase (set ps i signalled) ≡ map phase ps
phase-set [] i e = refl
phase-set (p ∷ ps) zero e = ap (λ (q : Place). phase q ∷ map phase ps) (sym e)
phase-set (p ∷ ps) (suc i) e = ap (λ (qs : List Phase). phase p ∷ qs) (phase-set ps i e)

phase-wake_first : (ps : List Place) → map phase (wake_first ps) ≡ map phase ps
phase-wake_first [] = refl
phase-wake_first (in_wait ∷ ps) = refl
phase-wake_first (at_lock ∷ ps) = ap (λ (qs : List Phase). phase at_lock ∷ qs) (phase-wake_first ps)
phase-wake_first (signalled ∷ ps) =
    ap (λ (qs : List Phase). phase signalled ∷ qs) (phase-wake_first ps)
phase-wake_first (returned ∷ ps) =
    ap (λ (qs : List Phase). phase returned ∷ qs) (phase-wake_first ps)

phase-signal :
    (i : ℕ) (ps : List Place) (p : Place)
    → get_or ps i returned ≡ p
    → map phase (signal i ps) ≡ map phase ps
unfolding signal
phase-signal i ps in_wait e = rw (map, e) (phase-set ps i e)
phase-signal i ps at_lock e = rw (map, e) (phase-wake_first ps)
phase-signal i ps signalled e = rw (map, e) (phase-wake_first ps)
phase-signal i ps returned e = rw (map, e) (phase-wake_first ps)

phase-signal_if :
    (b : Bool) (i : ℕ) (ps : List Place) → map phase (if b then signal i ps else ps) ≡ map phase ps
phase-signal_if true i ps = phase-signal i ps (get_or ps i returned) refl
phase-signal_if false i ps = refl

module _ (c : Config) where
  -- What a thread does that is not in its wait.
  pub generate_awake :
      (i w : ℕ) (s : Crew) (p : Place)
      → get_or s.masters i returned ≡ p
      → p ≢ in_wait
      → generate c i w s
        ≡ (generate_requests_loop c (phase p) s.shared >>= λ r. some (generated i w s r))
  unfolding generate
  generate_awake i w s at_lock e awake = rw (generate, e) refl
  generate_awake i w s in_wait e awake = absurd (awake refl)
  generate_awake i w s signalled e awake = rw (generate, e) refl
  generate_awake i w s returned e awake = rw (generate, e) refl

  pub serve_request_awake :
      (i w : ℕ) (s : Crew) (p : Place)
      → get_or s.workers i returned ≡ p
      → p ≢ in_wait
      → serve_request c i w s
        ≡ (consume_request c (phase p) s.shared >>= λ r. some (served i w s r))
  unfolding serve_request
  serve_request_awake i w s at_lock e awake = rw (serve_request, e) refl
  serve_request_awake i w s in_wait e awake = absurd (awake refl)
  serve_request_awake i w s signalled e awake = rw (serve_request, e) refl
  serve_request_awake i w s returned e awake = rw (serve_request, e) refl

  forget-generated :
      (i w : ℕ) (s : Crew) (r : Shared × Phase)
      → forget (generated i w s r)
        ≡ record (forget s) { shared = r.0; masters = set (map phase s.masters) i r.1 }
  forget-generated i w s (shared', q) = cc (
    map-set phase s.masters i (place_of q),
    phase-place_of q,
    phase-signal_if (ltb s.shared.item_to_produce shared'.item_to_produce) w s.workers,
  )

  forget-served :
      (i w : ℕ) (s : Crew) (r : Shared × Phase)
      → forget (served i w s r)
        ≡ record (forget s) { shared = r.0; workers = set (map phase s.workers) i r.1 }
  forget-served i w s (shared', q) = cc (
    map-set phase s.workers i (place_of q),
    phase-place_of q,
    phase-signal_if (ltb shared'.curr_buf_size s.shared.curr_buf_size) w s.masters,
  )

  map-bind :
      (x : Option (Shared × Phase)) (f : Shared × Phase → Crew) (g : Shared × Phase → System)
      → ((r : Shared × Phase) → forget (f r) ≡ g r)
      → (x >>= λ r. some (g r)) ≡ Option.map forget (x >>= λ r. some (f r))
  map-bind none f g h = refl
  map-bind (some r) f g h = ap some (sym (h r))

  pub forget-master :
      (i w : ℕ) (s : Crew) (p : Place)
      → get_or s.masters i returned ≡ p
      → p ≢ in_wait
      → ltb i (length s.masters) ≡ true
      → Free.step c (forget s) (Thread.master i) ≡ Option.map forget (generate c i w s)
  unfolding Free.step
  forget-master i w s p e awake here =
      let bound : ltb i (length (map phase s.masters)) ≡ true =
        ap (ltb i) (length-map phase s.masters) ∙ here in
      let at_phase : get_or (map phase s.masters) i Phase.returned ≡ phase p =
        get_or-map phase s.masters i returned ∙ ap phase e in
      rw (bound, at_phase, generate_awake i w s p e awake)
        (map-bind (generate_requests_loop c (phase p) s.shared) (generated i w s)
          (λ r. record (forget s) { shared = r.0; masters = set (map phase s.masters) i r.1 })
          (forget-generated i w s))

  pub forget-worker :
      (i w : ℕ) (s : Crew) (p : Place)
      → get_or s.workers i returned ≡ p
      → p ≢ in_wait
      → ltb i (length s.workers) ≡ true
      → Free.step c (forget s) (Thread.worker i) ≡ Option.map forget (serve_request c i w s)
  unfolding Free.step
  forget-worker i w s p e awake here =
      let bound : ltb i (length (map phase s.workers)) ≡ true =
        ap (ltb i) (length-map phase s.workers) ∙ here in
      let at_phase : get_or (map phase s.workers) i Phase.returned ≡ phase p =
        get_or-map phase s.workers i returned ∙ ap phase e in
      rw (bound, at_phase, serve_request_awake i w s p e awake)
        (map-bind (consume_request c (phase p) s.shared) (served i w s)
          (λ r. record (forget s) { shared = r.0; workers = set (map phase s.workers) i r.1 })
          (forget-served i w s))
