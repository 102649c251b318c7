-- ===== src/Zemaphore/Toggle/Handover.antt =====
-- The end of a round of pthreads-sync-code/zemaphore/test-toggle.c: `zem_up` hands the token on.
use mathlib.Core.Path.{subst}
use os333_iit_bombay_labs.Prelude.{get_or-set_self, get_or-set_ne}
use os333_iit_bombay_labs.Prelude.{
  ℕ, ◌+◌, ◌-◌, ◌/◌, ◌%◌, ◌<◌, ◌≡◌, ◌≢◌, refl, sym, ap, ◌∙◌, true, false, List, length, get_or, set,
  ltb, ◌==◌, if◌then◌else◌, arith, length-set, ℕ_discrete,
}
use os333_iit_bombay_labs.Prelude.Int.{pos}
use os333_iit_bombay_labs.Threads.{set-all}
use os333_iit_bombay_labs.Zemaphore.{Zemaphore, zem_init, zem_up}
use os333_iit_bombay_labs.Zemaphore.Toggle.{
  num_threads, num_iter, Place, at_down, in_wait, signalled, at_print, at_up, returned, Toggle,
  zem_at, signal, up,
}
use os333_iit_bombay_labs.Zemaphore.Toggle.State.{
  in_zem, passing, has_turn, has_no_turn, has_returned, fits, count_of, cyclic, IsValid, its_turn,
  not_its_turn, others, e0,
}

wake : Place → Place
wake in_wait = signalled
wake p = p

wake_turn : (p : Place) → has_no_turn p ≡ true → has_turn in_zem (wake p) ≡ true
unfolding wake
wake_turn at_down h = refl
wake_turn in_wait h = refl
wake_turn signalled h = refl
wake_turn at_print h = h
wake_turn at_up h = h
wake_turn returned h = refl

wake_returned : (p : Place) → has_returned (wake p) ≡ has_returned p
unfolding wake
wake_returned at_down = refl
wake_returned in_wait = refl
wake_returned signalled = refl
wake_returned at_print = refl
wake_returned at_up = refl
wake_returned returned = refl

-- What holds of every place after a signal.
signal-all :
    (P : ℕ → Place → Type 0) (i : ℕ) (ps : List Place)
    → i < length ps
    → P i (wake (get_or ps i returned))
    → ((j : ℕ) → i ≢ j → P j (get_or ps j returned))
    → (length (signal i ps) ≡ length ps) × ((j : ℕ) → P j (get_or (signal i ps) j returned))
unfolding signal wake
signal-all P i ps less h k = by_place (get_or ps i returned) refl
  where
    same :
        (wake (get_or ps i returned) ≡ get_or ps i returned) → (j : ℕ) → P j (get_or ps j returned)
    same e j = elim (ℕ_discrete i j) [
      | yes eq ↦ subst (λ n. P n (get_or ps n returned)) eq (subst (P i) e h)
      | no ne ↦ k j ne
    ]

    by_place :
        (p : Place)
        → get_or ps i returned ≡ p
        → (length (signal i ps) ≡ length ps) × ((j : ℕ) → P j (get_or (signal i ps) j returned))
    by_place in_wait e =
        rw (e, signal)
          (length-set ps i signalled, set-all P ps i signalled returned less (rw (e, wake) at h) k)
    by_place at_down e = rw (e, signal) (refl, same (rw (e, wake) refl))
    by_place signalled e = rw (e, signal) (refl, same (rw (e, wake) refl))
    by_place at_print e = rw (e, signal) (refl, same (rw (e, wake) refl))
    by_place at_up e = rw (e, signal) (refl, same (rw (e, wake) refl))
    by_place returned e = rw (e, signal) (refl, same (rw (e, wake) refl))

zem_up_pos : (z : Zemaphore) → z.count ≡ pos 0 → (zem_up z).count ≡ pos 1
unfolding zem_up
zem_up_pos z e = rw (e) refl

-- After its round a thread has returned just where it has printed ten times.
last_round :
    (n : ℕ)
    → n < 10
    → has_returned (if ltb (n + 1) num_iter then at_down else returned) ≡ ((n + 1) == num_iter)
last_round n h = ground arith

at_lock_fits : (n : ℕ) → has_no_turn (if ltb (n + 1) num_iter then at_down else returned) ≡ true
at_lock_fits n = ground arith

not_last : (n : ℕ) → false ≡ (n == num_iter) → n ≢ num_iter
not_last n h = ground arith

-- Round `u` ends, and the token lies in the next zemaphore.
pub handed_on :
    (u : ℕ) (s : Toggle) (i : ℕ)
    → IsValid u passing s
    → i < num_threads
    → i ≡ u % num_threads
    → has_returned (get_or s.places i returned) ≡ false
    → IsValid (u + 1) in_zem (up i s)
unfolding up
handed_on u s i v less turn going =
    let next = (i + 1) % num_threads in
    let rounds = get_or s.iterations i 0 + 1 in
    let p : Place = if ltb rounds num_iter then at_down else returned in
    let next_turn : next ≡ (u + 1) % num_threads = omega (arith, turn) in
    let apart : next ≢ i = (λ e. omega (arith, e)) in
    let more : u < 30 = omega (
      arith,
      v.rounds i less,
      turn,
      not_last (get_or s.iterations i 0) (sym going ∙ v.ended i less),
      v.bounded,
    ) in
    let inside_places : next < length s.places = omega (arith, v.places_length) in
    let woken =
      signal-all
        (λ j q. i ≢ j → j < num_threads → fits in_zem (j == (u + 1) % num_threads) q ≡ true) next
        s.places inside_places
        (λ ne h.
          rw (its_turn next ((u + 1) % num_threads) next_turn)
            (wake_turn (get_or s.places next returned) (others u passing s i next v turn ne h)))
        (λ j far ne h.
          rw (not_its_turn next j ((u + 1) % num_threads) next_turn far)
            (others u passing s i j v turn ne h)) in
    let still =
      signal-all (λ j q. j < num_threads → has_returned q ≡ (get_or s.iterations j 0 == num_iter))
        next s.places inside_places
        (λ h. wake_returned (get_or s.places next returned) ∙ v.ended next h)
        (λ j far h. v.ended j h) in
    let inside_signalled : i < length (signal next s.places) =
      omega (arith, woken.0, v.places_length) in
    let inside_rounds : i < length s.iterations = omega (arith, v.iterations_length) in
    let inside : next < length s.zem = omega (arith, v.zem_length) in
    record {
      zem_length = length-set s.zem next _ ∙ v.zem_length;
      places_length = length-set (signal next s.places) i p ∙ woken.0 ∙ v.places_length;
      iterations_length = length-set s.iterations i rounds ∙ v.iterations_length;
      bounded = omega arith;
      counts =
          set-all
            (λ j (q : Zemaphore).
              j < num_threads → q.count ≡ count_of in_zem (j == (u + 1) % num_threads))
            s.zem next (zem_up (zem_at s next)) (zem_init (pos 0)) inside
            (λ h.
              rw (its_turn next ((u + 1) % num_threads) next_turn)
                (zem_up_pos (zem_at s next) (v.counts next h)))
            (λ j ne h.
              rw (not_its_turn next j ((u + 1) % num_threads) next_turn ne) (v.counts j h));
      fitting =
          set-all (λ j q. j < num_threads → fits in_zem (j == (u + 1) % num_threads) q ≡ true)
            (signal next s.places) i p returned inside_signalled
            (λ h.
              rw (not_its_turn next i ((u + 1) % num_threads) next_turn apart)
                (at_lock_fits (get_or s.iterations i 0)))
            (λ j ne h. woken.1 j ne h);
      rounds =
          set-all (λ j k. j < num_threads → k ≡ (u + 1 + 2 - j) / num_threads) s.iterations i rounds
            0 (omega (arith, v.iterations_length)) (λ h. omega (arith, v.rounds i less, turn))
            (λ j ne h. omega (arith, v.rounds j h, turn, ne));
      ended =
          set-all
            (λ j q.
              j < num_threads
              → has_returned q ≡ (get_or (set s.iterations i rounds) j 0 == num_iter))
            (signal next s.places) i p returned inside_signalled
            (λ h.
              last_round (get_or s.iterations i 0) (omega (arith, v.rounds i less))
              ∙ ap (λ k. k == num_iter)
                  (sym (get_or-set_self s.iterations i rounds 0 inside_rounds)))
            (λ j ne h.
              still.1 j h
              ∙ ap (λ k. k == num_iter) (sym (get_or-set_ne s.iterations i j rounds 0 ne)));
      in_order = v.in_order ∙ ap cyclic (sym (e0 (u + 1)));
    }
