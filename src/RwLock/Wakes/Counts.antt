-- ===== src/RwLock/Wakes/Counts.antt =====
-- How many threads are where (RwLock/Wakes), and what a signal and a broadcast change.
use os333_iit_bombay_labs.Prelude.{
  ℕ, zero, suc, ◌+◌, ◌<◌, ◌≡◌, ◌⊎◌, refl, ap, inl, inr, List, [], ◌∷◌, map, get_or, set, arith,
}
use os333_iit_bombay_labs.Threads.{tally}
use os333_iit_bombay_labs.RwLock.Wakes.{
  Spot, outside, asleep, woken, inside, rouse, wake_first, signal,
}

abbrev pub is_inside : Spot → ℕ
is_inside outside = 0
is_inside asleep = 0
is_inside woken = 0
is_inside inside = 1

abbrev pub is_asleep : Spot → ℕ
is_asleep outside = 0
is_asleep asleep = 1
is_asleep woken = 0
is_asleep inside = 0

abbrev pub is_woken : Spot → ℕ
is_woken outside = 0
is_woken asleep = 0
is_woken woken = 1
is_woken inside = 0

-- What a signal does to the counts.
pub record Signalled (ps qs : List Spot) : Type 0 where
  pub same_inside : tally is_inside qs ≡ tally is_inside ps
  pub same_waiting : tally is_asleep qs + tally is_woken qs ≡ tally is_asleep ps + tally is_woken ps
  pub one_woken : (tally is_asleep qs ≡ 0) ⊎ (0 < tally is_woken qs)

more :
    (p : Spot) (ps qs : List Spot) → is_asleep p ≡ 0 → Signalled ps qs → Signalled (p ∷ ps) (p ∷ qs)
more p ps qs h v = record {
  same_inside = omega (arith, v.same_inside);
  same_waiting = omega (arith, v.same_waiting);
  one_woken = elim v.one_woken [
    | inl none_left ↦ inl (omega arith)
    | inr some_woken ↦ inr (omega arith)
  ];
}

wake_first-Signalled : (ps : List Spot) → Signalled ps (wake_first ps)
wake_first-Signalled [] = record { same_inside = refl; same_waiting = refl; one_woken = inl refl }
wake_first-Signalled (outside ∷ ps) = more outside ps (wake_first ps) refl (wake_first-Signalled ps)
wake_first-Signalled (woken ∷ ps) = more woken ps (wake_first ps) refl (wake_first-Signalled ps)
wake_first-Signalled (inside ∷ ps) = more inside ps (wake_first ps) refl (wake_first-Signalled ps)
wake_first-Signalled (asleep ∷ ps) = record {
  same_inside = refl;
  same_waiting = omega arith;
  one_woken = inr (omega arith);
}

-- A thread at a known spot.
tally_at :
    (f : Spot → ℕ) (ps : List Spot) (k : ℕ)
    → get_or ps k outside ≡ asleep
    → tally f (set ps k woken) + f asleep ≡ tally f ps + f woken
tally_at f [] k e = absurd (ground (arith, e))
tally_at f (p ∷ ps) zero e = omega (arith, ap f e)
tally_at f (p ∷ ps) (suc k) e = omega (arith, tally_at f ps k e)

signal_at :
    (k : ℕ) (ps : List Spot) (p : Spot) → get_or ps k outside ≡ p → Signalled ps (signal k ps)
unfolding signal
signal_at k ps asleep e =
    rw (signal, e)
      (record {
        same_inside = omega (arith, tally_at is_inside ps k e);
        same_waiting = omega (arith, tally_at is_asleep ps k e, tally_at is_woken ps k e);
        one_woken = inr (omega (arith, tally_at is_woken ps k e));
      })
signal_at k ps outside e = rw (signal, e) (wake_first-Signalled ps)
signal_at k ps woken e = rw (signal, e) (wake_first-Signalled ps)
signal_at k ps inside e = rw (signal, e) (wake_first-Signalled ps)

pub signal-Signalled : (k : ℕ) (ps : List Spot) → Signalled ps (signal k ps)
signal-Signalled k ps = signal_at k ps (get_or ps k outside) refl

-- A broadcast leaves nobody asleep.
pub nobody_asleep : (ps : List Spot) → tally is_asleep (map rouse ps) ≡ 0
nobody_asleep [] = refl
nobody_asleep (outside ∷ ps) = omega (arith, nobody_asleep ps)
nobody_asleep (asleep ∷ ps) = omega (arith, nobody_asleep ps)
nobody_asleep (woken ∷ ps) = omega (arith, nobody_asleep ps)
nobody_asleep (inside ∷ ps) = omega (arith, nobody_asleep ps)

pub same_inside : (ps : List Spot) → tally is_inside (map rouse ps) ≡ tally is_inside ps
same_inside [] = refl
same_inside (outside ∷ ps) = omega (arith, same_inside ps)
same_inside (asleep ∷ ps) = omega (arith, same_inside ps)
same_inside (woken ∷ ps) = omega (arith, same_inside ps)
same_inside (inside ∷ ps) = omega (arith, same_inside ps)
