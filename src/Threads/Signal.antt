-- ===== src/Threads/Signal.antt =====
-- `pthread_cond_signal`: it wakes one of the threads that wait, if any does.
use os333_iit_bombay_labs.Prelude.{
  ℕ, zero, suc, ◌<◌, ◌≡◌, ◌⊎◌, refl, ap, inl, inr, Bool, true, false, List, [], ◌∷◌, length, get_or,
  set, if◌then◌else◌, arith, Bool-cases,
}

-- `d` stands for a thread that does not wait.
module _ {A : Type 0} (waits : A → Bool) (woken d : A) where
  abbrev wake_first : List A → List A
  wake_first [] = []
  wake_first (p ∷ ps) = let rest = wake_first ps in if waits p then woken ∷ ps else p ∷ rest

  -- Thread `k` is woken, or the first that waits.
  unfoldable pub signal : ℕ → List A → List A
  signal k ps = if waits (get_or ps k d) then set ps k woken else wake_first ps

  -- Nobody waits and nothing changes, or one that waits is woken.
  abbrev pub Signalled : List A → List A → Type 0
  Signalled ps qs =
      (((i : ℕ) → waits (get_or ps i d) ≡ false) × (qs ≡ ps))
      ⊎ ((i : ℕ) × (i < length ps) × (waits (get_or ps i d) ≡ true) × (qs ≡ set ps i woken))

  wake_first-Signalled : waits d ≡ false → (ps : List A) → Signalled ps (wake_first ps)
  wake_first-Signalled h [] = inl ((λ i. h), refl)
  wake_first-Signalled h (p ∷ ps) = elim (Bool-cases (waits p)) [
    | inl waiting ↦ inr (0, omega arith, waiting, rw (waiting) refl)
    | inr awake ↦ elim (wake_first-Signalled h ps) [
      | inl (nobody, same) ↦
          inl (nobody_first p ps awake nobody, rw (awake) (ap (λ (qs : List A). p ∷ qs) same))
      | inr (i, less, waiting, e) ↦
          inr (suc i, omega arith, waiting, rw (awake) (ap (λ (qs : List A). p ∷ qs) e))
    ]
  ]
    where
      nobody_first :
          (p : A) (ps : List A)
          → waits p ≡ false
          → ((i : ℕ) → waits (get_or ps i d) ≡ false)
          → (i : ℕ) → waits (get_or (p ∷ ps) i d) ≡ false
      nobody_first p ps awake nobody zero = awake
      nobody_first p ps awake nobody (suc i) = nobody i

  waits_inside :
      waits d ≡ false → (ps : List A) (k : ℕ) → waits (get_or ps k d) ≡ true → k < length ps
  waits_inside h [] k e = absurd (ground (arith, h, e))
  waits_inside h (p ∷ ps) zero e = omega arith
  waits_inside h (p ∷ ps) (suc k) e = omega (arith, waits_inside h ps k e)

  pub signal-Signalled : waits d ≡ false → (k : ℕ) (ps : List A) → Signalled ps (signal k ps)
  unfolding signal
  signal-Signalled h k ps = elim (Bool-cases (waits (get_or ps k d))) [
    | inl waiting ↦ inr (k, waits_inside h ps k waiting, waiting, rw (waiting) refl)
    | inr awake ↦ rw (awake) (wake_first-Signalled h ps)
  ]
