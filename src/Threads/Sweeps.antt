-- ===== src/Threads/Sweeps.antt =====
-- Threads that are scheduled in turns, over and over, until all of them are blocked.
use os333_iit_bombay_labs.Prelude.{
  ℕ, zero, suc, ◌≤◌, ◌<◌, ◌≡◌, ◌⊎◌, inl, inr, refl, sym, ap, ◌∙◌, List, [], ◌∷◌, ◌++◌, arith, All,
}
use mathlib.Core.Path.{subst}

unfoldable pub sweeps : {C : Type 0} → ℕ → List C → List C
sweeps zero cs = []
sweeps (suc n) cs = cs ++ sweeps n cs

module _ {S C : Type 0} (step : C → S → S) where
  abbrev pub moves : List C → S → S
  moves [] s = s
  moves (c ∷ cs) s = moves cs (step c s)

  pub moves-append : (cs ds : List C) (s : S) → moves (cs ++ ds) s ≡ moves ds (moves cs s)
  moves-append [] ds s = refl
  moves-append (c ∷ cs) ds s = moves-append cs ds (step c s)

  module _ (IsValid : S → Type 0) (Blocked : C → S → Type 0) (left : S → ℕ)
      (keeps : (c : C) (s : S) → IsValid s → IsValid (step c s))
      (goes_on : (c : C) (s : S)
        → IsValid s
        → ((step c s ≡ s) × Blocked c s) ⊎ (left (step c s) < left s)) where
    moves-IsValid : (cs : List C) (s : S) → IsValid s → IsValid (moves cs s)
    moves-IsValid [] s v = v
    moves-IsValid (c ∷ cs) s v = moves-IsValid cs (step c s) (keeps c s v)

    abbrev pub Quiet : List C → S → Type 0
    Quiet cs s = All (λ c. (step c s ≡ s) × Blocked c s) cs

    no_more : (cs : List C) (s : S) → IsValid s → left (moves cs s) ≤ left s
    no_more [] s v = omega arith
    no_more (c ∷ cs) s v = elim (goes_on c s v) [
      | inl (same, blocked) ↦ subst (λ t. left (moves cs t) ≤ left s) (sym same) (no_more cs s v)
      | inr less ↦ omega (arith, no_more cs (step c s) (keeps c s v))
    ]

    -- A round leaves less to do, or everybody is blocked.
    one_sweep : (cs : List C) (s : S) → IsValid s → Quiet cs s ⊎ (left (moves cs s) < left s)
    one_sweep [] s v = inl tt
    one_sweep (c ∷ cs) s v = elim (goes_on c s v) [
      | inl (same, blocked) ↦ elim (one_sweep cs s v) [
        | inl quiet ↦ inl ((same, blocked), quiet)
        | inr less ↦ inr (subst (λ t. left (moves cs t) < left s) (sym same) less)
      ]
      | inr less ↦ inr (omega (arith, less, no_more cs (step c s) (keeps c s v)))
    ]

    moves-Quiet : (cs : List C) (s : S) → Quiet cs s → moves cs s ≡ s
    moves-Quiet [] s q = refl
    moves-Quiet (c ∷ cs) s q = ap (moves cs) q.0.0 ∙ moves-Quiet cs s q.1

    still-Quiet : (n : ℕ) (cs : List C) (s : S) → Quiet cs s → moves (sweeps n cs) s ≡ s
    unfolding sweeps
    still-Quiet zero cs s q = refl
    still-Quiet (suc n) cs s q =
        moves-append cs (sweeps n cs) s
        ∙ ap (moves (sweeps n cs)) (moves-Quiet cs s q)
        ∙ still-Quiet n cs s q

    pub sweeps-Quiet :
        (n : ℕ) (cs : List C) (s : S)
        → IsValid s
        → left s ≤ n
        → IsValid (moves (sweeps n cs) s) × Quiet cs (moves (sweeps n cs) s)
    unfolding sweeps
    sweeps-Quiet zero cs s v enough = elim (one_sweep cs s v) [
      | inl quiet ↦ (v, quiet)
      | inr less ↦ absurd (omega arith)
    ]
    sweeps-Quiet (suc n) cs s v enough = elim (one_sweep cs s v) [
      | inl quiet ↦ rw (still-Quiet (suc n) cs s quiet) (v, quiet)
      | inr less ↦
          rw (moves-append cs (sweeps n cs) s)
            (sweeps-Quiet n cs (moves cs s) (moves-IsValid cs s v) (omega arith))
    ]
