-- ===== src/Chunks/Loops.antt =====
-- What the loops over the chunk tables compute: no fault within bounds, and their results by index.
use os333_iit_bombay_labs.Prelude.{
  ℕ, zero, suc, ◌+◌, ◌≤◌, ◌<◌, ◌≡◌, refl, ◌≢◌, Bool, true, false, ◌&&◌, Option, none, some, List,
  get_or, set, length, ltb, leb, if◌then◌else◌, arith, get_elem?-get_or, get_or-set, length-set,
  write-some, inl, inr, ◌⊎◌, ℕ_discrete,
}
use os333_iit_bombay_labs.Chunks.{run_free, first_fit, fill}

-- Every chunk from `k` on, `n` of them, is free.
abbrev pub IsFreeRun : List ℕ → ℕ → ℕ → Type 0
IsFreeRun f n k = (c : ℕ) → k ≤ c → c < k + n → get_or f c 0 ≢ 0

-- The scan finds a free run, or a used chunk in it.
pub run_free_lem :
    (n k : ℕ) (f : List ℕ)
    → k + n ≤ length f
    → ((run_free n k f ≡ some true) × IsFreeRun f n k)
      ⊎ ((run_free n k f ≡ some false) × ((c : ℕ) × (k ≤ c) × (c < k + n) × (get_or f c 0 ≡ 0)))
unfolding run_free
run_free_lem zero k f h = inl (refl, λ c a b. absurd (omega arith))
run_free_lem (suc n) k f h = elim (ℕ_discrete (get_or f k 0) 0) [
  | yes e ↦ inr (rw (get_elem?-get_or f k 0 (omega arith), e), (k, omega arith, omega arith, e))
  | no ne ↦ elim (run_free_lem n (suc k) f (omega arith)) [
    | inl (r, all) ↦ inl (more ne r, λ c a b. first_or_later ne all c a (omega arith))
    | inr (r, (c, lo, hi, used)) ↦ inr (more ne r, (c, omega arith, omega arith, used))
  ]
]
  where
    more :
        {b : Bool}
        → get_or f k 0 ≢ 0
        → run_free n (suc k) f ≡ some b
        → run_free (suc n) k f ≡ some b
    more ne r = ground (arith, get_elem?-get_or f k 0 (omega arith))

    first_or_later :
        get_or f k 0 ≢ 0
        → IsFreeRun f n (suc k)
        → (c : ℕ) → k ≤ c
        → c < suc k + n
        → get_or f c 0 ≢ 0
    first_or_later ne all c lo hi = elim (ℕ_discrete k c) [
      | yes e ↦ rw (← e) ne
      | no other ↦ all c (omega arith) hi
    ]

-- What `first_fit` returns from `i` on with `n` starts left: the least start of a free run, or
-- `none` if no start begins one.
abbrev pub FirstFit : ℕ → ℕ → ℕ → List ℕ → Option ℕ → Type 0
FirstFit n i r f none = (j : ℕ) → i ≤ j → j < i + n → ¬ IsFreeRun f r j
FirstFit n i r f (some hit) =
    (i ≤ hit) × (hit < i + n) × IsFreeRun f r hit × ((j : ℕ) → i ≤ j → j < hit → ¬ IsFreeRun f r j)

-- The scan of a page never reads outside the table, and finds the least free run if there is one.
pub first_fit_lem :
    (n i r : ℕ) (f : List ℕ)
    → i + n + r ≤ length f + 1
    → (res : Option ℕ) × (first_fit n i r f ≡ some res) × FirstFit n i r f res
unfolding first_fit
first_fit_lem zero i r f h = (none, refl, λ j a b. absurd (omega arith))
first_fit_lem (suc n) i r f h = elim (run_free_lem r i f (omega arith)) [
  | inl (e, all) ↦ (some i, rw e, (omega arith, omega arith, all, λ j a b. absurd (omega arith)))
  | inr (e, (c, lo, hi, used)) ↦
      later (first_fit_lem n (suc i) r f (omega arith)) e (λ all. all c lo hi used)
]
  where
    here_or_later :
        ¬ IsFreeRun f r i
        → {m : ℕ} → ((j : ℕ) → suc i ≤ j → j < m → ¬ IsFreeRun f r j)
        → (j : ℕ) → i ≤ j
        → j < m
        → ¬ IsFreeRun f r j
    here_or_later here none_later j lo hi = elim (ℕ_discrete i j) [
      | yes e ↦ rw (← e) here
      | no other ↦ none_later j (omega arith) hi
    ]

    later :
        ((res : Option ℕ) × (first_fit n (suc i) r f ≡ some res) × FirstFit n (suc i) r f res)
        → run_free r i f ≡ some false
        → ¬ IsFreeRun f r i
        → (res : Option ℕ) × (first_fit (suc n) i r f ≡ some res) × FirstFit (suc n) i r f res
    later (none, q, all) e here =
        (none, rw (e, q), λ j lo hi. here_or_later here all j lo (omega arith))
    later (some hit, q, (lo, hi, run, before)) e here =
        (some hit, rw (e, q), (omega arith, omega arith, run, here_or_later here before))

-- The value at `j` after a fill of `n` entries from `k`.
abbrev pub filled : ℕ → ℕ → ℕ → List ℕ → ℕ → ℕ
filled n k v a j = if leb k j && ltb j (k + n) then v else get_or a j 0

-- A fill within bounds does not fault, keeps the length, and writes exactly its range.
pub fill_lem :
    (n k v : ℕ) (a : List ℕ)
    → k + n ≤ length a
    → (b : List ℕ) × (fill n k v a ≡ some b)
      × (length b ≡ length a)
      × ((j : ℕ) → get_or b j 0 ≡ filled n k v a j)
unfolding fill
fill_lem zero k v a h = (a, refl, refl, λ j. ground arith)
fill_lem (suc n) k v a h =
    let (b, e, len, at) = fill_lem n (suc k) v (set a k v) (omega (arith, length-set a k v)) in
    (
      b,
      rw (write-some a k v (omega arith)) e,
      omega (arith, length-set a k v, len),
      λ j. ground (arith, at j, get_or-set a k j v 0),
    )
