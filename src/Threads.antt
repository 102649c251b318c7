-- ===== src/Threads.antt =====
-- Threads that share one mutex (pthreads-sync-code). A thread runs one critical section at a time, from
-- the lock of the mutex to its unlock or to a wait on a condition variable, which gives it back.
pub mod Signal
pub mod Sweeps
use os333_iit_bombay_labs.Prelude.{
  ℕ, zero, suc, ◌+◌, ◌≤◌, ◌<◌, ◌≡◌, ◌≢◌, refl, List, [], ◌∷◌, ◌++◌, length, get_or, set, take,
  replicate, arith, ◌==◌, if◌then◌else◌, length-set,
}

-- Where a thread is when it does not hold the mutex: before a lock, in a wait, or returned. A
-- thread that waits may go on at any time, since a wait may end without a signal.
pub data Phase : Type 0 where
  at_lock in_wait returned : Phase

abbrev pub waits : Phase → ℕ
waits at_lock = 0
waits in_wait = 1
waits returned = 0

abbrev pub ends : Phase → ℕ
ends at_lock = 0
ends in_wait = 0
ends returned = 1

-- The sum of `f` over the threads.
abbrev pub tally : {A : Type 0} → (A → ℕ) → List A → ℕ
tally f [] = 0
tally f (p ∷ ps) = f p + tally f ps

-- What becomes of the sum when one thread moves.
pub tally-set :
    {A : Type 0} (d : A) (f : A → ℕ) (ps : List A) (i : ℕ) (p : A)
    → i < length ps
    → tally f (set ps i p) + f (get_or ps i d) ≡ tally f ps + f p
tally-set d f [] i p h = absurd (omega arith)
tally-set d f (q ∷ ps) zero p h = omega arith
tally-set d f (q ∷ ps) (suc i) p h = omega (arith, tally-set d f ps i p (omega arith))

pub tally_le :
    {A : Type 0} (f : A → ℕ) → ((p : A) → f p ≤ 1) → (ps : List A) → tally f ps ≤ length ps
tally_le f h [] = omega arith
tally_le f h (p ∷ ps) = omega (arith, h p, tally_le f h ps)

pub waits_le : (p : Phase) → waits p ≤ 1
waits_le at_lock = omega arith
waits_le in_wait = omega arith
waits_le returned = omega arith

pub tally-replicate :
    {A : Type 0} (f : A → ℕ) (n : ℕ) (p : A) → f p ≡ 0 → tally f (replicate n p) ≡ 0
tally-replicate f zero p h = refl
tally-replicate f (suc n) p h = omega (arith, h, tally-replicate f n p h)

pub tally_ge :
    {A : Type 0} (d : A) (f : A → ℕ) (ps : List A) (i : ℕ)
    → i < length ps
    → f (get_or ps i d) ≤ tally f ps
tally_ge d f [] i h = absurd (omega arith)
tally_ge d f (p ∷ ps) zero h = omega arith
tally_ge d f (p ∷ ps) (suc i) h = omega (arith, tally_ge d f ps i (omega arith))

-- A sum of zeros.
pub tally_zero :
    {A : Type 0} (d : A) (f : A → ℕ) (ps : List A)
    → ((i : ℕ) → f (get_or ps i d) ≡ 0)
    → tally f ps ≡ 0
tally_zero d f [] h = refl
tally_zero d f (p ∷ ps) h = omega (arith, h 0, tally_zero d f ps (λ i. h (suc i)))

pub tally_two :
    {A : Type 0} (d : A) (f : A → ℕ) (ps : List A) (i j : ℕ)
    → i < length ps
    → j < length ps
    → i ≢ j
    → f (get_or ps i d) + f (get_or ps j d) ≤ tally f ps
tally_two d f [] i j h k ne = absurd (omega arith)
tally_two d f (p ∷ ps) zero zero h k ne = absurd (ne refl)
tally_two d f (p ∷ ps) zero (suc j) h k ne = omega (arith, tally_ge d f ps j (omega arith))
tally_two d f (p ∷ ps) (suc i) zero h k ne = omega (arith, tally_ge d f ps i (omega arith))
tally_two d f (p ∷ ps) (suc i) (suc j) h k ne =
    omega (arith, tally_two d f ps i j (omega arith) (omega arith) (λ e. ne (omega arith)))

-- What holds of every entry holds after a write of a good entry.
pub set-all :
    {A : Type 0} (P : ℕ → A → Type 0) (xs : List A) (i : ℕ) (v d : A)
    → i < length xs
    → P i v
    → ((j : ℕ) → i ≢ j → P j (get_or xs j d))
    → (j : ℕ) → P j (get_or (set xs i v) j d)
set-all P [] i v d less h k j = absurd (omega arith)
set-all P (x ∷ xs) zero v d less h k zero = h
set-all P (x ∷ xs) zero v d less h k (suc j) = k (suc j) (λ e. omega arith)
set-all P (x ∷ xs) (suc i) v d less h k zero = k zero (λ e. omega arith)
set-all P (x ∷ xs) (suc i) v d less h k (suc j) =
    set-all (λ n. P (suc n)) xs i v d (omega arith) h (λ n ne. k (suc n) (λ e. ne (omega arith))) j

-- How often a number occurs in a list.
abbrev pub occurs : ℕ → List ℕ → ℕ
occurs x [] = 0
occurs x (y ∷ ys) = (if x == y then 1 else 0) + occurs x ys

pub occurs-append : (x : ℕ) (ys zs : List ℕ) → occurs x (ys ++ zs) ≡ occurs x ys + occurs x zs
occurs-append x [] zs = omega arith
occurs-append x (y ∷ ys) zs = omega (arith, occurs-append x ys zs)

-- One more entry of an array: after a write behind the first `i`, and without one.
pub occurs-set :
    (x : ℕ) (ys : List ℕ) (n i v : ℕ)
    → i < length ys
    → n ≡ i + 1
    → occurs x (take n (set ys i v)) ≡ occurs x (take i ys) + (if x == v then 1 else 0)
occurs-set x [] n i v h e = absurd (omega arith)
occurs-set x (y ∷ ys) zero i v h e = absurd (omega arith)
occurs-set x (y ∷ ys) (suc zero) zero v h e = omega arith
occurs-set x (y ∷ ys) (suc (suc n)) zero v h e = absurd (omega arith)
occurs-set x (y ∷ ys) (suc n) (suc i) v h e =
    omega (arith, occurs-set x ys n i v (omega arith) (omega arith))

pub occurs-get_or :
    (x : ℕ) (ys : List ℕ) (n i : ℕ)
    → i < length ys
    → n ≡ i + 1
    → occurs x (take n ys) ≡ occurs x (take i ys) + (if x == get_or ys i 0 then 1 else 0)
occurs-get_or x [] n i h e = absurd (omega arith)
occurs-get_or x (y ∷ ys) zero i h e = absurd (omega arith)
occurs-get_or x (y ∷ ys) (suc zero) zero h e = omega arith
occurs-get_or x (y ∷ ys) (suc (suc n)) zero h e = absurd (omega arith)
occurs-get_or x (y ∷ ys) (suc n) (suc i) h e =
    omega (arith, occurs-get_or x ys n i (omega arith) (omega arith))

-- A thread that does not wait leaves one fewer to wait.
pub tally_lt :
    (ps : List Phase) (i : ℕ)
    → i < length ps
    → waits (get_or ps i returned) ≡ 0
    → tally waits ps + 1 ≤ length ps
tally_lt ps i h e = omega (
  arith,
  tally-set returned waits ps i in_wait h,
  tally_le waits waits_le (set ps i in_wait),
  length-set ps i in_wait,
  e,
)
