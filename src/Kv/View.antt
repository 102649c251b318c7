-- ===== src/Kv/View.antt =====
-- The invariant of the pairs of kv-server/kv-server.c, and what the search for a key finds.
use os333_iit_bombay_labs.Prelude.{
  ℕ, zero, suc, ◌+◌, ◌≤◌, ◌<◌, ◌≡◌, refl, sym, ap, ◌∙◌, ◌≢◌, inl, inr, false, Option, none, some,
  length, get_or, arith, Bool-cases, get_elem?-get_or, ℕ_discrete,
}
use os333_iit_bombay_labs.Prelude.Int.{ℤ, eqb, eqb_iff}
use os333_iit_bombay_labs.Prelude.Text.{Text}
use os333_iit_bombay_labs.Kv.{max_pairs, Store, no_pair, find_key, read_value}

abbrev pub key_at : Store → ℕ → ℤ
key_at s i = (get_or s.store i no_pair).key

abbrev pub value_at : Store → ℕ → Option Text
value_at s i = (get_or s.store i no_pair).value

pub record IsValid (s : Store) : Type 0 where
  pub size : length s.store ≡ max_pairs
  pub bounded : s.kv_count ≤ max_pairs
  -- no key stands twice
  pub distinct : (i j : ℕ) → i < s.kv_count → j < s.kv_count → key_at s i ≡ key_at s j → i ≡ j
  -- no pair in use has a NULL value
  pub stored : (i : ℕ) → i < s.kv_count → value_at s i ≢ none

-- What the store holds under a key.
abbrev pub Sees : Store → ℤ → Option Text → Type 0
Sees s k none = (i : ℕ) → i < s.kv_count → key_at s i ≢ k
Sees s k (some v) = (i : ℕ) × (i < s.kv_count) × (key_at s i ≡ k) × (value_at s i ≡ some v)

pub Sees-unique :
    {s : Store} → IsValid s → (k : ℤ) (a b : Option Text) → Sees s k a → Sees s k b → a ≡ b
Sees-unique valid k none none p q = refl
Sees-unique valid k none (some w) p (i, lt, e, _) = absurd (p i lt e)
Sees-unique valid k (some v) none (i, lt, e, _) q = absurd (q i lt e)
Sees-unique {s} valid k (some v) (some w) (i, lt, e, ev) (j, lt', e', ew) =
    let same : i ≡ j = valid.distinct i j lt lt' (e ∙ sym e') in
    cc (ap (λ (x : ℕ). value_at s x) same)

-- The search from `i` on finds the first pair with the key, or there is none.
abbrev FoundFrom : Store → ℕ → ℕ → ℤ → Option ℕ → Type 0
FoundFrom s n i k none = (j : ℕ) → i ≤ j → j < i + n → key_at s j ≢ k
FoundFrom s n i k (some j) = (i ≤ j) × (j < i + n) × (key_at s j ≡ k)

find_key_from :
    (s : Store) (k : ℤ) (n i : ℕ)
    → i + n ≤ length s.store
    → (hit : Option ℕ) × (find_key n i k s.store ≡ some hit) × FoundFrom s n i k hit
unfolding find_key
find_key_from s k zero i h = (none, refl, λ j lo hi. absurd (omega arith))
find_key_from s k (suc n) i h = elim (Bool-cases (eqb (key_at s i) k)) [
  | inl here ↦ (
    some i,
    rw (get_elem?-get_or s.store i no_pair (omega arith), here),
    (omega arith, omega arith, (eqb_iff _ _).0 here),
  )
  | inr other ↦ later other (find_key_from s k n (suc i) (omega arith))
]
  where
    later :
        eqb (key_at s i) k ≡ false
        → ((hit : Option ℕ) × (find_key n (suc i) k s.store ≡ some hit)
            × FoundFrom s n (suc i) k hit)
        → (hit : Option ℕ) × (find_key (suc n) i k s.store ≡ some hit) × FoundFrom s (suc n) i k hit
    later other (some j, e, (lo, hi, at)) = (
      some j,
      rw (get_elem?-get_or s.store i no_pair (omega arith), other, e),
      (omega arith, omega arith, at),
    )
    later other (none, e, all) = (
      none,
      rw (get_elem?-get_or s.store i no_pair (omega arith), other, e),
      λ j lo hi at. elim (ℕ_discrete i j) [
        | yes same ↦ cc (other, (eqb_iff _ _).1 (rw (← same) at at))
        | no differ ↦ all j (omega arith) (omega arith) at
      ],
    )

-- What the search of a whole valid store finds.
abbrev pub FoundKey : Store → ℤ → Option ℕ → Type 0
FoundKey s k none = Sees s k none
FoundKey s k (some i) = (i < s.kv_count) × (key_at s i ≡ k)

pub find_key_lem :
    {s : Store}
    → IsValid s
    → (k : ℤ) → (hit : Option ℕ) × (find_key s.kv_count 0 k s.store ≡ some hit) × FoundKey s k hit
find_key_lem {s} valid k =
    whole (find_key_from s k s.kv_count 0 (omega (arith, valid.size, valid.bounded)))
  where
    whole :
        ((hit : Option ℕ) × (find_key s.kv_count 0 k s.store ≡ some hit)
          × FoundFrom s s.kv_count 0 k hit)
        → (hit : Option ℕ) × (find_key s.kv_count 0 k s.store ≡ some hit) × FoundKey s k hit
    whole (none, e, all) = (none, e, λ i lt. all i (omega arith) (omega arith))
    whole (some i, e, (lo, hi, at)) = (some i, e, (omega arith, at))

-- `read_value` does not fault, and returns what the store holds.
pub read_value-Sees :
    {s : Store} → IsValid s → (k : ℤ) → (r : Option Text) × (read_value s k ≡ some r) × Sees s k r
unfolding read_value
read_value-Sees {s} valid k = result (find_key_lem valid k)
  where
    at_index :
        (i : ℕ)
        → i < s.kv_count
        → key_at s i ≡ k
        → (v : Option Text) → value_at s i ≡ v
        → Sees s k v
    at_index i lt at none e = absurd (valid.stored i lt e)
    at_index i lt at (some v) e = (i, lt, at, e)

    result :
        ((hit : Option ℕ) × (find_key s.kv_count 0 k s.store ≡ some hit) × FoundKey s k hit)
        → (r : Option Text) × (read_value s k ≡ some r) × Sees s k r
    result (none, e, all) = (none, rw e, all)
    result (some i, e, (lt, at)) = (
      value_at s i,
      rw (e, get_elem?-get_or s.store i no_pair (omega (arith, valid.size, valid.bounded))),
      at_index i lt at (value_at s i) refl,
    )
