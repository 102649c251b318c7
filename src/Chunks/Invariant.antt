-- ===== src/Chunks/Invariant.antt =====
-- The invariant of the chunk tables, and that the writes of `alloc` and `dealloc` keep it.
use os333_iit_bombay_labs.Prelude.{
  eq_of_get_or, ℕ, ◌+◌, ◌≤◌, ◌<◌, ◌≡◌, some, get_or, set, length, ◌==◌, if◌then◌else◌, arith,
  get_or-set, length-set, write-some, get_or-replicate, length-replicate, dec_lt,
}
use os333_iit_bombay_labs.Chunks.{Tables, take_run, release_run, fresh_tables}
use os333_iit_bombay_labs.Chunks.Loops.{IsFreeRun, filled, fill_lem}

-- The entries of the two tables, 0 outside them.
abbrev pub free_at : Tables → ℕ → ℕ
free_at t c = get_or t.free_chunks c 0

abbrev pub size_at : Tables → ℕ → ℕ
size_at t i = get_or t.alloc_sizes i 0

-- The live blocks tile the used chunks of a page of `n` chunks.
pub record IsTiled (n : ℕ) (t : Tables) : Type 0 where
  pub free_length : length t.free_chunks ≡ n
  pub sizes_length : length t.alloc_sizes ≡ n
  -- a flag is 0 or 1
  pub bits : (c : ℕ) → free_at t c ≤ 1
  -- a block lies in the page
  pub within : (i : ℕ) → 0 < size_at t i → i + size_at t i ≤ n
  -- the chunks of a block are used
  pub used : (i c : ℕ) → i ≤ c → c < i + size_at t i → free_at t c ≡ 0
  -- two blocks are disjoint
  pub apart : (i j : ℕ) → i < j → 0 < size_at t j → i + size_at t i ≤ j
  -- a used chunk belongs to a block
  pub covered : (c : ℕ) → c < n → free_at t c ≡ 0 → (i : ℕ) × (i ≤ c) × (c < i + size_at t i)

-- `t'` is `t` with `n` chunks from `i` on set to `v`, and the size at `i` set to `r`.
pub record Rewritten (n i v r : ℕ) (t t' : Tables) : Type 0 where
  pub free_length : length t'.free_chunks ≡ length t.free_chunks
  pub sizes_length : length t'.alloc_sizes ≡ length t.alloc_sizes
  pub free_chunks : (c : ℕ) → free_at t' c ≡ filled n i v t.free_chunks c
  pub alloc_sizes : (j : ℕ) → size_at t' j ≡ (if i == j then r else size_at t j)

module _ {n : ℕ} {t : Tables} (tiled : IsTiled n t) where
  open tiled use {bits, within, used, apart, covered}

  -- Within the page the writes of `alloc` do not fault, and have exactly their effect.
  pub take_run_lem :
      (r i : ℕ)
      → 0 < r
      → i + r ≤ n
      → (t' : Tables) × (take_run r i t ≡ some t') × Rewritten r i 0 r t t'
  unfolding take_run
  take_run_lem r i pos fits =
      let (f, e, len, at) = fill_lem r i 0 t.free_chunks (omega arith) in
      (
        record { free_chunks = f; alloc_sizes = set t.alloc_sizes i r },
        rw (e, write-some t.alloc_sizes i r (omega arith)),
        record {
          free_length = len;
          sizes_length = length-set t.alloc_sizes i r;
          free_chunks = at;
          alloc_sizes = λ j. get_or-set t.alloc_sizes i j r 0 (omega arith);
        },
      )

  pub release_run_lem :
      (r i : ℕ)
      → i < n
      → i + r ≤ n
      → (t' : Tables) × (release_run r i t ≡ some t') × Rewritten r i 1 0 t t'
  unfolding release_run
  release_run_lem r i lt fits =
      let (f, e, len, at) = fill_lem r i 1 t.free_chunks (omega arith) in
      (
        record { free_chunks = f; alloc_sizes = set t.alloc_sizes i 0 },
        rw (e, write-some t.alloc_sizes i 0 (omega arith)),
        record {
          free_length = len;
          sizes_length = length-set t.alloc_sizes i 0;
          free_chunks = at;
          alloc_sizes = λ j. get_or-set t.alloc_sizes i j 0 0 (omega arith);
        },
      )

  -- No live block reaches into a free run.
  pub apart_from_free :
      (r i b c : ℕ)
      → IsFreeRun t.free_chunks r i
      → b ≤ c
      → c < b + size_at t b
      → i ≤ c
      → c < i + r
      → ⊥
  apart_from_free r i b c run lo hi from to = run c from to (used b c lo hi)

  take_covered :
      (r i : ℕ) {t' : Tables}
      → 0 < r
      → IsFreeRun t.free_chunks r i
      → Rewritten r i 0 r t t'
      → (c : ℕ) → c < n
      → free_at t' c ≡ 0
      → (b : ℕ) × (b ≤ c) × (c < b + size_at t' b)
  take_covered r i {t'} pos run w c lt u = elim (dec_lt c i) [
    | yes below ↦ old (λ inside. omega arith)
    | no above ↦ elim (dec_lt c (i + r)) [
      | yes inside ↦ (i, omega arith, ground (arith, w.alloc_sizes i))
      | no beyond ↦ old (λ inside. omega arith)
    ]
  ]
    where
      old : ¬ ((i ≤ c) × (c < i + r)) → (b : ℕ) × (b ≤ c) × (c < b + size_at t' b)
      old outside =
          let (b, lo, hi) = covered c lt (ground (arith, w.free_chunks c, outside)) in
          (b, lo, ground (arith, w.alloc_sizes b, apart_from_free r i i i run))

  -- Taking a free run keeps the invariant.
  pub take-IsTiled :
      (r i : ℕ) {t' : Tables}
      → 0 < r
      → i + r ≤ n
      → IsFreeRun t.free_chunks r i
      → Rewritten r i 0 r t t'
      → IsTiled n t'
  take-IsTiled r i {t'} pos fits run w = record {
    free_length = omega arith;
    sizes_length = omega arith;
    bits = λ c. ground (arith, w.free_chunks c, bits c);
    within = λ b p. ground (arith, w.alloc_sizes b, within b);
    used = λ b c lo hi. ground (arith, w.free_chunks c, w.alloc_sizes b, used b c);
    apart = λ a b lt p. ground (
      arith,
      w.alloc_sizes a,
      w.alloc_sizes b,
      apart a b,
      apart_from_free r i a i run,
      apart_from_free r i b b run,
    );
    covered = take_covered r i pos run w;
  }

  release_covered :
      (i : ℕ) {t' : Tables}
      → Rewritten (size_at t i) i 1 0 t t'
      → (c : ℕ) → c < n
      → free_at t' c ≡ 0
      → (b : ℕ) × (b ≤ c) × (c < b + size_at t' b)
  release_covered i {t'} w c lt u =
      let (b, lo, hi) = covered c lt (ground (arith, w.free_chunks c)) in
      (b, lo, ground (arith, w.free_chunks c, w.alloc_sizes b))

  -- Releasing a live block keeps the invariant.
  pub release-IsTiled :
      (i : ℕ) {t' : Tables} → 0 < size_at t i → Rewritten (size_at t i) i 1 0 t t' → IsTiled n t'
  release-IsTiled i {t'} pos w = record {
    free_length = omega arith;
    sizes_length = omega arith;
    bits = λ c. ground (arith, w.free_chunks c, bits c);
    within = λ b p. ground (arith, w.alloc_sizes b, within b);
    used = λ b c lo hi.
        ground (arith, w.free_chunks c, w.alloc_sizes b, used b c, apart b i, apart i b);
    apart = λ a b lt p. ground (arith, w.alloc_sizes a, w.alloc_sizes b, apart a b);
    covered = release_covered i w;
  }

-- On a fresh page every chunk is free, and no block starts.
pub free_at-fresh_tables : (n c : ℕ) → c < n → free_at (fresh_tables n) c ≡ 1
unfolding fresh_tables
free_at-fresh_tables n c h = ground (arith, get_or-replicate {A = ℕ} n c 1 0)

pub size_at-fresh_tables : (n i : ℕ) → size_at (fresh_tables n) i ≡ 0
unfolding fresh_tables
size_at-fresh_tables n i = ground (arith, get_or-replicate {A = ℕ} n i 0 0)

pub free-fresh_tables : (n r j : ℕ) → j + r ≤ n → IsFreeRun (fresh_tables n).free_chunks r j
free-fresh_tables n r j h c lo hi = ground (arith, free_at-fresh_tables n c)

bits-fresh_tables : (n c : ℕ) → free_at (fresh_tables n) c ≤ 1
unfolding fresh_tables
bits-fresh_tables n c = ground (arith, get_or-replicate {A = ℕ} n c 1 0)

pub length-fresh_tables :
    (n : ℕ) → (length (fresh_tables n).free_chunks ≡ n) × (length (fresh_tables n).alloc_sizes ≡ n)
unfolding fresh_tables
length-fresh_tables n = (length-replicate n 1, length-replicate n 0)

pub fresh-IsTiled : (n : ℕ) → IsTiled n (fresh_tables n)
fresh-IsTiled n = record {
  free_length = (length-fresh_tables n).0;
  sizes_length = (length-fresh_tables n).1;
  bits = bits-fresh_tables n;
  within = λ i p. omega (arith, size_at-fresh_tables n i);
  used = λ i c lo hi. omega (arith, size_at-fresh_tables n i);
  apart = λ i j lt p. omega (arith, size_at-fresh_tables n j);
  covered = λ c lt u. absurd (omega (arith, free_at-fresh_tables n c lt));
}

module _ {n : ℕ} {t : Tables} (tiled : IsTiled n t) where
  -- Taking a free run and releasing it again gives back the tables.
  pub release-take :
      (r i : ℕ) {t' u : Tables}
      → IsFreeRun t.free_chunks r i
      → 0 < r
      → Rewritten r i 0 r t t'
      → Rewritten (size_at t' i) i 1 0 t' u
      → u ≡ t
  release-take r i {t'} {u} run pos w w' =
      tables_eq
        (eq_of_get_or u.free_chunks t.free_chunks 0 (omega arith) (λ c.
          ground (arith, w'.free_chunks c, w.free_chunks c, w.alloc_sizes i, run c, tiled.bits c)))
        (eq_of_get_or u.alloc_sizes t.alloc_sizes 0 (omega arith)
          (λ c. ground (arith, w'.alloc_sizes c, w.alloc_sizes c, tiled.used i i, run i)))
    where
      tables_eq : u.free_chunks ≡ t.free_chunks → u.alloc_sizes ≡ t.alloc_sizes → u ≡ t
      tables_eq p q = λ k. record { free_chunks = p k; alloc_sizes = q k }
