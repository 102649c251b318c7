-- ===== src/Chunks.antt =====
-- The chunk tables of the two allocators, and the loops that `alloc` and `dealloc` run over them
-- (malloc-code/alloc.h; malloc-code/ealloc.h has the same loops over the tables of one page).
-- Every access is checked: `none` is a read or write outside the array.
pub mod Loops
pub mod Invariant
use os333_iit_bombay_labs.Prelude.{
  ℕ, zero, suc, ◌+◌, ◌-◌, Bool, true, false, Option, none, some, List, get_elem?, write, replicate,
  ◌==◌, if◌then◌else◌, ◌>>=◌,
}

-- The inner scan: `n` rounds are left and `k` is the index `i + j`. The result is `found`.
unfoldable pub run_free : ℕ → ℕ → List ℕ → Option Bool
run_free zero k free_chunks = some true
run_free (suc n) k free_chunks =
    let rest = run_free n (suc k) free_chunks in
    get_elem? free_chunks k >>= λ c. if c == 0 then some false else rest

-- The outer scan: `n` values of `i` are left. The result is the `i` at which `found` holds.
unfoldable pub first_fit : ℕ → ℕ → ℕ → List ℕ → Option (Option ℕ)
first_fit zero i required_chunks free_chunks = some none
first_fit (suc n) i required_chunks free_chunks =
    let rest = first_fit n (suc i) required_chunks free_chunks in
    run_free required_chunks i free_chunks >>= λ found. if found then some (some i) else rest

-- A loop that writes `v` into `n` entries from index `k` on.
unfoldable pub fill : ℕ → ℕ → ℕ → List ℕ → Option (List ℕ)
fill zero k v a = some a
fill (suc n) k v a = write a k v >>= fill n (suc k) v

-- The tables of one page.
pub record Tables : Type 0 where
  pub free_chunks : List ℕ  -- 1 = free, 0 = used
  pub alloc_sizes : List ℕ  -- chunks allocated at a start index, 0 otherwise

-- The tables after the two calls of `memset` that set up a page of `n` chunks.
unfoldable pub fresh_tables : ℕ → Tables
fresh_tables n = record { free_chunks = replicate n 1; alloc_sizes = replicate n 0 }

-- The writes of `alloc` once `found` holds at `i`.
unfoldable pub take_run : ℕ → ℕ → Tables → Option Tables
take_run required_chunks i t = do
  f ← fill required_chunks i 0 t.free_chunks
  s ← write t.alloc_sizes i required_chunks
  some (record { free_chunks = f; alloc_sizes = s })

-- The writes of `dealloc`: `n` chunks from `index` on are freed.
unfoldable pub release_run : ℕ → ℕ → Tables → Option Tables
release_run n index t = do
  f ← fill n index 1 t.free_chunks
  s ← write t.alloc_sizes index 0
  some (record { free_chunks = f; alloc_sizes = s })
