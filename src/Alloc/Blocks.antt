-- ===== src/Alloc/Blocks.antt =====
-- Live blocks of malloc-code/alloc.h in bytes: `alloc` hands out fresh memory, and the first call on an
-- empty page succeeds.
use os333_iit_bombay_labs.Prelude.{
  ℕ, ◌+◌, ◌-◌, ◌*◌, ◌/◌, ◌%◌, ◌≤◌, ◌<◌, ◌≡◌, ap, ◌∙◌, ◌≢◌, ◌⊎◌, inl, inr, false, some, arith,
}
use os333_iit_bombay_labs.Prelude.Int.{ℤ, pos}
use os333_iit_bombay_labs.Chunks.{fresh_tables}
use os333_iit_bombay_labs.Chunks.Loops.{IsFreeRun}
use os333_iit_bombay_labs.Chunks.Invariant.{
  size_at, fresh-IsTiled, free-fresh_tables, size_at-fresh_tables,
}
use os333_iit_bombay_labs.Alloc.{
  page_size, min_alloc, num_chunks, null, map_failed, Pool, init_alloc, bad_size, magnitude, alloc,
}
use os333_iit_bombay_labs.Alloc.Safety.{IsValid, Placed, alloc_first_fit, alloc-Placed, good_size}

-- `size` bytes at `ptr` are the live block that starts at chunk `i`.
abbrev pub IsBlock : Pool → ℕ → ℕ → ℕ → Type 0
IsBlock p i ptr size =
    (0 < size) × (ptr ≡ p.mapped_page + i * min_alloc) × (size_at p.tables i * min_alloc ≡ size)

module _ (p : Pool) (valid : IsValid p) where
  kept :
      {r i : ℕ} {p' : Pool}
      → Placed p r i p'
      → 0 < r
      → (j q n : ℕ) → IsBlock p j q n
      → IsBlock p' j q n
  kept {p'} placed more j q n block =
      let same : size_at p'.tables j ≡ size_at p.tables j =
        ground (arith, placed.written.alloc_sizes j, valid.tiled.used j j, placed.free j) in
      (block.0, omega (arith, placed.base), rw same block.2)

  disjoint :
      {r i ptr size : ℕ} {p' : Pool}
      → Placed p r i p'
      → 0 < r
      → ptr ≡ p.mapped_page + i * min_alloc
      → size ≡ r * min_alloc
      → (j q n : ℕ) → IsBlock p j q n
      → (q + n ≤ ptr) ⊎ (ptr + size ≤ q)
  disjoint {r} {i} placed more at exact j q n block = ground (
    arith,
    kept placed more j q n block,
    placed.written.alloc_sizes i,
    placed.valid.tiled.apart i j,
    placed.valid.tiled.apart j i,
    valid.tiled.used j j,
    placed.free j,
  )

  -- What `alloc` returns lies in the page at a multiple of 8 from its start, has the size that was asked for,
  -- and overlaps no live block; every live block stays one.
  pub alloc_fresh :
      (size : ℤ) (p' : Pool) (ptr : ℕ)
      → alloc p size ≡ some (p', ptr)
      → ptr ≢ null
      → (p.mapped_page ≤ ptr)
        × (ptr + magnitude size ≤ p.mapped_page + page_size)
        × ((ptr - p.mapped_page) % min_alloc ≡ 0)
        × ((i : ℕ) × IsBlock p' i ptr (magnitude size))
        × ((j q n : ℕ)
            → IsBlock p j q n
            → IsBlock p' j q n × ((q + n ≤ ptr) ⊎ (ptr + magnitude size ≤ q)))
  alloc_fresh size p' ptr e ne =
      let (good, (i, at, placed)) = alloc-Placed p valid size p' ptr e ne in
      let (more, _, exact) = good_size size good in
      let w = placed.written in
      (
        omega arith,
        omega (arith, placed.fits),
        omega arith,
        (i, (omega arith, omega (arith, placed.base), ground (arith, w.alloc_sizes i))),
        λ j q n block.
            (kept placed more j q n block, disjoint placed (omega arith) at exact j q n block),
      )

abbrev free_pool : ℕ → Pool
free_pool mapped = record { mapped_page = mapped; tables = fresh_tables num_chunks }

free_pool_lem :
    (mapped : ℕ) (p : Pool) → mapped ≢ map_failed → init_alloc mapped p ≡ (free_pool mapped, pos 0)
unfolding init_alloc
free_pool_lem mapped p ok = ground arith

free_pool-IsValid : (mapped : ℕ) → 0 < mapped → IsValid (free_pool mapped)
free_pool-IsValid mapped up = record { mapped = up; tiled = fresh-IsTiled num_chunks }

alloc-free_pool :
    (mapped : ℕ) (size : ℤ)
    → 0 < mapped
    → bad_size size ≡ false
    → (p' : Pool) × (alloc (free_pool mapped) size ≡ some (p', mapped))
alloc-free_pool mapped size up good =
    elim (alloc_first_fit (free_pool mapped) (free_pool-IsValid mapped up) size) [
      | inl (bad, _) ↦ absurd (ground (arith, good, bad))
      | inr (inl (_, (i, p', e, placed))) ↦
          let first : i ≡ 0 = ground (arith, placed.least 0, run) in
          (p', e ∙ ap (λ (x : ℕ). some (p', x)) (omega arith))
      | inr (inr (_, _, full)) ↦ absurd (full 0 room run)
    ]
  where
    room : 0 + magnitude size / min_alloc ≤ num_chunks
    room = omega (arith, good_size size good)

    run : IsFreeRun (free_pool mapped).free_chunks (magnitude size / min_alloc) 0
    run = free-fresh_tables num_chunks (magnitude size / min_alloc) 0 room

-- A successful `init_alloc` gives a valid pool without blocks, in which `alloc` of any good size
-- returns the start of the page.
pub alloc-init_alloc :
    (mapped : ℕ) (p : Pool) (size : ℤ)
    → 0 < mapped
    → mapped ≢ map_failed
    → bad_size size ≡ false
    → IsValid (init_alloc mapped p).0
      × ((j : ℕ) → size_at (init_alloc mapped p).0.tables j ≡ 0)
      × ((p' : Pool) × (alloc (init_alloc mapped p).0 size ≡ some (p', mapped)))
alloc-init_alloc mapped p size up ok good = rw (free_pool_lem mapped p ok) (
  free_pool-IsValid mapped up,
  size_at-fresh_tables num_chunks,
  alloc-free_pool mapped size up good,
)
