-- ===== src/Alloc/Safety.antt =====
-- `alloc` and `dealloc` of malloc-code/alloc.h: no fault, first fit, and the invariant.
use os333_iit_bombay_labs.Prelude.{
  ℕ, ◌+◌, ◌-◌, ◌*◌, ◌/◌, ◌≤◌, ◌<◌, ◌≡◌, refl, ◌≢◌, ◌⊎◌, inl, inr, true, false, Option, none, some,
  arith, Bool-cases,
}
use os333_iit_bombay_labs.Prelude.Int.{ℤ, pos, negsuc}
use os333_iit_bombay_labs.Chunks.{first_fit}
use os333_iit_bombay_labs.Chunks.Loops.{IsFreeRun, FirstFit, first_fit_lem}
use os333_iit_bombay_labs.Chunks.Invariant.{IsTiled, Rewritten, take_run_lem, take-IsTiled}
use os333_iit_bombay_labs.Alloc.{
  min_alloc, num_chunks, null, Pool, bad_size, place, magnitude, alloc,
}

-- A mapped page whose blocks tile it.
pub record IsValid (p : Pool) : Type 0 where
  pub mapped : 0 < p.mapped_page
  pub tiled : IsTiled num_chunks p.tables

-- `alloc` put a block of `r` chunks at the least free run of that length.
pub record Placed (p : Pool) (r i : ℕ) (p' : Pool) : Type 0 where
  pub fits : i + r ≤ num_chunks
  pub free : IsFreeRun p.free_chunks r i
  pub least : (j : ℕ) → j < i → ¬ IsFreeRun p.free_chunks r j
  pub base : p'.mapped_page ≡ p.mapped_page
  pub written : Rewritten r i 0 r p.tables p'.tables
  pub valid : IsValid p'

pub good_size :
    (size : ℤ)
    → bad_size size ≡ false
    → (0 < magnitude size / min_alloc)
      × (magnitude size / min_alloc ≤ num_chunks)
      × (magnitude size ≡ magnitude size / min_alloc * min_alloc)
unfolding bad_size
good_size (pos n) h = ground arith
good_size (negsuc n) h = cc

-- How `alloc` ends: a bad size, a block at the least free run that is long enough, or no such run.
abbrev pub AllocOutcome : Pool → ℤ → Type 0
AllocOutcome p size =
    ((bad_size size ≡ true) × (alloc p size ≡ some (p, null)))
    ⊎ ((bad_size size ≡ false)
        × ((i : ℕ) × (p' : Pool) × (alloc p size ≡ some (p', p.mapped_page + i * min_alloc))
            × Placed p (magnitude size / min_alloc) i p'))
    ⊎ ((bad_size size ≡ false)
        × (alloc p size ≡ some (p, null))
        × ((j : ℕ)
            → j + magnitude size / min_alloc ≤ num_chunks
            → ¬ IsFreeRun p.free_chunks (magnitude size / min_alloc) j))

module _ (p : Pool) (valid : IsValid p) where
  place_lem :
      (r : ℕ)
      → 0 < r
      → r ≤ num_chunks
      → ((i : ℕ) × (p' : Pool) × (place p r ≡ some (p', p.mapped_page + i * min_alloc))
          × Placed p r i p')
        ⊎ ((place p r ≡ some (p, null))
            × ((j : ℕ) → j + r ≤ num_chunks → ¬ IsFreeRun p.free_chunks r j))
  unfolding place
  place_lem r more le = split (
      first_fit_lem (num_chunks + 1 - r) 0 r p.free_chunks (omega (arith, valid.tiled.free_length)))
    where
      split :
          ((res : Option ℕ) × (first_fit (num_chunks + 1 - r) 0 r p.free_chunks ≡ some res)
            × FirstFit (num_chunks + 1 - r) 0 r p.free_chunks res)
          → ((i : ℕ) × (p' : Pool) × (place p r ≡ some (p', p.mapped_page + i * min_alloc))
              × Placed p r i p')
            ⊎ ((place p r ≡ some (p, null))
                × ((j : ℕ) → j + r ≤ num_chunks → ¬ IsFreeRun p.free_chunks r j))
      split (none, e, all) = inr (rw e, λ j h. all j (omega arith) (omega arith))
      split (some i, e, (lo, hi, run, before)) =
          let (t, q, w) = take_run_lem valid.tiled r i more (omega arith) in
          inl (
            i,
            record p { tables = t },
            rw (e, q),
            record {
              fits = omega arith;
              free = run;
              least = λ j h. before j (omega arith) h;
              base = refl;
              written = w;
              valid = record {
                mapped = valid.mapped;
                tiled = take-IsTiled valid.tiled r i more (omega arith) run w;
              };
            },
          )

  -- On a valid pool `alloc` never faults. A size that is not positive, is above a page or is no
  -- multiple of 8 gives NULL and changes nothing. Any other size is placed at the least free run
  -- of that many chunks, or gives NULL and changes nothing if the page has no such run.
  pub alloc_first_fit : (size : ℤ) → AllocOutcome p size
  unfolding alloc
  alloc_first_fit size = elim (Bool-cases (bad_size size)) [
    | inl bad ↦ inl (bad, rw bad)
    | inr good ↦
        let (more, le, _) = good_size size good in
        elim (place_lem (magnitude size / min_alloc) more le) [
          | inl (i, p', e, w) ↦ inr (inl (good, (i, p', rw good e, w)))
          | inr (e, full) ↦ inr (inr (good, rw good e, full))
        ]
  ]

  -- Of a pointer that is not NULL, `alloc` has placed the block, and the size was a good one.
  pub alloc-Placed :
      (size : ℤ) (p' : Pool) (ptr : ℕ)
      → alloc p size ≡ some (p', ptr)
      → ptr ≢ null
      → (bad_size size ≡ false)
        × ((i : ℕ) × (ptr ≡ p.mapped_page + i * min_alloc)
            × Placed p (magnitude size / min_alloc) i p')
  alloc-Placed size p' ptr e ne = elim (alloc_first_fit size) [
    | inl (_, q) ↦ absurd (ne (ground (arith, e, q)))
    | inr (inr (_, q, _)) ↦ absurd (ne (ground (arith, e, q)))
    | inr (inl (good, (i, p'', q, placed))) ↦
        let same : p'' ≡ p' = ground (arith, e, q) in
        (good, (i, ground (arith, e, q), rw same at placed))
  ]
