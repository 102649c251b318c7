-- ===== src/Alloc/Release.antt =====
-- `dealloc` of malloc-code/alloc.h: its three outcomes, and that it undoes `alloc`.
use os333_iit_bombay_labs.Prelude.{
  ℕ, ◌+◌, ◌-◌, ◌*◌, ◌/◌, ◌≤◌, ◌<◌, min, ◌≡◌, refl, ap, ◌∙◌, ◌≢◌, ◌⊎◌, inl, inr, true, false, ◌||◌,
  some, get_elem?, leb, ◌==◌, arith, get_elem?-get_or, ℕ_discrete,
}
use os333_iit_bombay_labs.Prelude.Int.{ℤ}
use os333_iit_bombay_labs.Chunks.Invariant.{
  Rewritten, size_at, release_run_lem, release-IsTiled, release-take,
}
use os333_iit_bombay_labs.Alloc.{
  page_size, min_alloc, num_chunks, null, Pool, magnitude, alloc, freed, invalid_pointer,
  not_a_block, free_block, bad_pointer, dealloc,
}
use os333_iit_bombay_labs.Alloc.Safety.{IsValid, Placed, alloc-Placed, good_size}

-- The chunk that a pointer into the page points into.
abbrev pub index_of : Pool → ℕ → ℕ
index_of p ptr = (ptr - p.mapped_page) / min_alloc

-- `ptr` lies in the page.
abbrev pub IsInside : Pool → ℕ → Type 0
IsInside p ptr = (p.mapped_page ≤ ptr) × (ptr < p.mapped_page + page_size)

-- The block at `i` has been freed.
pub record Released (p : Pool) (i : ℕ) (p' : Pool) : Type 0 where
  pub live : 0 < size_at p.tables i
  pub base : p'.mapped_page ≡ p.mapped_page
  pub written : Rewritten (size_at p.tables i) i 1 0 p.tables p'.tables
  pub valid : IsValid p'

inside : (p : Pool) (ptr : ℕ) → 0 < p.mapped_page → IsInside p ptr → bad_pointer p ptr ≡ false
inside p ptr h in_page = ground arith

outside : (p : Pool) (ptr : ℕ) → ¬ IsInside p ptr → bad_pointer p ptr ≡ true
outside p ptr h = ground (arith, h)

in_or_out : (p : Pool) (ptr : ℕ) → IsInside p ptr ⊎ (¬ IsInside p ptr)
in_or_out p ptr = ground arith

-- How `dealloc` ends, by where the pointer points.
abbrev pub DeallocOutcome : Pool → ℕ → Type 0
DeallocOutcome p ptr =
    ((¬ IsInside p ptr) × (dealloc p ptr ≡ some (p, invalid_pointer)))
    ⊎ (IsInside p ptr
        × (size_at p.tables (index_of p ptr) ≡ 0)
        × (dealloc p ptr ≡ some (p, not_a_block)))
    ⊎ (IsInside p ptr
        × ((p' : Pool) × (dealloc p ptr ≡ some (p', freed)) × Released p (index_of p ptr) p'))

module _ (p : Pool) (valid : IsValid p) where
  free_block_lem :
      (i : ℕ)
      → i < num_chunks
      → ((size_at p.tables i ≡ 0) × (free_block p i ≡ some (p, not_a_block)))
        ⊎ ((p' : Pool) × (free_block p i ≡ some (p', freed)) × Released p i p')
  unfolding free_block
  free_block_lem i lt = elim (ℕ_discrete (size_at p.tables i) 0) [
    | yes e ↦ inl (e, rw (read, e))
    | no ne ↦
        let room = valid.tiled.within i (omega arith) in
        let whole : min (size_at p.tables i) (num_chunks - i) ≡ size_at p.tables i = omega arith in
        let test : (size_at p.tables i == 0 || leb num_chunks i) ≡ false = ground arith in
        let (t, e, w) = release_run_lem valid.tiled (size_at p.tables i) i lt room in
        inr (
          record p { tables = t },
          rw (read, test, whole, e),
          record {
            live = omega arith;
            base = refl;
            written = w;
            valid = record {
              mapped = valid.mapped;
              tiled = release-IsTiled valid.tiled i (omega arith) w;
            };
          },
        )
  ]
    where
      read : get_elem? p.alloc_sizes i ≡ some (size_at p.tables i)
      read = get_elem?-get_or p.alloc_sizes i 0 (omega (arith, valid.tiled.sizes_length))

  -- On a valid pool `dealloc` never faults, for any address. Outside the page it reports an invalid
  -- pointer, in a chunk that starts no block it reports that, and both change nothing. Else it
  -- frees the whole block that starts at the chunk, and the pool stays valid.
  pub dealloc_cases : (ptr : ℕ) → DeallocOutcome p ptr
  unfolding dealloc
  dealloc_cases ptr = elim (in_or_out p ptr) [
    | inr out ↦ inl (out, rw (outside p ptr out))
    | inl in_page ↦ elim (free_block_lem (index_of p ptr) (omega arith)) [
      | inl (e, q) ↦ inr (inl (in_page, e, rw (inside p ptr valid.mapped in_page) q))
      | inr (p', q, r) ↦ inr (inr (in_page, (p', rw (inside p ptr valid.mapped in_page) q, r)))
    ]
  ]

module _ (p : Pool) (valid : IsValid p) where
  undo :
      (r i : ℕ) (p' : Pool) (ptr : ℕ)
      → 0 < r
      → Placed p r i p'
      → ptr ≡ p.mapped_page + i * min_alloc
      → dealloc p' ptr ≡ some (p, freed)
  undo r i p' ptr more placed at = elim (dealloc_cases p' placed.valid ptr) [
    | inl (out, _) ↦ absurd (out (omega (arith, placed.base, placed.fits)))
    | inr (inl (_, none_here, _)) ↦
        absurd (ground (arith, index, none_here, placed.written.alloc_sizes i))
    | inr (inr (_, (p'', q, rel))) ↦
        q
        ∙ ap (λ (x : Pool). some (x, freed))
            (pool_eq p'' (ground (arith, rel.base, placed.base)) (
              release-take valid.tiled r i placed.free more placed.written
                (rw index at rel.written)))
  ]
    where
      index : index_of p' ptr ≡ i
      index = omega (arith, placed.base)

      pool_eq : (q : Pool) → q.mapped_page ≡ p.mapped_page → q.tables ≡ p.tables → q ≡ p
      pool_eq q a b = λ k. record { mapped_page = a k; tables = b k }

  -- Freeing a pointer that `alloc` returned gives back the pool as it was before the `alloc`.
  pub dealloc-alloc :
      (size : ℤ) (p' : Pool) (ptr : ℕ)
      → alloc p size ≡ some (p', ptr)
      → ptr ≢ null
      → dealloc p' ptr ≡ some (p, freed)
  dealloc-alloc size p' ptr e ne =
      let (good, (i, at, placed)) = alloc-Placed p valid size p' ptr e ne in
      let (more, _, _) = good_size size good in
      undo (magnitude size / min_alloc) i p' ptr more placed at

  again :
      (ptr : ℕ) (p' : Pool)
      → IsInside p ptr
      → Released p (index_of p ptr) p'
      → dealloc p' ptr ≡ some (p', not_a_block)
  again ptr p' in_page rel = elim (dealloc_cases p' rel.valid ptr) [
    | inl (out, _) ↦ absurd (out (omega (arith, rel.base)))
    | inr (inl (_, _, q)) ↦ q
    | inr (inr (_, (_, _, more))) ↦
        absurd (ground (arith, more.live, rel.base, rel.written.alloc_sizes (index_of p ptr)))
  ]

  -- A second `dealloc` of a pointer is reported, and changes nothing.
  pub dealloc_twice :
      (ptr : ℕ) (p' : Pool)
      → dealloc p ptr ≡ some (p', freed)
      → dealloc p' ptr ≡ some (p', not_a_block)
  dealloc_twice ptr p' e = elim (dealloc_cases p valid ptr) [
    | inl (_, q) ↦ cc (e, q)
    | inr (inl (_, _, q)) ↦ cc (e, q)
    | inr (inr (in_page, (p'', q, rel))) ↦
        let same : p'' ≡ p' = ground (arith, e, q) in again ptr p' in_page (rw same at rel)
  ]

module _ (p : Pool) (valid : IsValid p) where
  -- A pointer up to 7 bytes past the start of a live block frees the block: `dealloc` does not see
  -- that it is not a pointer that `alloc` returned.
  pub dealloc_unaligned :
      (i d : ℕ)
      → 0 < size_at p.tables i
      → d < min_alloc
      → (p' : Pool) × (dealloc p (p.mapped_page + i * min_alloc + d) ≡ some (p', freed))
        × Released p i p'
  dealloc_unaligned i d live small =
      elim (dealloc_cases p valid (p.mapped_page + i * min_alloc + d)) [
        | inl (out, _) ↦ absurd (out (omega (arith, room)))
        | inr (inl (_, none_here, _)) ↦ absurd (omega (arith, live, rw index at none_here))
        | inr (inr (_, (p', q, rel))) ↦ (p', q, rw index at rel)
      ]
    where
      room : i + size_at p.tables i ≤ num_chunks
      room = valid.tiled.within i live

      index : index_of p (p.mapped_page + i * min_alloc + d) ≡ i
      index = omega arith
