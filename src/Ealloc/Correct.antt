-- ===== src/Ealloc/Correct.antt =====
-- `alloc` and `dealloc` of malloc-code/ealloc.h over all pages.
use os333_iit_bombay_labs.Prelude.{
  ℕ, ◌*◌, ◌/◌, ◌≤◌, ◌<◌, ◌≡◌, refl, ◌≢◌, ◌⊎◌, inl, inr, true, false, some, List, [], ◌∷◌, ◌++◌,
  length, arith, Bool-cases, All, dec_lt, ℕ_discrete,
}
use os333_iit_bombay_labs.Prelude.Int.{ℤ, pos, negsuc}
use os333_iit_bombay_labs.Chunks.{fresh_tables}
use os333_iit_bombay_labs.Chunks.Invariant.{
  Rewritten, take_run_lem, take-IsTiled, fresh-IsTiled, free-fresh_tables,
}
use os333_iit_bombay_labs.Ealloc.{
  min_alloc, num_chunks, max_pages, null, map_failed, Page, Grow, bad_size, magnitude, grow, alloc,
}
use os333_iit_bombay_labs.Ealloc.Pages.{
  starts, IsApart, IsValid, IsFull, Found, search_pages_lem, replace-IsValid, append-IsValid,
}

pub good_size :
    (size : ℤ)
    → bad_size size ≡ false
    → (0 < magnitude size / min_alloc)
      × (magnitude size / min_alloc ≤ num_chunks)
      × (magnitude size ≡ magnitude size / min_alloc * min_alloc)
unfolding bad_size
good_size (pos n) h = ground arith
good_size (negsuc n) h = cc

-- What `mmap` and `malloc` promise: a page that `mmap` returns is not NULL and overlaps no page in use,
-- and `malloc` succeeds.
pub record Granted (env : Grow) (pages : List Page) : Type 0 where
  pub flags : env.flags_given ≡ true
  pub sizes : env.sizes_given ≡ true
  pub mapped : env.mapped ≢ map_failed → 0 < env.mapped
  pub fresh : env.mapped ≢ map_failed → All (λ a. IsApart a env.mapped) (starts pages)

-- The pages after a new page got `r` chunks at its start.
pub record Grown (env : Grow) (r : ℕ) (pages pages' : List Page) : Type 0 where
  pub page : Page
  pub room : length pages < max_pages
  pub start : page.start ≡ env.mapped
  pub new : pages' ≡ pages ++ page ∷ []
  pub written : Rewritten r 0 0 r (fresh_tables num_chunks) page.tables
  pub valid : IsValid pages'

-- How `alloc` ends: a bad size, a block in a page in use, a block at the start of a new page, or
-- no room.
abbrev pub PageAllocOutcome : Grow → List Page → ℤ → Type 0
PageAllocOutcome env pages size =
    ((bad_size size ≡ true) × (alloc env pages size ≡ some (pages, null)))
    ⊎ ((bad_size size ≡ false)
        × ((pages' : List Page) × (ptr : ℕ) × (alloc env pages size ≡ some (pages', ptr))
            × Found (magnitude size / min_alloc) pages pages' ptr
            × IsValid pages'))
    ⊎ ((bad_size size ≡ false)
        × All (IsFull (magnitude size / min_alloc)) pages
        × ((pages' : List Page) × (alloc env pages size ≡ some (pages', env.mapped))
            × Grown env (magnitude size / min_alloc) pages pages'))
    ⊎ ((bad_size size ≡ false)
        × All (IsFull (magnitude size / min_alloc)) pages
        × (alloc env pages size ≡ some (pages, null))
        × ((length pages ≡ max_pages) ⊎ (env.mapped ≡ map_failed)))

module _ (env : Grow) (pages : List Page) (valid : IsValid pages) where
  grow_lem :
      (r : ℕ)
      → 0 < r
      → r ≤ num_chunks
      → Granted env pages
      → ((grow env r pages ≡ some (pages, null))
          × ((length pages ≡ max_pages) ⊎ (env.mapped ≡ map_failed)))
        ⊎ ((pages' : List Page) × (grow env r pages ≡ some (pages', env.mapped))
            × Grown env r pages pages')
  unfolding grow
  grow_lem r more le ok = elim (dec_lt (length pages) max_pages) [
    | no many ↦ inl (ground arith, inl (omega arith))
    | yes room ↦ elim (ℕ_discrete env.mapped map_failed) [
      | yes failed ↦ inl (ground arith, inr failed)
      | no mapped ↦
          let (t, e, w) = take_run_lem (fresh-IsTiled num_chunks) r 0 more (omega arith) in
          inr (
            pages ++ record { start = env.mapped; tables = t } ∷ [],
            ground (arith, e),
            record {
              page = record { start = env.mapped; tables = t };
              room = room;
              start = refl;
              new = refl;
              written = w;
              valid =
                  append-IsValid pages (record { start = env.mapped; tables = t }) valid room
                    (ok.mapped mapped) (ok.fresh mapped)
                    (take-IsTiled (fresh-IsTiled num_chunks) r 0 more (omega arith)
                      (free-fresh_tables num_chunks r 0 (omega arith)) w);
            },
          )
    ]
  ]

  -- On valid pages, where both calls of `malloc` for a new page succeed and `mmap` fails or gives an address that is apart
  -- from the pages and not NULL, `alloc` never faults. A bad size gives NULL. A good
  -- one is placed in the first page that has a free run of its length, at the least one; if no page has one, at the start of a
  -- new page; and it gives NULL only if there are four pages or `mmap` fails. The pages stay valid.
  pub page_alloc_cases : (size : ℤ) → Granted env pages → PageAllocOutcome env pages size
  unfolding alloc
  page_alloc_cases size ok = elim (Bool-cases (bad_size size)) [
    | inl bad ↦ inl (bad, rw bad)
    | inr good ↦
        let (more, le, _) = good_size size good in
        elim (search_pages_lem (magnitude size / min_alloc) pages more le valid.tiled) [
          | inr (pages', ptr, e, found) ↦
              inr (inl (good, (pages', ptr, rw (good, e), found, Found-IsValid found)))
          | inl (e, full) ↦ elim (grow_lem (magnitude size / min_alloc) more le ok) [
            | inl (q, why) ↦ inr (inr (inr (good, full, rw (good, e) q, why)))
            | inr (pages', q, grown) ↦ inr (inr (inl (good, full, (pages', rw (good, e) q, grown))))
          ]
        ]
  ]
    where
      Found-IsValid : {r ptr : ℕ} {pages' : List Page} → Found r pages pages' ptr → IsValid pages'
      Found-IsValid f = rw f.new (
          replace-IsValid f.before f.page f.page' f.after f.placed.same f.placed.tiled
            (rw f.old at valid))
