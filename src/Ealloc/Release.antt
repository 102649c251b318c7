-- ===== src/Ealloc/Release.antt =====
-- `dealloc` of malloc-code/ealloc.h: its outcomes on any address, and that it undoes `alloc`.
use os333_iit_bombay_labs.Prelude.{
  ℕ, ◌+◌, ◌-◌, ◌/◌, ◌≤◌, ◌<◌, ◌≡◌, refl, ap, ◌⊎◌, inl, inr, true, false, ◌&&◌, some, List, [], ◌∷◌,
  ◌++◌, get_elem?, ltb, leb, ◌==◌, arith, get_elem?-get_or, All, ℕ_discrete,
}
use os333_iit_bombay_labs.Chunks.Invariant.{Rewritten, size_at, release_run_lem, release-IsTiled}
use os333_iit_bombay_labs.Ealloc.{
  page_size, min_alloc, Page, freed, invalid_free, not_found, free_in, dealloc,
}
use os333_iit_bombay_labs.Ealloc.Pages.{IsTiledPage}

-- `ptr` lies in the page.
abbrev pub IsInside : ℕ → Page → Type 0
IsInside ptr page = (page.start ≤ ptr) × (ptr < page.start + page_size)

-- The chunk of the page that `ptr` points into.
abbrev pub index_of : Page → ℕ → ℕ
index_of page ptr = (ptr - page.start) / min_alloc

-- The block that starts at chunk `i` of the page has been freed.
pub record Released (page : Page) (i : ℕ) (page' : Page) : Type 0 where
  pub live : 0 < size_at page.tables i
  pub same : page'.start ≡ page.start
  pub written : Rewritten (size_at page.tables i) i 1 0 page.tables page'.tables
  pub tiled : IsTiledPage page'

pub free_in_lem :
    (page : Page) (offset : ℕ)
    → IsTiledPage page
    → offset < page_size
    → ((size_at page.tables (offset / min_alloc) ≡ 0)
        × (free_in page offset ≡ some (page, invalid_free)))
      ⊎ ((page' : Page) × (free_in page offset ≡ some (page', freed))
          × Released page (offset / min_alloc) page')
unfolding free_in
free_in_lem page offset tiled lt = elim (ℕ_discrete (size_at page.tables i) 0) [
  | yes e ↦ inl (e, rw (read, e))
  | no ne ↦
      let (t, e, w) =
        release_run_lem tiled (size_at page.tables i) i (omega arith)
          (tiled.within i (omega arith)) in
      let test : (size_at page.tables i == 0) ≡ false = ground arith in
      inr (
        record page { tables = t },
        rw (read, test, e),
        record {
          live = omega arith;
          same = refl;
          written = w;
          tiled = release-IsTiled tiled i (omega arith) w;
        },
      )
]
  where
    i : ℕ
    i = offset / min_alloc

    read : get_elem? page.tables.alloc_sizes i ≡ some (size_at page.tables i)
    read = get_elem?-get_or page.tables.alloc_sizes i 0 (omega (arith, tiled.sizes_length))

-- The page that holds `ptr`, and the first page to do so.
pub record Holds (ptr : ℕ) (pages : List Page) : Type 0 where
  pub before : List Page
  pub page : Page
  pub after : List Page
  pub old : pages ≡ before ++ page ∷ after
  pub not_before : All (λ q. ¬ IsInside ptr q) before
  pub inside : IsInside ptr page

pub in_page :
    (ptr : ℕ) (page : Page)
    → (IsInside ptr page × ((leb page.start ptr && ltb ptr (page.start + page_size)) ≡ true))
      ⊎ ((¬ IsInside ptr page) × ((leb page.start ptr && ltb ptr (page.start + page_size)) ≡ false))
in_page ptr page = ground arith

-- How `dealloc` ends, by which page holds the pointer and where it points in it.
abbrev pub PageDeallocOutcome : List Page → ℕ → Type 0
PageDeallocOutcome pages ptr =
    (All (λ q. ¬ IsInside ptr q) pages × (dealloc pages ptr ≡ some (pages, not_found)))
    ⊎ ((h : Holds ptr pages) × (((size_at h.page.tables (index_of h.page ptr) ≡ 0)
            × (dealloc pages ptr ≡ some (pages, invalid_free)))
          ⊎ ((page' : Page) × (dealloc pages ptr ≡ some (h.before ++ page' ∷ h.after, freed))
              × Released h.page (index_of h.page ptr) page')))

-- `dealloc` never faults on tiled pages, for any address. It reports an address that is in no page, and
-- one in a chunk that starts no block, and then changes nothing. Else it frees the block that starts at the chunk.
pub page_dealloc_cases :
    (pages : List Page) (ptr : ℕ) → All IsTiledPage pages → PageDeallocOutcome pages ptr
unfolding dealloc
page_dealloc_cases [] ptr tiled = inl (tt, refl)
page_dealloc_cases (page ∷ pages) ptr tiled = elim (in_page ptr page) [
  | inl (inside, test) ↦ inr (
    record {
      before = [];
      page = page;
      after = pages;
      old = refl;
      not_before = tt;
      inside = inside;
    },
    elim (free_in_lem page (ptr - page.start) tiled.0 (omega arith)) [
      | inl (e, q) ↦ inl (e, rw (test, q))
      | inr (page', q, rel) ↦ inr (page', rw (test, q), rel)
    ],
  )
  | inr (out, test) ↦ elim (page_dealloc_cases pages ptr tiled.1) [
    | inl (none_inside, q) ↦ inl ((out, none_inside), rw (test, q))
    | inr (h, rest) ↦ inr (
      record {
        before = page ∷ h.before;
        page = h.page;
        after = h.after;
        old = ap (◌∷◌ page) h.old;
        not_before = (out, h.not_before);
        inside = h.inside;
      },
      elim rest [
        | inl (e, q) ↦ inl (e, rw (test, q))
        | inr (page', q, rel) ↦ inr (page', rw (test, q), rel)
      ],
    )
  ]
]
