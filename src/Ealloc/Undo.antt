-- ===== src/Ealloc/Undo.antt =====
-- `dealloc` undoes `alloc` in malloc-code/ealloc.h, also where the pages in use come before it.
use os333_iit_bombay_labs.Prelude.{
  ℕ, ◌-◌, ◌*◌, ◌/◌, ◌<◌, ◌≡◌, ap, ◌∙◌, ◌≢◌, inl, inr, some, List, [], ◌∷◌, ◌++◌, length, arith,
  length-append, All, All-split,
}
use os333_iit_bombay_labs.Prelude.Int.{ℤ}
use os333_iit_bombay_labs.Chunks.Invariant.{release-take}
use os333_iit_bombay_labs.Ealloc.{min_alloc, null, Page, Grow, alloc, freed, free_in, dealloc}
use os333_iit_bombay_labs.Ealloc.Pages.{
  starts, IsTiledPage, IsApart, AreApart, IsValid, Placed, Found,
}
use os333_iit_bombay_labs.Ealloc.Correct.{good_size, Granted, page_alloc_cases}
use os333_iit_bombay_labs.Ealloc.Release.{IsInside, in_page, free_in_lem}

-- An address in one page is in no page before it.
not_before :
    (ptr : ℕ) (before : List Page) (page : Page) (after : List Page)
    → AreApart (starts (before ++ page ∷ after))
    → IsInside ptr page
    → All (λ q. ¬ IsInside ptr q) before
not_before ptr [] page after apart inside = tt
not_before ptr (b ∷ before) page after apart inside =
    (λ in_b. clash (apart_at before apart.0) in_b, not_before ptr before page after apart.1 inside)
  where
    apart_at :
        (l : List Page)
        → All (IsApart b.start) (starts (l ++ page ∷ after))
        → IsApart b.start page.start
    apart_at [] h = h.0
    apart_at (x ∷ l) h = apart_at l h.1

    clash : IsApart b.start page.start → IsInside ptr b → ⊥
    clash h in_b = ground arith

-- `dealloc` goes past the pages that do not hold the address.
dealloc_at :
    (ptr : ℕ) (before : List Page) (page page' : Page) (after : List Page)
    → All (λ q. ¬ IsInside ptr q) before
    → IsInside ptr page
    → free_in page (ptr - page.start) ≡ some (page', freed)
    → dealloc (before ++ page ∷ after) ptr ≡ some (before ++ page' ∷ after, freed)
unfolding dealloc
dealloc_at ptr [] page page' after out inside e = elim (in_page ptr page) [
  | inl (_, test) ↦ rw (test, e)
  | inr (not_in, _) ↦ absurd (not_in inside)
]
dealloc_at ptr (b ∷ before) page page' after out inside e = elim (in_page ptr b) [
  | inl (in_b, _) ↦ absurd (out.0 in_b)
  | inr (_, test) ↦ rw (test, dealloc_at ptr before page page' after out.1 inside e)
]

page_eq : (p q : Page) → p.start ≡ q.start → p.tables ≡ q.tables → p ≡ q
page_eq p q a b = λ k. record { start = a k; tables = b k }

-- Freeing the block just placed in a page gives back the page.
free_in-Placed :
    (page page' : Page) (r i : ℕ)
    → IsTiledPage page
    → 0 < r
    → Placed page r i page'
    → free_in page' (i * min_alloc) ≡ some (page, freed)
free_in-Placed page page' r i tiled more placed =
    elim (free_in_lem page' (i * min_alloc) placed.tiled (omega (arith, placed.fits))) [
      | inl (none_here, _) ↦
          absurd (ground (arith, rw index at none_here, placed.written.alloc_sizes i))
      | inr (u, q, rel) ↦
          q
          ∙ ap (λ (x : Page). some (x, freed))
              (page_eq u page (rel.same ∙ placed.same)
                (release-take tiled r i placed.free more placed.written (rw index at rel.written)))
    ]
  where
    index : i * min_alloc / min_alloc ≡ i
    index = omega arith

undo :
    {r ptr : ℕ} {pages pages' : List Page}
    → IsValid pages
    → IsValid pages'
    → 0 < r
    → Found r pages pages' ptr
    → dealloc pages' ptr ≡ some (pages, freed)
undo {r} {ptr} {pages} valid valid' more f =
    rw (f.new, f.old)
      (dealloc_at ptr f.before f.page' f.page f.after
        (not_before ptr f.before f.page' f.after (rw f.new at valid'.apart) inside) inside
        (rw offset (free_in-Placed f.page f.page' r f.i tiled more f.placed)))
  where
    tiled : IsTiledPage f.page
    tiled = (All-split IsTiledPage f.before (f.page ∷ f.after) (rw f.old at valid.tiled)).1.0

    inside : IsInside ptr f.page'
    inside = omega (arith, f.at, f.placed.same, f.placed.fits)

    offset : ptr - f.page'.start ≡ f.i * min_alloc
    offset = omega (arith, f.at, f.placed.same)

-- Freeing what `alloc` placed in a page that was in use gives back all pages as they were.
pub page_dealloc-alloc :
    (env : Grow) (pages : List Page) (size : ℤ) (pages' : List Page) (ptr : ℕ)
    → IsValid pages
    → Granted env pages
    → alloc env pages size ≡ some (pages', ptr)
    → ptr ≢ null
    → length pages' ≡ length pages
    → dealloc pages' ptr ≡ some (pages, freed)
page_dealloc-alloc env pages size pages' ptr valid ok e ne same =
    elim (page_alloc_cases env pages valid size ok) [
      | inl (_, q) ↦ absurd (ne (ground (arith, e, q)))
      | inr (inl (good, (new, p, q, found, valid'))) ↦
          let a : new ≡ pages' = ground (arith, e, q) in
          let b : p ≡ ptr = ground (arith, e, q) in
          undo valid (rw a at valid') (good_size size good).0 (rw (a, b) at found)
      | inr (inr (inl (_, _, (new, q, grown)))) ↦
          let a : new ≡ pages' = ground (arith, e, q) in
          absurd (
            omega (
              arith,
              ap (length {A = Page}) a,
              ap (length {A = Page}) grown.new,
              length-append pages (grown.page ∷ []),
            ))
      | inr (inr (inr (_, _, q, _))) ↦ absurd (ne (ground (arith, e, q)))
    ]
