-- ===== src/Ealloc/Pages.antt =====
-- The pages of malloc-code/ealloc.h: their invariant, and the search loops of `alloc` and `dealloc`.
use os333_iit_bombay_labs.Prelude.{
  ℕ, suc, ◌+◌, ◌-◌, ◌*◌, ◌≤◌, ◌<◌, ◌≡◌, refl, ap, ◌⊎◌, inl, inr, Option, none, some, List, [], ◌∷◌,
  ◌++◌, map, length, arith, length-append, All, All-append, All-split,
}
use os333_iit_bombay_labs.Chunks.{first_fit}
use os333_iit_bombay_labs.Chunks.Loops.{IsFreeRun, FirstFit, first_fit_lem}
use os333_iit_bombay_labs.Chunks.Invariant.{IsTiled, Rewritten, take_run_lem, take-IsTiled}
use os333_iit_bombay_labs.Ealloc.{
  page_size, min_alloc, num_chunks, max_pages, Page, place_in, search_pages,
}

abbrev pub starts : List Page → List ℕ
starts = map (λ page. page.start)

abbrev pub IsTiledPage : Page → Type 0
IsTiledPage page = IsTiled num_chunks page.tables

-- The pages at two addresses do not overlap.
abbrev pub IsApart : ℕ → ℕ → Type 0
IsApart a b = (a + page_size ≤ b) ⊎ (b + page_size ≤ a)

abbrev pub AreApart : List ℕ → Type 0
AreApart [] = Unit
AreApart (a ∷ l) = All (IsApart a) l × AreApart l

pub record IsValid (pages : List Page) : Type 0 where
  pub few : length pages ≤ max_pages
  pub mapped : All (λ a. 0 < a) (starts pages)
  pub apart : AreApart (starts pages)
  pub tiled : All IsTiledPage pages

-- No run of `r` chunks is free in the page.
abbrev pub IsFull : ℕ → Page → Type 0
IsFull r page = (j : ℕ) → j + r ≤ num_chunks → ¬ IsFreeRun page.tables.free_chunks r j

-- `page'` is `page` with `r` chunks taken at its least free run, which starts at `i`.
pub record Placed (page : Page) (r i : ℕ) (page' : Page) : Type 0 where
  pub fits : i + r ≤ num_chunks
  pub free : IsFreeRun page.tables.free_chunks r i
  pub least : (j : ℕ) → j < i → ¬ IsFreeRun page.tables.free_chunks r j
  pub same : page'.start ≡ page.start
  pub written : Rewritten r i 0 r page.tables page'.tables
  pub tiled : IsTiledPage page'

place_in_lem :
    (r : ℕ) (page : Page)
    → 0 < r
    → r ≤ num_chunks
    → IsTiledPage page
    → ((place_in r page ≡ some none) × IsFull r page)
      ⊎ ((i : ℕ) × (page' : Page) × (place_in r page
            ≡ some (some (page', page.start + i * min_alloc)))
          × Placed page r i page')
unfolding place_in
place_in_lem r page more le tiled =
    split (first_fit_lem (num_chunks + 1 - r) 0 r f (omega (arith, tiled.free_length)))
  where
    f : List ℕ
    f = page.tables.free_chunks

    split :
        ((res : Option ℕ) × (first_fit (num_chunks + 1 - r) 0 r f ≡ some res)
          × FirstFit (num_chunks + 1 - r) 0 r f res)
        → ((place_in r page ≡ some none) × IsFull r page)
          ⊎ ((i : ℕ) × (page' : Page) × (place_in r page
                ≡ some (some (page', page.start + i * min_alloc)))
              × Placed page r i page')
    split (none, e, all) = inl (rw e, λ j h. all j (omega arith) (omega arith))
    split (some i, e, (lo, hi, run, before)) =
        let (t, q, w) = take_run_lem tiled r i more (omega arith) in
        inr (
          i,
          record page { tables = t },
          rw (e, q),
          record {
            fits = omega arith;
            free = run;
            least = λ j h. before j (omega arith) h;
            same = refl;
            written = w;
            tiled = take-IsTiled tiled r i more (omega arith) run w;
          },
        )

-- The first page with room, between the full pages before it and the rest.
pub record Found (r : ℕ) (pages : List Page) (pages' : List Page) (ptr : ℕ) : Type 0 where
  pub before : List Page
  pub page : Page
  pub after : List Page
  pub i : ℕ
  pub page' : Page
  pub old : pages ≡ before ++ page ∷ after
  pub new : pages' ≡ before ++ page' ∷ after
  pub full : All (IsFull r) before
  pub placed : Placed page r i page'
  pub at : ptr ≡ page.start + i * min_alloc

-- The search loop does not fault, and takes the first page with room.
pub search_pages_lem :
    (r : ℕ) (pages : List Page)
    → 0 < r
    → r ≤ num_chunks
    → All IsTiledPage pages
    → ((search_pages r pages ≡ some none) × All (IsFull r) pages)
      ⊎ ((pages' : List Page) × (ptr : ℕ) × (search_pages r pages ≡ some (some (pages', ptr)))
          × Found r pages pages' ptr)
unfolding search_pages
search_pages_lem r [] more le tiled = inl (refl, tt)
search_pages_lem r (page ∷ pages) more le tiled = elim (place_in_lem r page more le tiled.0) [
  | inr (i, page', e, placed) ↦ inr (
    page' ∷ pages,
    page.start + i * min_alloc,
    rw e,
    record {
      before = [];
      page = page;
      after = pages;
      i = i;
      page' = page';
      old = refl;
      new = refl;
      full = tt;
      placed = placed;
      at = refl;
    },
  )
  | inl (e, full) ↦ elim (search_pages_lem r pages more le tiled.1) [
    | inl (q, rest) ↦ inl (rw (e, q), (full, rest))
    | inr (pages', ptr, q, found) ↦ inr (
      page ∷ pages',
      ptr,
      rw (e, q),
      record {
        before = page ∷ found.before;
        page = found.page;
        after = found.after;
        i = found.i;
        page' = found.page';
        placed = found.placed;
        at = found.at;
        old = ap (◌∷◌ page) found.old;
        new = ap (◌∷◌ page) found.new;
        full = (full, found.full);
      },
    )
  ]
]

-- One page of a list is replaced by a page at the same address.
starts-replace :
    (before : List Page) (page page' : Page) (after : List Page)
    → page'.start ≡ page.start
    → starts (before ++ page' ∷ after) ≡ starts (before ++ page ∷ after)
starts-replace [] page page' after e = ap (λ a. a ∷ starts after) e
starts-replace (b ∷ before) page page' after e =
    ap (◌∷◌ b.start) (starts-replace before page page' after e)

length-starts : (pages : List Page) → length (starts pages) ≡ length pages
length-starts [] = refl
length-starts (page ∷ pages) = ap suc (length-starts pages)

pub replace-IsValid :
    (before : List Page) (page page' : Page) (after : List Page)
    → page'.start ≡ page.start
    → IsTiledPage page'
    → IsValid (before ++ page ∷ after)
    → IsValid (before ++ page' ∷ after)
replace-IsValid before page page' after e tiled v =
    let same = starts-replace before page page' after e in
    let (front, back) = All-split IsTiledPage before (page ∷ after) v.tiled in
    record {
      few = omega (
        arith,
        v.few,
        ap (length {A = ℕ}) same,
        length-starts (before ++ page ∷ after),
        length-starts (before ++ page' ∷ after),
      );
      mapped = rw same v.mapped;
      apart = rw same v.apart;
      tiled = All-append IsTiledPage before (page' ∷ after) front (tiled, back.1);
    }

-- A page set up at an address that overlaps no page in use.
starts-append :
    (pages : List Page) (page : Page)
    → starts (pages ++ page ∷ []) ≡ starts pages ++ page.start ∷ []
starts-append [] page = refl
starts-append (p ∷ pages) page = ap (◌∷◌ p.start) (starts-append pages page)

apart_append : (l : List ℕ) (a : ℕ) → AreApart l → All (λ b. IsApart b a) l → AreApart (l ++ a ∷ [])
apart_append [] a h fresh = (tt, tt)
apart_append (b ∷ l) a h fresh =
    (All-append (IsApart b) l (a ∷ []) h.0 (fresh.0, tt), apart_append l a h.1 fresh.1)

pub append-IsValid :
    (pages : List Page) (page : Page)
    → IsValid pages
    → length pages < max_pages
    → 0 < page.start
    → All (λ b. IsApart b page.start) (starts pages)
    → IsTiledPage page
    → IsValid (pages ++ page ∷ [])
append-IsValid pages page v room up fresh tiled = record {
  few = omega (arith, length-append pages (page ∷ []));
  mapped =
      rw (starts-append pages page)
        (All-append (λ a. 0 < a) (starts pages) (page.start ∷ []) v.mapped (up, tt));
  apart = rw (starts-append pages page) (apart_append (starts pages) page.start v.apart fresh);
  tiled = All-append IsTiledPage pages (page ∷ []) v.tiled (tiled, tt);
}
