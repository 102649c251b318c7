-- ===== src/Ealloc.antt =====
-- malloc-code/ealloc.h: an allocator that grows by up to four pages of 16 chunks of 256 bytes.
-- The arrays `pages`, `free_chunks` and `alloc_sizes` are one list of pages, whose length is
-- `num_pages`: the entries from `num_pages` on are never read.
pub mod Pages
pub mod Correct
pub mod Release
pub mod Undo
use os333_iit_bombay_labs.Prelude.{
  ℕ, zero, suc, ◌+◌, ◌-◌, ◌*◌, ◌/◌, ◌%◌, ◌^◌, Bool, true, false, not, ◌||◌, ◌&&◌, Option, none,
  some, List, [], ◌∷◌, ◌++◌, length, get_elem?, ltb, leb, ◌==◌, if◌then◌else◌, ◌>>=◌,
}
use os333_iit_bombay_labs.Prelude.Int.{ℤ, pos, negsuc}
use os333_iit_bombay_labs.Chunks.{Tables, fresh_tables, first_fit, take_run, release_run}

abbrev pub page_size : ℕ
page_size = 4096

abbrev pub min_alloc : ℕ
min_alloc = 256

abbrev pub num_chunks : ℕ
num_chunks = page_size / min_alloc

abbrev pub max_pages : ℕ
max_pages = 4

abbrev pub null : ℕ
null = 0

abbrev pub map_failed : ℕ
map_failed = 2 ^ 64 - 1

pub record Page : Type 0 where
  pub start : ℕ  -- pages[i]
  pub tables : Tables  -- free_chunks[i], alloc_sizes[i]

-- What the calls into the C library return while `alloc` sets up a page.
pub record Grow : Type 0 where
  pub mapped : ℕ  -- mmap
  pub flags_given : Bool  -- malloc(NUMCHUNKS) is not NULL
  pub sizes_given : Bool  -- malloc(NUMCHUNKS * sizeof(int)) is not NULL

unfoldable pub init_alloc : List Page → List Page
init_alloc pages = []

unfoldable pub cleanup : List Page → List Page
cleanup pages = []

unfoldable pub bad_size : ℤ → Bool
bad_size (negsuc _) = true
bad_size (pos size) = size == 0 || ltb page_size size || not (size % min_alloc == 0)

abbrev pub magnitude : ℤ → ℕ
magnitude (pos n) = n
magnitude (negsuc n) = n + 1

-- One page of the search loop: the page and the pointer, if the page has room.
unfoldable pub place_in : ℕ → Page → Option (Option (Page × ℕ))
place_in required_chunks page = do
  hit ← first_fit (num_chunks + 1 - required_chunks) 0 required_chunks page.tables.free_chunks
  elim hit [
    | none ↦ some none
    | some i ↦ take_run required_chunks i page.tables >>= λ t.
        some (some (record page { tables = t }, page.start + i * min_alloc))
  ]

-- The search loop over the pages in use, with the pages as it leaves them.
unfoldable pub search_pages : ℕ → List Page → Option (Option (List Page × ℕ))
search_pages required_chunks [] = some none
search_pages required_chunks (page ∷ pages) =
    let rest : Option (Option (List Page × ℕ)) = do
      later ← search_pages required_chunks pages
      elim later [ none ↦ some none | some (pages', ptr) ↦ some (some (page ∷ pages', ptr)) ]
    in place_in required_chunks page >>= λ hit. elim hit [
      | none ↦ rest
      | some (page', ptr) ↦ some (some (page' ∷ pages, ptr))
    ]

-- The end of `alloc`: a page is mapped and its first chunks are taken. A `memset` on the NULL that
-- a `malloc` returned is a fault.
unfoldable pub grow : Grow → ℕ → List Page → Option (List Page × ℕ)
grow env required_chunks pages =
    let mapped : Option (List Page × ℕ) =
      if env.flags_given && env.sizes_given
      then (take_run required_chunks 0 (fresh_tables num_chunks) >>= λ t.
          some (pages ++ record { start = env.mapped; tables = t } ∷ [], env.mapped))
      else none in
    if leb max_pages (length pages)
    then some (pages, null)
    else if env.mapped == map_failed
    then some (pages, null)
    else mapped

-- `alloc`: the pages afterwards and the pointer returned.
unfoldable pub alloc : Grow → List Page → ℤ → Option (List Page × ℕ)
alloc env pages size =
    let required_chunks = magnitude size / min_alloc in
    let go : Option (List Page × ℕ) = do
      hit ← search_pages required_chunks pages
      elim hit [ none ↦ grow env required_chunks pages | some (pages', ptr) ↦ some (pages', ptr) ]
    in if bad_size size then some (pages, null) else go

-- How `dealloc` ends: the two errors are its messages on stderr.
pub data Freed : Type 0 where
  freed invalid_free not_found : Freed

-- The body of the loop of `dealloc` at the page that holds the pointer.
unfoldable pub free_in : Page → ℕ → Option (Page × Freed)
free_in page offset = do
  let chunk_index = offset / min_alloc
  size ← get_elem? page.tables.alloc_sizes chunk_index
  let release =
      release_run size chunk_index page.tables >>= λ t. some (record page { tables = t }, freed)
  if size == 0 then some (page, invalid_free) else release

unfoldable pub dealloc : List Page → ℕ → Option (List Page × Freed)
dealloc [] ptr = some ([], not_found)
dealloc (page ∷ pages) ptr =
    let rest : Option (List Page × Freed) =
      dealloc pages ptr >>= λ (pages', out). some (page ∷ pages', out) in
    if leb page.start ptr && ltb ptr (page.start + page_size)
    then (free_in page (ptr - page.start) >>= λ (page', out). some (page' ∷ pages, out))
    else rest
