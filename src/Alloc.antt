-- ===== src/Alloc.antt =====
-- malloc-code/alloc.h: an allocator over one page of 512 chunks of 8 bytes, from `mmap`.
-- Addresses are numbers; `mmap` and `munmap` enter by the values that they return.
pub mod Safety
pub mod Release
pub mod Blocks
use os333_iit_bombay_labs.Prelude.{
  ℕ, ◌+◌, ◌-◌, ◌*◌, ◌/◌, ◌%◌, ◌^◌, Bool, true, false, not, ◌||◌, ◌&&◌, Option, none, some, List,
  replicate, get_elem?, ltb, leb, ◌==◌, if◌then◌else◌, ◌>>=◌, min,
}
use os333_iit_bombay_labs.Prelude.Int.{ℤ, pos, negsuc}
use os333_iit_bombay_labs.Chunks.{Tables, fresh_tables, first_fit, take_run, release_run}

abbrev pub page_size : ℕ
page_size = 4096

abbrev pub min_alloc : ℕ
min_alloc = 8

abbrev pub num_chunks : ℕ
num_chunks = page_size / min_alloc

-- NULL and MAP_FAILED, as 64-bit addresses.
abbrev pub null : ℕ
null = 0

abbrev pub map_failed : ℕ
map_failed = 2 ^ 64 - 1

-- The globals of the file.
pub record Pool : Type 0 where
  pub mapped_page : ℕ
  pub tables : Tables
  pub open tables use *

-- The globals before any call: C sets them to zero.
abbrev pub static_pool : Pool
static_pool = record {
  mapped_page = null;
  tables = record { free_chunks = replicate num_chunks 0; alloc_sizes = replicate num_chunks 0 };
}

-- `mapped` is what `mmap` returns. The result is the new globals and the `int` returned.
unfoldable pub init_alloc : ℕ → Pool → Pool × ℤ
init_alloc mapped p =
    if mapped == map_failed
    then (record p { mapped_page = mapped }, negsuc 0)
    else (record { mapped_page = mapped; tables = fresh_tables num_chunks }, pos 0)

-- `unmapped` says whether `munmap` succeeds.
unfoldable pub cleanup : Bool → Pool → Pool × ℤ
cleanup unmapped p =
    if not (p.mapped_page == null) && not unmapped
    then (p, negsuc 0)
    else (record p { mapped_page = null }, pos 0)

-- `size <= 0 || size > PAGESIZE || size % MINALLOC != 0`
unfoldable pub bad_size : ℤ → Bool
bad_size (negsuc _) = true
bad_size (pos size) = size == 0 || ltb page_size size || not (size % min_alloc == 0)

-- The part of `alloc` behind its guard.
unfoldable pub place : Pool → ℕ → Option (Pool × ℕ)
place p required_chunks = do
  hit ← first_fit (num_chunks + 1 - required_chunks) 0 required_chunks p.free_chunks
  elim hit [
    | none ↦ some (p, null)
    | some i ↦ take_run required_chunks i p.tables >>= λ t.
        some (record p { tables = t }, p.mapped_page + i * min_alloc)
  ]

abbrev pub magnitude : ℤ → ℕ
magnitude (pos n) = n
magnitude (negsuc n) = n + 1

-- The new globals and the pointer returned.
unfoldable pub alloc : Pool → ℤ → Option (Pool × ℕ)
alloc p size = if bad_size size then some (p, null) else place p (magnitude size / min_alloc)

-- How `dealloc` ends: the two errors are its messages on stderr.
pub data Freed : Type 0 where
  freed invalid_pointer not_a_block : Freed

-- The part of `dealloc` behind the test of the pointer. Its loop stops at `index + size` and at
-- NUMCHUNKS.
unfoldable pub free_block : Pool → ℕ → Option (Pool × Freed)
free_block p index = do
  size ← get_elem? p.alloc_sizes index
  let n = min size (num_chunks - index)
  let release = release_run n index p.tables >>= λ t. some (record p { tables = t }, freed)
  if size == 0 || leb num_chunks index then some (p, not_a_block) else release

-- `ptr == NULL || ptr < mapped_page || ptr >= mapped_page + PAGESIZE`
abbrev pub bad_pointer : Pool → ℕ → Bool
bad_pointer p ptr = ptr == null || ltb ptr p.mapped_page || leb (p.mapped_page + page_size) ptr

unfoldable pub dealloc : Pool → ℕ → Option (Pool × Freed)
dealloc p ptr =
    if bad_pointer p ptr
    then some (p, invalid_pointer)
    else free_block p ((ptr - p.mapped_page) / min_alloc)
