-- ===== src/Tests/Allocators.antt =====
-- Runs of malloc-code/alloc.h and malloc-code/ealloc.h.
use os333_iit_bombay_labs.Prelude.{
  ℕ, ◌+◌, ◌-◌, ◌*◌, ◌%◌, ◌≤◌, ◌≡◌, refl, ◌⊎◌, inl, true, false, none, some, [], ◌∷◌, replicate,
  write, ◌>>=◌, arith,
}
use os333_iit_bombay_labs.Prelude.Int.{pos, negsuc}
use os333_iit_bombay_labs.Chunks.{fresh_tables, run_free, first_fit, fill, take_run, release_run}
use os333_iit_bombay_labs.Chunks.Invariant.{fresh-IsTiled}
use os333_iit_bombay_labs.Alloc.{
  Pool, static_pool, init_alloc, bad_size, place, alloc, free_block, freed, not_a_block,
  invalid_pointer, dealloc,
}
use os333_iit_bombay_labs.Alloc.Safety.{
  IsValid, AllocOutcome, Placed, alloc-Placed, alloc_first_fit,
}
use os333_iit_bombay_labs.Alloc.Release.{DeallocOutcome, dealloc_cases, dealloc-alloc}
use os333_iit_bombay_labs.Alloc.Blocks.{IsBlock, alloc_fresh, alloc-init_alloc}
use os333_iit_bombay_labs.Ealloc
use os333_iit_bombay_labs.Ealloc.{Page, Grow}
use os333_iit_bombay_labs.Ealloc.Pages
use mathlib.Core.Option
use os333_iit_bombay_labs.Ealloc.Correct.{Granted, PageAllocOutcome, page_alloc_cases}
use os333_iit_bombay_labs.Ealloc.Release.{PageDeallocOutcome, page_dealloc_cases}
use os333_iit_bombay_labs.Ealloc.Undo.{page_dealloc-alloc}

program : Unit {0}
unfolding init_alloc bad_size place alloc free_block dealloc run_free first_fit fill write take_run
    release_run fresh_tables
program = tt

-- The pool after `init_alloc`, with the page at 4096.
abbrev pool : Pool
pool = (init_alloc 4096 static_pool).0

pool-IsValid : IsValid pool
unfolding bad_size
pool-IsValid = (alloc-init_alloc 4096 static_pool (pos 16) (omega arith) (omega arith) refl).0

-- Two chunks at the start of the page.
abbrev one_block : Pool
one_block = record {
  mapped_page = 4096;
  tables = record { free_chunks = 0 ∷ 0 ∷ replicate 510 1; alloc_sizes = 2 ∷ replicate 511 0 };
}

alloc_16 : alloc pool (pos 16) ≡ some (one_block, 4096)
unfolding program
alloc_16 = refl

one_block-IsValid : IsValid one_block
one_block-IsValid =
    valid (alloc-Placed pool pool-IsValid (pos 16) one_block 4096 alloc_16 (omega arith))
  where
    valid :
        (bad_size (pos 16) ≡ false)
          × ((i : ℕ) × (4096 ≡ pool.mapped_page + i * 8) × Placed pool 2 i one_block)
        → IsValid one_block
    valid (_, (_, _, placed)) = placed.valid

-- The next block starts behind the first; a freed block is used again; 12 is no multiple of 8.
alloc_runs :
    (Option.map (λ r. r.1) (alloc one_block (pos 8)) ≡ some 4112)
    × (Option.map (λ r. r.1) (dealloc one_block 4096 >>= λ r. alloc r.0 (pos 8)) ≡ some 4096)
    × (alloc one_block (pos 12) ≡ some (one_block, 0))
    × (alloc one_block (negsuc 7) ≡ some (one_block, 0))
    × (alloc static_pool (pos 8) ≡ some (static_pool, 0))
unfolding program
alloc_runs = (refl, refl, refl, refl, refl)

dealloc_runs :
    (dealloc one_block 4112 ≡ some (one_block, not_a_block))
    × (dealloc one_block 4104 ≡ some (one_block, not_a_block))
    × (dealloc one_block 0 ≡ some (one_block, invalid_pointer))
    × (dealloc one_block 8192 ≡ some (one_block, invalid_pointer))
unfolding program
dealloc_runs = (refl, refl, refl, refl)

alloc_first_fit_example : AllocOutcome one_block (pos 4080)
alloc_first_fit_example = alloc_first_fit one_block one_block-IsValid (pos 4080)

alloc_fresh_example :
    (pool.mapped_page ≤ 4096)
    × (4096 + 16 ≤ pool.mapped_page + 4096)
    × ((4096 - pool.mapped_page) % 8 ≡ 0)
    × ((i : ℕ) × IsBlock one_block i 4096 16)
    × ((j q n : ℕ)
        → IsBlock pool j q n
        → IsBlock one_block j q n × ((q + n ≤ 4096) ⊎ (4096 + 16 ≤ q)))
alloc_fresh_example = alloc_fresh pool pool-IsValid (pos 16) one_block 4096 alloc_16 (omega arith)

dealloc_cases_example : DeallocOutcome one_block 4096
dealloc_cases_example = dealloc_cases one_block one_block-IsValid 4096

dealloc-alloc_example : dealloc one_block 4096 ≡ some (pool, freed)
dealloc-alloc_example =
    dealloc-alloc pool pool-IsValid (pos 16) one_block 4096 alloc_16 (omega arith)

dealloc_4096 : dealloc one_block 4096 ≡ some (pool, freed)
unfolding program
dealloc_4096 = refl

-- One page of ealloc.h at 4096, and what the C library gives for a second one.
abbrev page : Page
page = record { start = 4096; tables = fresh_tables 16 }

abbrev env : Grow
env = record { mapped = 8192; flags_given = true; sizes_given = true }

env-Granted : Granted env (page ∷ [])
env-Granted = record {
  flags = refl;
  sizes = refl;
  mapped = λ _. omega arith;
  fresh = λ _. (inl (omega arith), tt);
}

page-IsValid : Pages.IsValid (page ∷ [])
page-IsValid = record {
  few = omega arith;
  mapped = (omega arith, tt);
  apart = (tt, tt);
  tiled = (fresh-IsTiled 16, tt);
}

epool : Unit {0}
unfolding program Ealloc.bad_size Ealloc.place_in Ealloc.search_pages Ealloc.grow Ealloc.alloc
    Ealloc.free_in Ealloc.dealloc
epool = tt

abbrev taken : Page
taken = record {
  start = 4096;
  tables = record { free_chunks = 0 ∷ 0 ∷ replicate 14 1; alloc_sizes = 2 ∷ replicate 15 0 };
}

alloc_512 : Ealloc.alloc env (page ∷ []) (pos 512) ≡ some (taken ∷ [], 4096)
unfolding epool
alloc_512 = refl

-- A block of a whole page does not fit beside another: a page is mapped for it.
alloc_page : Option.map (λ r. r.1) (Ealloc.alloc env (taken ∷ []) (pos 4096)) ≡ some 8192
unfolding epool
alloc_page = refl

-- A `malloc` that fails is not noticed: the `memset` on its NULL faults.
alloc_fault : Ealloc.alloc (record env { flags_given = false }) (taken ∷ []) (pos 4096) ≡ none
unfolding epool
alloc_fault = refl

page_alloc_cases_example : PageAllocOutcome env (page ∷ []) (pos 512)
page_alloc_cases_example = page_alloc_cases env (page ∷ []) page-IsValid (pos 512) env-Granted

page_dealloc_cases_example : PageDeallocOutcome (page ∷ []) 4100
page_dealloc_cases_example = page_dealloc_cases (page ∷ []) 4100 page-IsValid.tiled

page_dealloc-alloc_example : Ealloc.dealloc (taken ∷ []) 4096 ≡ some (page ∷ [], Ealloc.freed)
page_dealloc-alloc_example =
    page_dealloc-alloc env (page ∷ []) (pos 512) (taken ∷ []) 4096 page-IsValid env-Granted
      alloc_512 (omega arith) refl
