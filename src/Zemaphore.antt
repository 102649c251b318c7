-- ===== src/Zemaphore.antt =====
-- pthreads-sync-code/zemaphore/zemaphore.c: a semaphore made of a mutex and a condition variable.
pub mod Toggle
pub mod Rendezvous
use os333_iit_bombay_labs.Prelude.{ℕ, Bool, true, false, if◌then◌else◌}
use os333_iit_bombay_labs.Prelude.Int.{ℤ, incr, decr, not_positive}

-- struct zemaphore, without its mutex and condition variable.
pub record Zemaphore : Type 0 where
  pub count : ℤ

unfoldable pub zem_init : ℤ → Zemaphore
zem_init value = record { count = value }

-- How `zem_down` leaves the mutex for the first time: it has passed, or it waits.
pub data Entry : Type 0 where
  passed waits : Zemaphore → Entry

-- `zem_down` up to its wait, or up to its end where it does not wait.
unfoldable pub zem_down : Zemaphore → Entry
zem_down z = if not_positive z.count then waits z else passed (record { count = decr z.count })

-- `zem_down` from the end of its wait on. The count is not tested again.
unfoldable pub zem_resume : Zemaphore → Zemaphore
zem_resume z = record { count = decr z.count }

-- `zem_up`, which also signals one thread that waits.
unfoldable pub zem_up : Zemaphore → Zemaphore
zem_up z = record { count = incr z.count }
