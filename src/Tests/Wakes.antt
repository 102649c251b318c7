-- ===== src/Tests/Wakes.antt =====
-- The signals of the locks of pthreads-sync-code/rwlock on a short schedule.
use os333_iit_bombay_labs.Prelude.{◌≡◌, refl, some, List, [], ◌∷◌, ◌>>=◌}
use os333_iit_bombay_labs.RwLock.{
  initalize_read_write_lock, reader_lock, reader_unlock, writer_enter, writer_lock, writer_unlock,
}
use os333_iit_bombay_labs.RwLock.Wakes.{
  outside, asleep, writers_first, readers_first, Group, start, signal, reader_at, writer_at, Choice,
  reader, writer, step, run,
}
use os333_iit_bombay_labs.RwLock.Wakes.Progress.{GoesOn, no_deadlock}

-- A reader is inside, a writer waits, a second reader comes, and the first one leaves.
abbrev crossing : List Choice
crossing = reader 0 0 ∷ writer 0 0 ∷ reader 1 0 ∷ reader 0 0 ∷ []

-- Where writers come first the second reader waits too; the writer is woken.
crossing-run :
    (run writers_first (start 2 1) crossing >>= λ (s : Group). some s.readers_at)
    ≡ some (outside ∷ asleep ∷ [])
unfolding initalize_read_write_lock reader_lock reader_unlock writer_enter writer_lock writer_unlock
    start signal reader_at writer_at step run
crossing-run = refl

no_deadlock_example :
    ((s : Group) × (run writers_first (start 2 1) crossing ≡ some s) × GoesOn s)
    × ((s : Group) × (run readers_first (start 2 1) crossing ≡ some s) × GoesOn s)
no_deadlock_example = no_deadlock 2 1 crossing
