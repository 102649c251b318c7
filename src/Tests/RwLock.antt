-- ===== src/Tests/RwLock.antt =====
-- Interleavings of the locks of pthreads-sync-code/rwlock.
use os333_iit_bombay_labs.Prelude.{◌≤◌, ◌≡◌, refl, false, some, List, [], ◌∷◌, arith}
use os333_iit_bombay_labs.Threads.{tally}
use os333_iit_bombay_labs.RwLock.{
  outside, waiting, inside, initalize_read_write_lock, writer_pref, reader_pref, reader_lock,
  reader_unlock, writer_enter, writer_lock, writer_unlock, reader_section, writer_section, System,
  Thread, reader, writer, start, step, run,
}
use os333_iit_bombay_labs.RwLock.Sections.{is_inside}
use os333_iit_bombay_labs.RwLock.Preference.{
  IsExclusive, writer_pref_exclusion, reader_pref_exclusion, waiting_writer_first,
}

program : Unit {0}
unfolding initalize_read_write_lock reader_lock reader_unlock writer_enter writer_lock writer_unlock
    reader_section writer_section start step run
program = tt

-- A reader is inside, and a writer waits for it.
abbrev reader_then_writer : List Thread
reader_then_writer = reader 0 ∷ writer 0 ∷ []

abbrev writer_waits : System
writer_waits = record {
  lock = record { readers = 1; writers_waiting = 1; writer_active = false };
  readers_at = inside ∷ outside ∷ [];
  writers_at = waiting ∷ outside ∷ [];
}

writer_pref_reached : run writer_pref (start 2 2) reader_then_writer ≡ some writer_waits
unfolding program
writer_pref_reached = refl

reader_pref_reached : run reader_pref (start 2 2) reader_then_writer ≡ some writer_waits
unfolding program
reader_pref_reached = refl

abbrev reader_waits : System
reader_waits = record writer_waits { readers_at = inside ∷ waiting ∷ [] }

next_reader : step writer_pref writer_waits (reader 1) ≡ some reader_waits
unfolding program
next_reader = refl

-- Three readers and writers, with a writer that gets in after the reader has left.
abbrev handover : List Thread
handover =
    reader 0
    ∷ writer 0
    ∷ reader 1
    ∷ writer 1
    ∷ reader 0
    ∷ writer 0
    ∷ writer 1
    ∷ reader 1
    ∷ writer 0
    ∷ []

writer_pref_exclusion_example :
    (s : System) × (run writer_pref (start 2 2) handover ≡ some s) × IsExclusive s
writer_pref_exclusion_example = writer_pref_exclusion 2 2 handover

reader_pref_exclusion_example :
    (s : System) × (run reader_pref (start 2 2) handover ≡ some s) × IsExclusive s
reader_pref_exclusion_example = reader_pref_exclusion 2 2 handover

waiting_writer_first_example :
    tally is_inside reader_waits.readers_at ≤ tally is_inside writer_waits.readers_at
waiting_writer_first_example =
    waiting_writer_first 2 2 reader_then_writer writer_waits 1 writer_pref_reached (omega arith)
      reader_waits next_reader
