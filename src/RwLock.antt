-- ===== src/RwLock.antt =====
-- pthreads-sync-code/rwlock: rwlock-writer-pref.cpp and rwlock-reader-pref.cpp, which differ in when a reader
-- waits and in whom WriterUnlock wakes. A wait may end at any time, which covers each wake.
pub mod Sections
pub mod Exclusion
pub mod Preference
pub mod Trial
pub mod Wakes
use os333_iit_bombay_labs.Prelude.{
  ℕ, ◌+◌, ◌-◌, Bool, true, false, ◌||◌, Option, none, some, List, [], ◌∷◌, length, get_or, set,
  replicate, ltb, ◌==◌, if◌then◌else◌, ◌>>=◌,
}

-- struct read_write_lock, without its mutex and condition variables.
pub record Lock : Type 0 where
  pub readers : ℕ
  pub writers_waiting : ℕ
  pub writer_active : Bool

-- A thread has not called its lock function, waits in it, or has come back from it.
pub data Place : Type 0 where
  outside waiting inside : Place

unfoldable pub initalize_read_write_lock : Lock
initalize_read_write_lock = record { readers = 0; writers_waiting = 0; writer_active = false }

-- The condition of the `while` in ReaderLock of rwlock-writer-pref.cpp.
abbrev pub writer_pref : Lock → Bool
writer_pref l = l.writer_active || ltb 0 l.writers_waiting

-- The condition of the `while` in ReaderLock of rwlock-reader-pref.cpp.
abbrev pub reader_pref : Lock → Bool
reader_pref l = l.writer_active

-- ReaderLock, from the test of its `while` on.
unfoldable pub reader_lock : (Lock → Bool) → Lock → Lock × Place
reader_lock must_wait l =
    if must_wait l then (l, waiting) else (record l { readers = l.readers + 1 }, inside)

-- `none` is a count of readers below 0.
unfoldable pub reader_unlock : Lock → Option (Lock × Place)
reader_unlock l =
    if l.readers == 0 then none else some (record l { readers = l.readers - 1 }, outside)

-- WriterLock, from the test of its `while` on. `none` is a count of waiting writers below 0.
unfoldable pub writer_enter : Lock → Option (Lock × Place)
writer_enter l =
    let enter : Option (Lock × Place) =
      if l.writers_waiting == 0
      then none
      else some
          (record l { writers_waiting = l.writers_waiting - 1; writer_active = true }, inside) in
    if l.writer_active || ltb 0 l.readers then some (l, waiting) else enter

unfoldable pub writer_lock : Lock → Option (Lock × Place)
writer_lock l = writer_enter (record l { writers_waiting = l.writers_waiting + 1 })

unfoldable pub writer_unlock : Lock → Lock × Place
writer_unlock l = (record l { writer_active = false }, outside)

-- The next critical section of a reader, which locks and unlocks in turn.
unfoldable pub reader_section : (Lock → Bool) → Place → Lock → Option (Lock × Place)
reader_section must_wait outside l = some (reader_lock must_wait l)
reader_section must_wait waiting l = some (reader_lock must_wait l)
reader_section must_wait inside l = reader_unlock l

unfoldable pub writer_section : Place → Lock → Option (Lock × Place)
writer_section outside l = writer_lock l
writer_section waiting l = writer_enter l
writer_section inside l = some (writer_unlock l)

-- The lock, and where its readers and writers are.
pub record System : Type 0 where
  pub lock : Lock
  pub readers_at : List Place
  pub writers_at : List Place

pub data Thread : Type 0 where
  reader writer : ℕ → Thread

unfoldable pub start : ℕ → ℕ → System
start num_readers num_writers = record {
  lock = initalize_read_write_lock;
  readers_at = replicate num_readers outside;
  writers_at = replicate num_writers outside;
}

unfoldable pub step : (Lock → Bool) → System → Thread → Option System
step must_wait s (reader i) =
    let next : Option System =
      reader_section must_wait (get_or s.readers_at i outside) s.lock >>= λ (lock', p).
      some (record s { lock = lock'; readers_at = set s.readers_at i p }) in
    if ltb i (length s.readers_at) then next else some s
step must_wait s (writer i) =
    let next : Option System =
      writer_section (get_or s.writers_at i outside) s.lock >>= λ (lock', p).
      some (record s { lock = lock'; writers_at = set s.writers_at i p }) in
    if ltb i (length s.writers_at) then next else some s

unfoldable pub run : (Lock → Bool) → System → List Thread → Option System
run must_wait s [] = some s
run must_wait s (t ∷ ts) = step must_wait s t >>= λ s'. run must_wait s' ts
