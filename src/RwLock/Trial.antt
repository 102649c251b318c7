-- ===== src/RwLock/Trial.antt =====
-- pthreads-sync-code/rwlock/test-writer-pref.cpp and test-reader-pref.cpp: readers and writers that take the lock once
-- and note, by a shared counter, when they had it, and what `main` makes of the notes. `none` is a
-- write outside an array.
pub mod Notes
pub mod Moves
pub mod Steps
pub mod Alone
use os333_iit_bombay_labs.Prelude.{
  ℕ, ◌+◌, ◌*◌, Bool, true, false, ◌&&◌, Option, none, some, List, [], ◌∷◌, length, get_or, set,
  replicate, take, drop, write, ltb, ◌==◌, if◌then◌else◌, ◌>>=◌,
}
use os333_iit_bombay_labs.RwLock.{
  Lock, Place, outside, waiting, inside, initalize_read_write_lock, reader_lock, reader_unlock,
  writer_enter, writer_lock, writer_unlock, Thread, reader, writer, writer_pref, reader_pref,
}

-- A thread is in front of its lock function, waits in it, has the lock, has noted that it has it, has
-- noted that it gives it back, or has given it back.
pub data Stage : Type 0 where
  coming in_lock holding acquired released gone : Stage

-- What the lock sees of a thread.
abbrev pub place_of : Stage → Place
place_of coming = outside
place_of in_lock = waiting
place_of holding = inside
place_of acquired = inside
place_of released = inside
place_of gone = outside

-- Where a thread is after its lock function, or in it.
abbrev pub entered : Place → Stage
entered outside = coming
entered waiting = in_lock
entered inside = holding

-- The globals, and the threads.
pub record Trial : Type 0 where
  pub rwlock : Lock
  pub index : ℕ
  pub reader_acquire_time : List ℕ
  pub reader_release_time : List ℕ
  pub writer_acquire_time : List ℕ
  pub writer_release_time : List ℕ
  pub readers_at : List Stage
  pub writers_at : List Stage

-- `main` up to the creation of the threads: twice as many readers as asked for, and arrays of any content.
unfoldable pub start : ℕ → ℕ → List ℕ → List ℕ → List ℕ → List ℕ → Trial
start read_num_threads write_num_threads ra rr wa wr = record {
  rwlock = initalize_read_write_lock;
  index = 0;
  reader_acquire_time = ra;
  reader_release_time = rr;
  writer_acquire_time = wa;
  writer_release_time = wr;
  readers_at = replicate (2 * read_num_threads) coming;
  writers_at = replicate write_num_threads coming;
}

abbrev lock_reader : (Lock → Bool) → ℕ → Trial → Trial
lock_reader must_wait i s =
    let (l, p) = reader_lock must_wait s.rwlock in
    record s { rwlock = l; readers_at = set s.readers_at i (entered p) }

-- The next step of `Reader`.
unfoldable pub run_reader : (Lock → Bool) → ℕ → Trial → Option Trial
run_reader must_wait i s = elim (get_or s.readers_at i gone) [
  | coming ↦ some (lock_reader must_wait i s)
  | in_lock ↦ some (lock_reader must_wait i s)
  | holding ↦ write s.reader_acquire_time i s.index >>= λ times. some (record s {
    reader_acquire_time = times;
    index = s.index + 1;
    readers_at = set s.readers_at i acquired;
  })
  | acquired ↦ write s.reader_release_time i s.index >>= λ times. some (record s {
    reader_release_time = times;
    index = s.index + 1;
    readers_at = set s.readers_at i released;
  })
  | released ↦ reader_unlock s.rwlock >>= λ (l, p).
      some (record s { rwlock = l; readers_at = set s.readers_at i gone })
  | gone ↦ some s
]

abbrev lock_writer : Option (Lock × Place) → ℕ → Trial → Option Trial
lock_writer result i s =
    result >>= λ (l, p). some (record s { rwlock = l; writers_at = set s.writers_at i (entered p) })

-- The next step of `Writer`.
unfoldable pub run_writer : ℕ → Trial → Option Trial
run_writer i s = elim (get_or s.writers_at i gone) [
  | coming ↦ lock_writer (writer_lock s.rwlock) i s
  | in_lock ↦ lock_writer (writer_enter s.rwlock) i s
  | holding ↦ write s.writer_acquire_time i s.index >>= λ times. some (record s {
    writer_acquire_time = times;
    index = s.index + 1;
    writers_at = set s.writers_at i acquired;
  })
  | acquired ↦ write s.writer_release_time i s.index >>= λ times. some (record s {
    writer_release_time = times;
    index = s.index + 1;
    writers_at = set s.writers_at i released;
  })
  | released ↦
      some (record s { rwlock = (writer_unlock s.rwlock).0; writers_at = set s.writers_at i gone })
  | gone ↦ some s
]

unfoldable pub run : (Lock → Bool) → List Thread → Trial → Option Trial
run must_wait [] s = some s
run must_wait (reader i ∷ ts) s = run_reader must_wait i s >>= run must_wait ts
run must_wait (writer i ∷ ts) s = run_writer i s >>= run must_wait ts

-- `max_element` and `min_element`, of arrays that are not empty where `main` uses the result.
abbrev pub max_element : List ℕ → ℕ
max_element [] = 0
max_element (x ∷ xs) = let m = max_element xs in if ltb m x then x else m

abbrev pub min_element : List ℕ → ℕ
min_element [] = 0
min_element (x ∷ []) = x
min_element (x ∷ y ∷ xs) = let m = min_element (y ∷ xs) in if ltb m x then m else x

-- The last loop of `main`: each writer has released right after it acquired.
unfoldable pub writers_alone : List ℕ → List ℕ → Bool
writers_alone [] _ = true
writers_alone (a ∷ earlier) [] = false
writers_alone (a ∷ earlier) (r ∷ rs) = r == a + 1 && writers_alone earlier rs

-- What `main` prints.
pub data Verdict : Type 0 where
  reader_waited out_of_order not_alone passed : Verdict

abbrev last_test : Trial → Verdict
last_test s =
    if writers_alone s.writer_acquire_time s.writer_release_time then passed else not_alone

-- The tests of test-writer-pref.cpp.
unfoldable pub writer_pref_verdict : ℕ → ℕ → Trial → Verdict
writer_pref_verdict read_num_threads write_num_threads s =
    let acquire_second = drop read_num_threads s.reader_acquire_time in
    let release_second = drop read_num_threads s.reader_release_time in
    if ltb 0 read_num_threads && ltb (min_element release_second) (max_element acquire_second)
    then reader_waited
    else if ltb 0 read_num_threads
        && ltb 0 write_num_threads
        && ltb (min_element acquire_second) (max_element s.writer_release_time)
    then out_of_order
    else last_test s

-- The tests of test-reader-pref.cpp.
unfoldable pub reader_pref_verdict : ℕ → ℕ → Trial → Verdict
reader_pref_verdict read_num_threads write_num_threads s =
    if ltb 0 read_num_threads
      && ltb (min_element s.reader_release_time) (max_element s.reader_acquire_time)
    then reader_waited
    else if ltb 0 read_num_threads
        && ltb 0 write_num_threads
        && ltb (min_element s.writer_acquire_time) (max_element s.reader_release_time)
    then out_of_order
    else last_test s

-- Which of the two locks, each with its test program.
pub data Policy : Type 0 where
  prefer_writers prefer_readers : Policy

abbrev pub must_wait_of : Policy → Lock → Bool
must_wait_of prefer_writers = writer_pref
must_wait_of prefer_readers = reader_pref

abbrev pub verdict_of : Policy → ℕ → ℕ → Trial → Verdict
verdict_of prefer_writers = writer_pref_verdict
verdict_of prefer_readers = reader_pref_verdict
