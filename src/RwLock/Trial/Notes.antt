-- ===== src/RwLock/Trial/Notes.antt =====
-- What the threads of the test programs of pthreads-sync-code/rwlock note while they have the lock.
use os333_iit_bombay_labs.Prelude.{
  ℕ, ◌+◌, ◌≤◌, ◌<◌, ◌≡◌, ◌≢◌, ap, List, length, get_or, map, arith, length-map, get_or-map,
}
use os333_iit_bombay_labs.Threads.{tally_ge, tally_two}
use os333_iit_bombay_labs.RwLock.{Lock, Place, outside, System}
use os333_iit_bombay_labs.RwLock.Sections.{is_inside, active}
use os333_iit_bombay_labs.RwLock.Exclusion.{IsValid}
use os333_iit_bombay_labs.RwLock.Trial.{
  Stage, coming, in_lock, holding, acquired, released, gone, place_of, Trial,
}

abbrev pub places : List Stage → List Place
places = map place_of

-- The lock and its threads, without the notes.
abbrev pub project : Trial → System
project s = record {
  lock = s.rwlock;
  readers_at = places s.readers_at;
  writers_at = places s.writers_at;
}

-- What the counter and the notes of a writer say, by where it is.
abbrev pub Noted : ℕ → Stage → ℕ → ℕ → Type 0
Noted index coming a r = Unit
Noted index in_lock a r = Unit
Noted index holding a r = Unit
Noted index acquired a r = index ≡ a + 1
Noted index released a r = r ≡ a + 1
Noted index gone a r = r ≡ a + 1

abbrev pub NotedAt : Trial → ℕ → Type 0
NotedAt s i =
    i < length s.writers_at
    → Noted s.index (get_or s.writers_at i gone) (get_or s.writer_acquire_time i 0)
        (get_or s.writer_release_time i 0)

pub record IsFair (s : Trial) : Type 0 where
  pub valid : IsValid (project s)
  pub ra_length : length s.reader_acquire_time ≡ length s.readers_at
  pub rr_length : length s.reader_release_time ≡ length s.readers_at
  pub wa_length : length s.writer_acquire_time ≡ length s.writers_at
  pub wr_length : length s.writer_release_time ≡ length s.writers_at
  pub notes : (i : ℕ) → NotedAt s i

-- A writer that is not inside does not mind the counter.
pub unminded :
    (st : Stage) (index index' a r : ℕ)
    → is_inside (place_of st) ≡ 0
    → Noted index st a r
    → Noted index' st a r
unminded coming index index' a r out n = tt
unminded in_lock index index' a r out n = tt
unminded holding index index' a r out n = tt
unminded acquired index index' a r out n = absurd (omega (arith, out))
unminded released index index' a r out n = n
unminded gone index index' a r out n = n

module _ (s : Trial) (v : IsValid (project s)) where
  writer_place :
      (i : ℕ) → get_or (places s.writers_at) i outside ≡ place_of (get_or s.writers_at i gone)
  writer_place i = get_or-map place_of s.writers_at i gone

  reader_place :
      (i : ℕ) → get_or (places s.readers_at) i outside ≡ place_of (get_or s.readers_at i gone)
  reader_place i = get_or-map place_of s.readers_at i gone

  active_le : (l : Lock) → active l ≤ 1
  active_le l = ground arith

  -- While a writer is inside, no other writer is.
  pub no_other_writer :
      (i j : ℕ)
      → i < length s.writers_at
      → j < length s.writers_at
      → i ≢ j
      → is_inside (place_of (get_or s.writers_at i gone)) ≡ 1
      → is_inside (place_of (get_or s.writers_at j gone)) ≡ 0
  no_other_writer i j h k ne here =
      let n = length-map place_of s.writers_at in
      omega (
        arith,
        tally_two outside is_inside (places s.writers_at) i j (omega (arith, n)) (omega (arith, n))
            ne,
        v.writers_inside,
        active_le s.rwlock,
        here,
        ap is_inside (writer_place i),
        ap is_inside (writer_place j),
      )

  -- While a reader is inside, no writer is.
  pub no_writer :
      (i j : ℕ)
      → i < length s.readers_at
      → j < length s.writers_at
      → is_inside (place_of (get_or s.readers_at i gone)) ≡ 1
      → is_inside (place_of (get_or s.writers_at j gone)) ≡ 0
  no_writer i j h k here =
      let n = length-map place_of s.readers_at in
      let m = length-map place_of s.writers_at in
      let some_reader : 0 < s.rwlock.readers = omega (
        arith,
        tally_ge outside is_inside (places s.readers_at) i (omega (arith, n)),
        v.readers_inside,
        here,
        ap is_inside (reader_place i),
      ) in
      let idle : active s.rwlock ≡ 0 = ground (arith, v.alone, some_reader) in
      omega (
        arith,
        tally_ge outside is_inside (places s.writers_at) j (omega (arith, m)),
        v.writers_inside,
        idle,
        ap is_inside (writer_place j),
      )
