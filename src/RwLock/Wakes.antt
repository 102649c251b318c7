-- ===== src/RwLock/Wakes.antt =====
-- pthreads-sync-code/rwlock with the signals of both locks: a thread that waits goes on only when it is woken.
pub mod Counts
pub mod Sound
pub mod Invariant
pub mod Writers
pub mod Progress
use os333_iit_bombay_labs.Prelude.{
  ℕ, zero, suc, ◌+◌, Bool, true, false, not, Option, none, some, List, [], ◌∷◌, length, map, get_or,
  set, replicate, ltb, ◌==◌, if◌then◌else◌, ◌>>=◌,
}
use os333_iit_bombay_labs.RwLock.{
  Lock, Place, initalize_read_write_lock, writer_pref, reader_pref, reader_lock, reader_unlock,
  writer_enter, writer_lock, writer_unlock,
}

-- A thread has not called its lock function, waits in it, has been woken, or has come back from it.
pub data Spot : Type 0 where
  outside asleep woken inside : Spot

abbrev pub spot_of : Place → Spot
spot_of Place.outside = outside
spot_of Place.waiting = asleep
spot_of Place.inside = inside

-- What the two locks differ in: when a reader waits, and whom WriterUnlock wakes.
pub record Policy : Type 0 where
  pub must_wait : Lock → Bool
  pub wakes_writer : Lock → Bool
  pub wakes_readers : Lock → Bool

-- rwlock-writer-pref.cpp
abbrev pub writers_first : Policy
writers_first = record {
  must_wait = writer_pref;
  wakes_writer = λ l. ltb 0 l.writers_waiting;
  wakes_readers = λ l. not (ltb 0 l.writers_waiting);
}

-- rwlock-reader-pref.cpp
abbrev pub readers_first : Policy
readers_first = record {
  must_wait = reader_pref;
  wakes_writer = λ l. l.readers == 0;
  wakes_readers = λ l. true;
}

pub record Group : Type 0 where
  pub lock : Lock
  pub readers_at : List Spot
  pub writers_at : List Spot

unfoldable pub start : ℕ → ℕ → Group
start num_readers num_writers = record {
  lock = initalize_read_write_lock;
  readers_at = replicate num_readers outside;
  writers_at = replicate num_writers outside;
}

abbrev pub rouse : Spot → Spot
rouse asleep = woken
rouse p = p

abbrev pub wake_first : List Spot → List Spot
wake_first [] = []
wake_first (outside ∷ ps) = outside ∷ wake_first ps
wake_first (asleep ∷ ps) = woken ∷ ps
wake_first (woken ∷ ps) = woken ∷ wake_first ps
wake_first (inside ∷ ps) = inside ∷ wake_first ps

-- `pthread_cond_signal` wakes a thread that waits, if one does: thread `k`, or the first.
unfoldable pub signal : ℕ → List Spot → List Spot
signal k ps = elim (get_or ps k outside) [ asleep ↦ set ps k woken | _ ↦ wake_first ps ]

-- The next critical section of reader `i`, which is at that spot. `k` is for the signal.
unfoldable pub reader_at : Policy → ℕ → ℕ → Group → Spot → Option Group
reader_at policy i k s asleep = some s
reader_at policy i k s inside = reader_unlock s.lock >>= λ (l, p). some (record {
  lock = l;
  readers_at = set s.readers_at i outside;
  writers_at = if l.readers == 0 then signal k s.writers_at else s.writers_at;
})
reader_at policy i k s p =
    let (l, q) = reader_lock policy.must_wait s.lock in
    some (record s { lock = l; readers_at = set s.readers_at i (spot_of q) })

abbrev pub store_writer : ℕ → Group → Lock × Place → Option Group
store_writer i s (l, p) = some (record s { lock = l; writers_at = set s.writers_at i (spot_of p) })

unfoldable pub writer_at : Policy → ℕ → ℕ → Group → Spot → Option Group
writer_at policy i k s asleep = some s
writer_at policy i k s outside = writer_lock s.lock >>= store_writer i s
writer_at policy i k s woken = writer_enter s.lock >>= store_writer i s
writer_at policy i k s inside =
    let l = (writer_unlock s.lock).0 in
    let others = set s.writers_at i outside in
    some (record {
      lock = l;
      readers_at = if policy.wakes_readers l then map rouse s.readers_at else s.readers_at;
      writers_at = if policy.wakes_writer l then signal k others else others;
    })

-- The scheduler's choice: who runs next, and whom its signal wakes.
pub data Choice : Type 0 where
  reader writer : ℕ → ℕ → Choice

unfoldable pub step : Policy → Group → Choice → Option Group
step policy s (reader i k) =
    if ltb i (length s.readers_at)
    then reader_at policy i k s (get_or s.readers_at i outside)
    else some s
step policy s (writer i k) =
    if ltb i (length s.writers_at)
    then writer_at policy i k s (get_or s.writers_at i outside)
    else some s

unfoldable pub run : Policy → Group → List Choice → Option Group
run policy s [] = some s
run policy s (t ∷ ts) = step policy s t >>= λ s'. run policy s' ts
