-- ===== src/RwLock/Wakes/Progress.antt =====
-- No deadlock in the locks of pthreads-sync-code/rwlock: while a thread waits, some thread can go on.
use os333_iit_bombay_labs.Prelude.{
  ℕ, ◌+◌, ◌<◌, ◌≡◌, ◌⊎◌, refl, inl, inr, some, List, [], ◌∷◌, length, get_or, set, ltb, arith,
  Bool-cases, dec_lt,
}
use os333_iit_bombay_labs.Threads.{tally, tally-replicate}
use os333_iit_bombay_labs.RwLock.{initalize_read_write_lock, reader_lock, writer_lock}
use os333_iit_bombay_labs.RwLock.Wakes.{
  Spot, outside, asleep, woken, inside, spot_of, Policy, writers_first, readers_first, Group, start,
  reader_at, writer_at, Choice, reader, writer, step, run,
}
use os333_iit_bombay_labs.RwLock.Wakes.Counts.{is_inside, is_asleep, is_woken}
use os333_iit_bombay_labs.RwLock.Wakes.Sound.{IsSound, writers_first-IsSound, readers_first-IsSound}
use os333_iit_bombay_labs.RwLock.Wakes.Invariant.{IsValid, Stays, reader_tests, reader_leaves}
use os333_iit_bombay_labs.RwLock.Wakes.Writers.{writer_tests, writer_leaves}

module _ (policy : Policy) (sound : IsSound policy) where
  reader-Stays :
      (s : Group) (i k : ℕ) (p : Spot)
      → IsValid policy s
      → i < length s.readers_at
      → get_or s.readers_at i outside ≡ p
      → Stays policy (reader_at policy i k s p)
  unfolding reader_at
  reader-Stays s i k asleep v less e = (s, refl, v)
  reader-Stays s i k inside v less e = reader_leaves policy sound s i k v less e
  reader-Stays s i k outside v less e = (
    record s {
      lock = (reader_lock policy.must_wait s.lock).0;
      readers_at = set s.readers_at i (spot_of (reader_lock policy.must_wait s.lock).1);
    },
    refl,
    reader_tests policy sound s i outside v less e refl,
  )
  reader-Stays s i k woken v less e = (
    record s {
      lock = (reader_lock policy.must_wait s.lock).0;
      readers_at = set s.readers_at i (spot_of (reader_lock policy.must_wait s.lock).1);
    },
    refl,
    reader_tests policy sound s i woken v less e refl,
  )

  writer-Stays :
      (s : Group) (i k : ℕ) (p : Spot)
      → IsValid policy s
      → i < length s.writers_at
      → get_or s.writers_at i outside ≡ p
      → Stays policy (writer_at policy i k s p)
  unfolding writer_at writer_lock
  writer-Stays s i k asleep v less e = (s, refl, v)
  writer-Stays s i k inside v less e = writer_leaves policy sound s i k v less e
  writer-Stays s i k outside v less e =
      writer_tests policy sound s (record s.lock { writers_waiting = s.lock.writers_waiting + 1 }) i
        outside v less e (refl, refl) refl refl (omega arith) (sound.one_more s.lock)
  writer-Stays s i k woken v less e =
      writer_tests policy sound s s.lock i woken v less e (refl, refl) refl refl refl (λ h. h)

  step-Stays : (s : Group) (t : Choice) → IsValid policy s → Stays policy (step policy s t)
  unfolding step
  step-Stays s (reader i k) v = elim (Bool-cases (ltb i (length s.readers_at))) [
    | inl here ↦
        rw (here) (reader-Stays s i k (get_or s.readers_at i outside) v (ground arith) refl)
    | inr gone ↦ (s, rw (gone) refl, v)
  ]
  step-Stays s (writer i k) v = elim (Bool-cases (ltb i (length s.writers_at))) [
    | inl here ↦
        rw (here) (writer-Stays s i k (get_or s.writers_at i outside) v (ground arith) refl)
    | inr gone ↦ (s, rw (gone) refl, v)
  ]

  run-Stays : (ts : List Choice) (s : Group) → IsValid policy s → Stays policy (run policy s ts)
  unfolding run
  run-Stays [] s v = (s, refl, v)
  run-Stays (t ∷ ts) s v =
      let (s1, e1, v1) = step-Stays s t v in
      let (s2, e2, v2) = run-Stays ts s1 v1 in (s2, rw (e1) e2, v2)

  start-IsValid : (n m : ℕ) → IsValid policy (start n m)
  unfolding start initalize_read_write_lock
  start-IsValid n m = record {
    readers_inside = tally-replicate is_inside n outside refl;
    writers_waiting =
        omega (
          arith,
          tally-replicate is_asleep m outside refl,
          tally-replicate is_woken m outside refl,
        );
    writers_inside = tally-replicate is_inside m outside refl;
    alone = inl refl;
    writer_next = inl (tally-replicate is_asleep m outside refl);
    reader_kept = inl (tally-replicate is_asleep n outside refl);
  }

  awake_lem :
      (s : Group)
      → IsValid policy s
      → 0 < tally is_asleep s.readers_at + tally is_asleep s.writers_at
      → 0
        < tally is_inside s.readers_at + tally is_inside s.writers_at + tally is_woken s.writers_at
  awake_lem s v some_asleep = elim v.writer_next [
    | inr going ↦ omega (arith, going, v.readers_inside, v.writers_inside)
    | inl no_writer ↦ elim v.reader_kept [
      | inl no_reader ↦ absurd (omega (arith, no_writer, no_reader))
      | inr must ↦ elim (sound.for_writer s.lock must) [
        | inl writing ↦ ground (arith, writing, v.writers_inside)
        | inr some_waiting ↦ omega (arith, some_waiting, v.writers_waiting, no_writer)
      ]
    ]
  ]

-- Nobody is asleep, or a thread is inside or has been woken.
abbrev pub GoesOn : Group → Type 0
GoesOn s =
    (tally is_asleep s.readers_at + tally is_asleep s.writers_at ≡ 0)
    ⊎ (0
        < tally is_inside s.readers_at + tally is_inside s.writers_at + tally is_woken s.writers_at)

run-GoesOn :
    (policy : Policy)
    → IsSound policy
    → (n m : ℕ) (ts : List Choice) → (s : Group) × (run policy (start n m) ts ≡ some s) × GoesOn s
run-GoesOn policy sound n m ts =
    let (s, e, v) = run-Stays policy sound ts (start n m) (start-IsValid policy sound n m) in
    (
      s,
      e,
      elim (dec_lt 0 (tally is_asleep s.readers_at + tally is_asleep s.writers_at)) [
        | yes some_asleep ↦ inr (awake_lem policy sound s v some_asleep)
        | no nobody ↦ inl (omega arith)
      ],
    )

-- With the lock of rwlock-writer-pref.cpp and with that of rwlock-reader-pref.cpp, after every schedule of readers and
-- writers that lock and unlock in turn and whose waits end only by the signals of the lock, no count has gone below 0,
-- and no thread waits unless some thread is inside or a writer has been woken.
pub no_deadlock :
    (num_readers num_writers : ℕ) (ts : List Choice)
    → ((s : Group) × (run writers_first (start num_readers num_writers) ts ≡ some s) × GoesOn s)
      × ((s : Group) × (run readers_first (start num_readers num_writers) ts ≡ some s) × GoesOn s)
no_deadlock n m ts = (
  run-GoesOn writers_first writers_first-IsSound n m ts,
  run-GoesOn readers_first readers_first-IsSound n m ts,
)
