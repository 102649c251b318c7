-- ===== src/Tests/Trial.antt =====
-- Schedules of the test programs of pthreads-sync-code/rwlock.
use os333_iit_bombay_labs.Prelude.{◌≡◌, ◌≢◌, ◌⊎◌, refl, false, some, List, [], ◌∷◌, ◌++◌, write}
use mathlib.Core.Option
use os333_iit_bombay_labs.RwLock.{
  initalize_read_write_lock, reader_lock, reader_unlock, writer_enter, writer_lock, writer_unlock,
  Thread, reader, writer, writer_pref,
}
use os333_iit_bombay_labs.RwLock.Trial.{
  Trial, start, run_reader, run_writer, run, writers_alone, writer_pref_verdict,
  reader_pref_verdict, passed, not_alone, out_of_order, prefer_writers, must_wait_of, verdict_of,
}
use os333_iit_bombay_labs.RwLock.Trial.Alone.{all_gone, writers_never_share}

program : Unit {0}
unfolding write initalize_read_write_lock reader_lock reader_unlock writer_enter writer_lock
    writer_unlock start run_reader run_writer run writers_alone writer_pref_verdict
    reader_pref_verdict
program = tt

abbrev thrice : Thread → List Thread
thrice t = t ∷ t ∷ t ∷ t ∷ []

-- The writer comes while the first reader has the lock, and before the second.
abbrev in_turn : List Thread
in_turn =
    reader 0 ∷ writer 0 ∷ reader 1 ∷ (thrice (reader 0) ++ (thrice (writer 0) ++ thrice (reader 1)))

in_turn_verdict :
    Option.map
      (λ (s : Trial). writer_pref_verdict 1 1 s)
      (run writer_pref in_turn (start 1 1 (7 ∷ 7 ∷ []) (7 ∷ 7 ∷ []) (7 ∷ []) (7 ∷ [])))
    ≡ some passed
unfolding program
in_turn_verdict = refl

-- A second reader that is scheduled before the writer makes the test fail, although the lock is right.
early_reader_verdict :
    Option.map
      (λ (s : Trial). writer_pref_verdict 1 1 s)
      (run writer_pref
        (thrice (reader 0) ++ (thrice (reader 1) ++ thrice (writer 0)))
        (start 1 1 (7 ∷ 7 ∷ []) (7 ∷ 7 ∷ []) (7 ∷ []) (7 ∷ [])))
    ≡ some out_of_order
unfolding program
early_reader_verdict = refl

writers_never_share_example :
    (s : Trial) × (run
        (must_wait_of prefer_writers)
        in_turn
        (start 1 1 (7 ∷ 7 ∷ []) (7 ∷ 7 ∷ []) (7 ∷ []) (7 ∷ []))
      ≡ some s)
    × ((all_gone s.writers_at ≡ false) ⊎ (verdict_of prefer_writers 1 1 s ≢ not_alone))
writers_never_share_example =
    writers_never_share prefer_writers 1 1 (7 ∷ 7 ∷ []) (7 ∷ 7 ∷ []) (7 ∷ []) (7 ∷ []) in_turn refl
      refl refl refl
