-- ===== src/RwLock/Trial/Steps.antt =====
-- One step of a thread of the test programs of pthreads-sync-code/rwlock.
use mathlib.Core.Option
use os333_iit_bombay_labs.Prelude.{
  ℕ, ◌+◌, ◌-◌, ◌<◌, ◌≡◌, inl, inr, refl, sym, ap, ◌∙◌, Bool, false, some, length, get_or, set, ◌==◌,
  arith, Bool-cases, get_or-set_self, get_or-set_ne, length-set, write-some,
}
use os333_iit_bombay_labs.RwLock.{
  Lock, Place, outside, waiting, inside, reader_lock, reader_unlock, writer_unlock, reader_section,
  writer_section,
}
use os333_iit_bombay_labs.RwLock.Trial.{
  Stage, coming, in_lock, holding, acquired, released, gone, place_of, entered, Trial, run_reader,
  run_writer,
}
use os333_iit_bombay_labs.RwLock.Trial.Notes.{Noted, IsFair}
use os333_iit_bombay_labs.RwLock.Trial.Moves.{
  reader_ran, writer_ran, reader_locked, writer_locked, reader_noted, writer-Noted,
}

entered_place : (p : Place) → place_of (entered p) ≡ p
entered_place outside = refl
entered_place waiting = refl
entered_place inside = refl

entered_note : (index : ℕ) (p : Place) (a r : ℕ) → Noted index (entered p) a r
entered_note index outside a r = tt
entered_note index waiting a r = tt
entered_note index inside a r = tt

unlocked_place : (l : Lock) (r : Lock × Place) → reader_unlock l ≡ some r → r.1 ≡ outside
unfolding reader_unlock
unlocked_place l r e = elim (Bool-cases (l.readers == 0)) [
  | inl empty ↦ absurd (Option.none-ne-some r (rw (empty) at e))
  | inr some_reader ↦
      ap (λ (q : Lock × Place). q.1)
        (sym (
          Option.some-injective (record l { readers = l.readers - 1 }, outside) r
            (rw (some_reader) at e)))
]

place_after : (l : Lock) → outside ≡ (writer_unlock l).1
unfolding writer_unlock
place_after l = refl

module _ (must_wait : Lock → Bool)
    (sound : (l : Lock) → must_wait l ≡ false → l.writer_active ≡ false) where
  module _ (s : Trial) (f : IsFair s) (i : ℕ) where
    pub step_reader :
        (less : i < length s.readers_at) (st : Stage)
        → get_or s.readers_at i gone ≡ st
        → (s' : Trial) × (run_reader must_wait i s ≡ some s') × IsFair s'
    unfolding run_reader reader_section
    step_reader less coming e =
        let r = reader_lock must_wait s.rwlock in
        (
          record s { rwlock = r.0; readers_at = set s.readers_at i (entered r.1) },
          rw (e, run_reader) refl,
          reader_locked must_wait sound s f i less coming e r (entered r.1) refl
              (entered_place r.1),
        )
    step_reader less in_lock e =
        let r = reader_lock must_wait s.rwlock in
        (
          record s { rwlock = r.0; readers_at = set s.readers_at i (entered r.1) },
          rw (e, run_reader) refl,
          reader_locked must_wait sound s f i less in_lock e r (entered r.1) refl
              (entered_place r.1),
        )
    step_reader less holding e =
        let times = set s.reader_acquire_time i s.index in
        (
          record s {
            reader_acquire_time = times;
            index = s.index + 1;
            readers_at = set s.readers_at i acquired;
          },
          rw
              (
                e,
                run_reader,
                write-some s.reader_acquire_time i s.index (omega (arith, f.ra_length)),
              )
              refl,
          reader_noted must_wait sound s f i less acquired times s.reader_release_time
              (ap place_of e) refl (length-set s.reader_acquire_time i s.index) refl,
        )
    step_reader less acquired e =
        let times = set s.reader_release_time i s.index in
        (
          record s {
            reader_release_time = times;
            index = s.index + 1;
            readers_at = set s.readers_at i released;
          },
          rw
              (
                e,
                run_reader,
                write-some s.reader_release_time i s.index (omega (arith, f.rr_length)),
              )
              refl,
          reader_noted must_wait sound s f i less released s.reader_acquire_time times
              (ap place_of e) refl refl (length-set s.reader_release_time i s.index),
        )
    step_reader less released e =
        let (r, ran) = reader_ran must_wait sound s f i less released e in
        (
          record s { rwlock = r.0; readers_at = set s.readers_at i gone },
          rw (e, run_reader, ran) refl,
          reader_locked must_wait sound s f i less released e r gone ran
              (sym (unlocked_place s.rwlock r ran)),
        )
    step_reader less gone e = (s, rw (e, run_reader) refl, f)

    pub step_writer :
        (less : i < length s.writers_at) (st : Stage)
        → get_or s.writers_at i gone ≡ st
        → (s' : Trial) × (run_writer i s ≡ some s') × IsFair s'
    unfolding run_writer writer_section
    step_writer less coming e =
        let (r, ran) = writer_ran must_wait sound s f i less coming e in
        (
          record s { rwlock = r.0; writers_at = set s.writers_at i (entered r.1) },
          rw (e, run_writer, ran) refl,
          writer_locked must_wait sound s f i less coming e r (entered r.1) ran (entered_place r.1)
              (entered_note s.index r.1 (get_or s.writer_acquire_time i 0)
                (get_or s.writer_release_time i 0)),
        )
    step_writer less in_lock e =
        let (r, ran) = writer_ran must_wait sound s f i less in_lock e in
        (
          record s { rwlock = r.0; writers_at = set s.writers_at i (entered r.1) },
          rw (e, run_writer, ran) refl,
          writer_locked must_wait sound s f i less in_lock e r (entered r.1) ran (entered_place r.1)
              (entered_note s.index r.1 (get_or s.writer_acquire_time i 0)
                (get_or s.writer_release_time i 0)),
        )
    step_writer less holding e =
        let times = set s.writer_acquire_time i s.index in
        let inside_array : i < length s.writer_acquire_time = omega (arith, f.wa_length) in
        (
          record s {
            writer_acquire_time = times;
            index = s.index + 1;
            writers_at = set s.writers_at i acquired;
          },
          rw (e, run_writer, write-some s.writer_acquire_time i s.index inside_array) refl,
          writer-Noted must_wait sound s f i less acquired times s.writer_release_time
              (ap place_of e) refl (length-set s.writer_acquire_time i s.index) refl
              (λ j ne. (get_or-set_ne s.writer_acquire_time i j s.index 0 ne, refl))
              (ap (λ k. k + 1)
                (sym (get_or-set_self s.writer_acquire_time i s.index 0 inside_array))),
        )
    step_writer less acquired e =
        let times = set s.writer_release_time i s.index in
        let inside_array : i < length s.writer_release_time = omega (arith, f.wr_length) in
        let now : s.index ≡ get_or s.writer_acquire_time i 0 + 1 = rw (e) at (f.notes i less) in
        (
          record s {
            writer_release_time = times;
            index = s.index + 1;
            writers_at = set s.writers_at i released;
          },
          rw (e, run_writer, write-some s.writer_release_time i s.index inside_array) refl,
          writer-Noted must_wait sound s f i less released s.writer_acquire_time times
              (ap place_of e) refl refl (length-set s.writer_release_time i s.index)
              (λ j ne. (refl, get_or-set_ne s.writer_release_time i j s.index 0 ne))
              (get_or-set_self s.writer_release_time i s.index 0 inside_array ∙ now),
        )
    step_writer less released e = (
      record s { rwlock = (writer_unlock s.rwlock).0; writers_at = set s.writers_at i gone },
      rw (e, run_writer) refl,
      writer_locked must_wait sound s f i less released e (writer_unlock s.rwlock) gone refl
          (place_after s.rwlock) (rw (e) at (f.notes i less)),
    )
    step_writer less gone e = (s, rw (e, run_writer) refl, f)
