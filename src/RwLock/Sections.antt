-- ===== src/RwLock/Sections.antt =====
-- The critical sections of the locks of pthreads-sync-code/rwlock, by what they do to the counts.
use os333_iit_bombay_labs.Prelude.{
  ℕ, ◌+◌, ◌-◌, ◌≤◌, ◌<◌, ◌≡◌, refl, inl, inr, Bool, true, false, ◌||◌, some, ltb, ◌==◌,
  if◌then◌else◌, arith, Bool-cases,
}
use os333_iit_bombay_labs.RwLock.{
  Lock, Place, outside, waiting, inside, reader_lock, reader_unlock, writer_enter, writer_lock,
  writer_unlock, reader_section, writer_section,
}

abbrev pub is_inside : Place → ℕ
is_inside outside = 0
is_inside waiting = 0
is_inside inside = 1

abbrev pub is_waiting : Place → ℕ
is_waiting outside = 0
is_waiting waiting = 1
is_waiting inside = 0

abbrev pub active : Lock → ℕ
active l = if l.writer_active then 1 else 0

-- What a critical section of a reader does to the counts.
pub record ReaderMove (p : Place) (l : Lock) (r : Lock × Place) : Type 0 where
  pub readers_kept : r.0.readers + is_inside p ≡ l.readers + is_inside r.1
  pub same_waiting : r.0.writers_waiting ≡ l.writers_waiting
  pub same_active : r.0.writer_active ≡ l.writer_active
  pub alone : r.0.writer_active ≡ true → r.0.readers ≡ 0

-- What a critical section of a writer does to the counts.
pub record WriterMove (p : Place) (l : Lock) (r : Lock × Place) : Type 0 where
  pub same_readers : r.0.readers ≡ l.readers
  pub waiting_kept : r.0.writers_waiting + is_waiting p ≡ l.writers_waiting + is_waiting r.1
  pub active_kept : active r.0 + is_inside p ≡ active l + is_inside r.1
  pub alone : r.0.writer_active ≡ true → r.0.readers ≡ 0

writer_enter_lem :
    (l : Lock)
    → (l.writer_active ≡ true → l.readers ≡ 0)
    → 0 < l.writers_waiting
    → (r : Lock × Place) × (writer_enter l ≡ some r) × WriterMove waiting l r
unfolding writer_enter
writer_enter_lem l h some_waiting =
    let counted : (l.writers_waiting == 0) ≡ false = ground arith in
    elim (Bool-cases (l.writer_active || ltb 0 l.readers)) [
      | inl busy ↦ (
        (l, waiting),
        rw (busy) refl,
        record { same_readers = refl; waiting_kept = refl; active_kept = refl; alone = h },
      )
      | inr free ↦ (
        (record l { writers_waiting = l.writers_waiting - 1; writer_active = true }, inside),
        rw (free, counted) refl,
        record {
          same_readers = refl;
          waiting_kept = omega arith;
          active_kept = ground (arith, free);
          alone = λ e. ground (arith, free);
        },
      )
    ]

pub writer_section_lem :
    (p : Place) (l : Lock)
    → (l.writer_active ≡ true → l.readers ≡ 0)
    → is_waiting p ≤ l.writers_waiting
    → is_inside p ≤ active l
    → (r : Lock × Place) × (writer_section p l ≡ some r) × WriterMove p l r
unfolding writer_section writer_lock writer_unlock
writer_section_lem outside l h w a =
    let (r, e, m) =
      writer_enter_lem (record l { writers_waiting = l.writers_waiting + 1 }) h (omega arith) in
    (
      r,
      e,
      record {
        same_readers = m.same_readers;
        waiting_kept = omega (arith, m.waiting_kept);
        active_kept = m.active_kept;
        alone = m.alone;
      },
    )
writer_section_lem waiting l h w a = writer_enter_lem l h (omega arith)
writer_section_lem inside l h w a = (
  (record l { writer_active = false }, outside),
  refl,
  record {
    same_readers = refl;
    waiting_kept = refl;
    active_kept = ground arith;
    alone = λ e. ground arith;
  },
)

module _ (must_wait : Lock → Bool)
    (sound : (l : Lock) → must_wait l ≡ false → l.writer_active ≡ false) where
  reader_lock_lem :
      (p : Place) (l : Lock)
      → is_inside p ≡ 0
      → (l.writer_active ≡ true → l.readers ≡ 0)
      → ReaderMove p l (reader_lock must_wait l)
  unfolding reader_lock
  reader_lock_lem p l o h = elim (Bool-cases (must_wait l)) [
    | inl busy ↦ rw (busy) (record {
      readers_kept = omega (arith, o);
      same_waiting = refl;
      same_active = refl;
      alone = h;
    })
    | inr free ↦
        let idle = sound l free in
        rw (free) (record {
          readers_kept = omega (arith, o);
          same_waiting = refl;
          same_active = refl;
          alone = λ e. ground (arith, idle);
        })
  ]

  pub reader_section_lem :
      (p : Place) (l : Lock)
      → (l.writer_active ≡ true → l.readers ≡ 0)
      → is_inside p ≤ l.readers
      → (r : Lock × Place) × (reader_section must_wait p l ≡ some r) × ReaderMove p l r
  unfolding reader_section reader_unlock
  reader_section_lem outside l h i =
      (reader_lock must_wait l, refl, reader_lock_lem outside l refl h)
  reader_section_lem waiting l h i =
      (reader_lock must_wait l, refl, reader_lock_lem waiting l refl h)
  reader_section_lem inside l h i =
      let some_reader : (l.readers == 0) ≡ false = ground arith in
      (
        (record l { readers = l.readers - 1 }, outside),
        rw (some_reader) refl,
        record {
          readers_kept = omega arith;
          same_waiting = refl;
          same_active = refl;
          alone = λ e. omega (arith, h e);
        },
      )
