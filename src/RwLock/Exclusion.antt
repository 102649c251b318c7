-- ===== src/RwLock/Exclusion.antt =====
-- Mutual exclusion of the locks of pthreads-sync-code/rwlock, under every interleaving.
use os333_iit_bombay_labs.Prelude.{
  ℕ, ◌<◌, ◌≡◌, refl, sym, ◌∙◌, inl, inr, Bool, true, false, some, List, [], ◌∷◌, length, get_or,
  set, ltb, arith, Bool-cases,
}
use os333_iit_bombay_labs.Threads.{tally, tally-set, tally-replicate}
use os333_iit_bombay_labs.RwLock.{
  Lock, Place, outside, initalize_read_write_lock, reader_section, writer_section, System, Thread,
  reader, writer, start, step, run,
}
use os333_iit_bombay_labs.RwLock.Sections.{
  is_inside, is_waiting, active, writer_section_lem, reader_section_lem,
}

-- The counts of the lock are those of the threads, and a writer inside is alone.
pub record IsValid (s : System) : Type 0 where
  pub readers_inside : tally is_inside s.readers_at ≡ s.lock.readers
  pub writers_waiting : tally is_waiting s.writers_at ≡ s.lock.writers_waiting
  pub writers_inside : tally is_inside s.writers_at ≡ active s.lock
  pub alone : s.lock.writer_active ≡ true → s.lock.readers ≡ 0

pub start-IsValid : (n m : ℕ) → IsValid (start n m)
unfolding start initalize_read_write_lock
start-IsValid n m = record {
  readers_inside = tally-replicate is_inside n outside refl;
  writers_waiting = tally-replicate is_waiting m outside refl;
  writers_inside = tally-replicate is_inside m outside refl;
  alone = λ h. refl;
}

module _ (must_wait : Lock → Bool)
    (sound : (l : Lock) → must_wait l ≡ false → l.writer_active ≡ false) where
  pub reader-IsValid :
      (s : System) (i : ℕ)
      → IsValid s
      → i < length s.readers_at
      → (r : Lock × Place) × (reader_section must_wait (get_or s.readers_at i outside) s.lock
          ≡ some r)
        × IsValid (record s { lock = r.0; readers_at = set s.readers_at i r.1 })
  reader-IsValid s i v less =
      let p = get_or s.readers_at i outside in
      let (r, e, m) = reader_section_lem must_wait sound p s.lock v.alone (
        omega (arith, v.readers_inside, tally-set outside is_inside s.readers_at i outside less)) in
      (
        r,
        e,
        record {
          readers_inside = omega (
            arith,
            v.readers_inside,
            m.readers_kept,
            tally-set outside is_inside s.readers_at i r.1 less,
          );
          writers_waiting = v.writers_waiting ∙ sym m.same_waiting;
          writers_inside = rw (m.same_active) v.writers_inside;
          alone = m.alone;
        },
      )

  pub writer-IsValid :
      (s : System) (i : ℕ)
      → IsValid s
      → i < length s.writers_at
      → (r : Lock × Place) × (writer_section (get_or s.writers_at i outside) s.lock ≡ some r)
        × IsValid (record s { lock = r.0; writers_at = set s.writers_at i r.1 })
  writer-IsValid s i v less =
      let p = get_or s.writers_at i outside in
      let (r, e, m) =
        writer_section_lem p s.lock v.alone
          (omega
            (arith, v.writers_waiting, tally-set outside is_waiting s.writers_at i outside less))
          (omega
            (arith, v.writers_inside, tally-set outside is_inside s.writers_at i outside less)) in
      (
        r,
        e,
        record {
          readers_inside = v.readers_inside ∙ sym m.same_readers;
          writers_waiting = omega (
            arith,
            v.writers_waiting,
            m.waiting_kept,
            tally-set outside is_waiting s.writers_at i r.1 less,
          );
          writers_inside = omega (
            arith,
            v.writers_inside,
            m.active_kept,
            tally-set outside is_inside s.writers_at i r.1 less,
          );
          alone = m.alone;
        },
      )

  step-IsValid :
      (s : System) (t : Thread)
      → IsValid s
      → (s' : System) × (step must_wait s t ≡ some s') × IsValid s'
  unfolding step
  step-IsValid s (reader i) v = elim (Bool-cases (ltb i (length s.readers_at))) [
    | inl here ↦
        let (r, e, v') = reader-IsValid s i v (ground arith) in
        (record s { lock = r.0; readers_at = set s.readers_at i r.1 }, rw (here, e) refl, v')
    | inr gone ↦ (s, rw (gone) refl, v)
  ]
  step-IsValid s (writer i) v = elim (Bool-cases (ltb i (length s.writers_at))) [
    | inl here ↦
        let (r, e, v') = writer-IsValid s i v (ground arith) in
        (record s { lock = r.0; writers_at = set s.writers_at i r.1 }, rw (here, e) refl, v')
    | inr gone ↦ (s, rw (gone) refl, v)
  ]

  pub run-IsValid :
      (ts : List Thread) (s : System)
      → IsValid s
      → (s' : System) × (run must_wait s ts ≡ some s') × IsValid s'
  unfolding run
  run-IsValid [] s v = (s, refl, v)
  run-IsValid (t ∷ ts) s v =
      let (s1, e1, v1) = step-IsValid s t v in
      let (s2, e2, v2) = run-IsValid ts s1 v1 in (s2, rw (e1) e2, v2)
