-- ===== src/RwLock/Trial/Moves.antt =====
-- Every step of the test programs of pthreads-sync-code/rwlock keeps the notes of the writers right.
use mathlib.Core.Option
use mathlib.Core.Path.{subst}
use os333_iit_bombay_labs.Prelude.{
  ℕ, ◌+◌, ◌<◌, ◌≡◌, ◌≢◌, sym, ap, ◌∙◌, Bool, false, some, List, length, get_or, set, arith,
  get_or-set_self, get_or-set_ne, set_same, length-set, length-map, map-set, get_or-map, ℕ_discrete,
}
use os333_iit_bombay_labs.RwLock.{Lock, Place, outside, inside, reader_section, writer_section}
use os333_iit_bombay_labs.RwLock.Sections.{is_inside}
use os333_iit_bombay_labs.RwLock.Exclusion.{IsValid, reader-IsValid, writer-IsValid}
use os333_iit_bombay_labs.RwLock.Trial.{Stage, gone, place_of, Trial}
use os333_iit_bombay_labs.RwLock.Trial.Notes.{
  places, project, Noted, IsFair, unminded, no_other_writer, no_writer,
}

module _ (must_wait : Lock → Bool)
    (sound : (l : Lock) → must_wait l ≡ false → l.writer_active ≡ false) (s : Trial) (f : IsFair s)
    (i : ℕ) where
  -- No section of the lock fails.
  pub reader_ran :
      (less : i < length s.readers_at) (st : Stage)
      → get_or s.readers_at i gone ≡ st
      → (r : Lock × Place) × (reader_section must_wait (place_of st) s.rwlock ≡ some r)
  reader_ran less st e =
      let (r, ran, v) =
        reader-IsValid must_wait sound (project s) i f.valid
          (omega (arith, length-map place_of s.readers_at)) in
      (
        r,
        ap (λ p. reader_section must_wait p s.rwlock)
              (sym (get_or-map place_of s.readers_at i gone ∙ ap place_of e))
            ∙ ran,
      )

  pub writer_ran :
      (less : i < length s.writers_at) (st : Stage)
      → get_or s.writers_at i gone ≡ st
      → (r : Lock × Place) × (writer_section (place_of st) s.rwlock ≡ some r)
  writer_ran less st e =
      let (r, ran, v) =
        writer-IsValid must_wait sound (project s) i f.valid
          (omega (arith, length-map place_of s.writers_at)) in
      (
        r,
        ap (λ p. writer_section p s.rwlock)
              (sym (get_or-map place_of s.writers_at i gone ∙ ap place_of e))
            ∙ ran,
      )

  -- A reader takes the lock, waits for it, or gives it back.
  pub reader_locked :
      (less : i < length s.readers_at) (st : Stage)
      → get_or s.readers_at i gone ≡ st
      → (r : Lock × Place) (st' : Stage) → reader_section must_wait (place_of st) s.rwlock ≡ some r
      → place_of st' ≡ r.1
      → IsFair (record s { rwlock = r.0; readers_at = set s.readers_at i st' })
  reader_locked less st e r st' ran at =
      let n = length-map place_of s.readers_at in
      let (r0, e0, v0) = reader-IsValid must_wait sound (project s) i f.valid (omega (arith, n)) in
      let here : get_or (places s.readers_at) i outside ≡ place_of st =
        get_or-map place_of s.readers_at i gone ∙ ap place_of e in
      let same : r0 ≡ r =
        Option.some-injective r0 r
          (sym e0 ∙ ap (λ p. reader_section must_wait p s.rwlock) here ∙ ran) in
      let v1 : IsValid (record {
        lock = r.0;
        readers_at = set (places s.readers_at) i r.1;
        writers_at = places s.writers_at;
      }) =
        subst
          (λ (q : Lock × Place). IsValid (record {
            lock = q.0;
            readers_at = set (places s.readers_at) i q.1;
            writers_at = places s.writers_at;
          }))
          same v0 in
      let path : set (places s.readers_at) i r.1 ≡ places (set s.readers_at i st') =
        ap (set (places s.readers_at) i) (sym at) ∙ sym (map-set place_of s.readers_at i st') in
      record {
        valid =
            subst
              (λ (ps : List Place).
                IsValid (record { lock = r.0; readers_at = ps; writers_at = places s.writers_at }))
              path v1;
        ra_length = f.ra_length ∙ sym (length-set s.readers_at i st');
        rr_length = f.rr_length ∙ sym (length-set s.readers_at i st');
        wa_length = f.wa_length;
        wr_length = f.wr_length;
        notes = f.notes;
      }

  -- A writer takes the lock, waits for it, or gives it back.
  pub writer_locked :
      (less : i < length s.writers_at) (st : Stage)
      → get_or s.writers_at i gone ≡ st
      → (r : Lock × Place) (st' : Stage) → writer_section (place_of st) s.rwlock ≡ some r
      → place_of st' ≡ r.1
      → Noted s.index st' (get_or s.writer_acquire_time i 0) (get_or s.writer_release_time i 0)
      → IsFair (record s { rwlock = r.0; writers_at = set s.writers_at i st' })
  writer_locked less st e r st' ran at note =
      let n = length-map place_of s.writers_at in
      let (r0, e0, v0) = writer-IsValid must_wait sound (project s) i f.valid (omega (arith, n)) in
      let here : get_or (places s.writers_at) i outside ≡ place_of st =
        get_or-map place_of s.writers_at i gone ∙ ap place_of e in
      let same : r0 ≡ r =
        Option.some-injective r0 r (sym e0 ∙ ap (λ p. writer_section p s.rwlock) here ∙ ran) in
      let v1 : IsValid (record {
        lock = r.0;
        readers_at = places s.readers_at;
        writers_at = set (places s.writers_at) i r.1;
      }) =
        subst
          (λ (q : Lock × Place). IsValid (record {
            lock = q.0;
            readers_at = places s.readers_at;
            writers_at = set (places s.writers_at) i q.1;
          }))
          same v0 in
      let path : set (places s.writers_at) i r.1 ≡ places (set s.writers_at i st') =
        ap (set (places s.writers_at) i) (sym at) ∙ sym (map-set place_of s.writers_at i st') in
      record {
        valid =
            subst
              (λ (ps : List Place).
                IsValid (record { lock = r.0; readers_at = places s.readers_at; writers_at = ps }))
              path v1;
        ra_length = f.ra_length;
        rr_length = f.rr_length;
        wa_length = f.wa_length ∙ sym (length-set s.writers_at i st');
        wr_length = f.wr_length ∙ sym (length-set s.writers_at i st');
        notes = λ j h. elim (ℕ_discrete i j) [
          | yes eq ↦
              subst
                (λ k.
                  Noted s.index (get_or (set s.writers_at i st') k gone)
                    (get_or s.writer_acquire_time k 0) (get_or s.writer_release_time k 0))
                eq (rw (get_or-set_self s.writers_at i st' gone less) note)
          | no ne ↦
              rw (get_or-set_ne s.writers_at i j st' gone ne)
                (f.notes j (omega (arith, h, length-set s.writers_at i st')))
        ];
      }

  -- A reader that has the lock makes a note.
  pub reader_noted :
      (less : i < length s.readers_at) (st' : Stage) (ra rr : List ℕ)
      → place_of (get_or s.readers_at i gone) ≡ inside
      → place_of st' ≡ inside
      → length ra ≡ length s.reader_acquire_time
      → length rr ≡ length s.reader_release_time
      → IsFair (record s {
        index = s.index + 1;
        reader_acquire_time = ra;
        reader_release_time = rr;
        readers_at = set s.readers_at i st';
      })
  reader_noted less st' ra rr e e' m n =
      let here : get_or (places s.readers_at) i outside ≡ inside =
        get_or-map place_of s.readers_at i gone ∙ e in
      let path : places s.readers_at ≡ places (set s.readers_at i st') = sym (
        map-set place_of s.readers_at i st'
        ∙ ap (set (places s.readers_at) i) e'
        ∙ set_same (places s.readers_at) i inside outside
            (omega (arith, length-map place_of s.readers_at)) here) in
      record {
        valid =
            subst
              (λ (ps : List Place).
                IsValid
                  (record { lock = s.rwlock; readers_at = ps; writers_at = places s.writers_at }))
              path f.valid;
        ra_length = m ∙ f.ra_length ∙ sym (length-set s.readers_at i st');
        rr_length = n ∙ f.rr_length ∙ sym (length-set s.readers_at i st');
        wa_length = f.wa_length;
        wr_length = f.wr_length;
        notes = λ j h.
            unminded (get_or s.writers_at j gone) s.index (s.index + 1) _ _
              (no_writer s f.valid i j less h (ap is_inside e)) (f.notes j h);
      }

  -- A writer that has the lock makes a note.
  pub writer-Noted :
      (less : i < length s.writers_at) (st' : Stage) (wa wr : List ℕ)
      → place_of (get_or s.writers_at i gone) ≡ inside
      → place_of st' ≡ inside
      → length wa ≡ length s.writer_acquire_time
      → length wr ≡ length s.writer_release_time
      → ((j : ℕ)
          → i ≢ j
          → (get_or wa j 0 ≡ get_or s.writer_acquire_time j 0)
            × (get_or wr j 0 ≡ get_or s.writer_release_time j 0))
      → Noted (s.index + 1) st' (get_or wa i 0) (get_or wr i 0)
      → IsFair (record s {
        index = s.index + 1;
        writer_acquire_time = wa;
        writer_release_time = wr;
        writers_at = set s.writers_at i st';
      })
  writer-Noted less st' wa wr e e' m n kept note =
      let here : get_or (places s.writers_at) i outside ≡ inside =
        get_or-map place_of s.writers_at i gone ∙ e in
      let path : places s.writers_at ≡ places (set s.writers_at i st') = sym (
        map-set place_of s.writers_at i st'
        ∙ ap (set (places s.writers_at) i) e'
        ∙ set_same (places s.writers_at) i inside outside
            (omega (arith, length-map place_of s.writers_at)) here) in
      record {
        valid =
            subst
              (λ (ps : List Place).
                IsValid
                  (record { lock = s.rwlock; readers_at = places s.readers_at; writers_at = ps }))
              path f.valid;
        ra_length = f.ra_length;
        rr_length = f.rr_length;
        wa_length = m ∙ f.wa_length ∙ sym (length-set s.writers_at i st');
        wr_length = n ∙ f.wr_length ∙ sym (length-set s.writers_at i st');
        notes = λ j h. elim (ℕ_discrete i j) [
          | yes eq ↦
              subst
                (λ k.
                  Noted (s.index + 1) (get_or (set s.writers_at i st') k gone) (get_or wa k 0)
                    (get_or wr k 0))
                eq (rw (get_or-set_self s.writers_at i st' gone less) note)
          | no ne ↦
              let k : j < length s.writers_at = omega (arith, h, length-set s.writers_at i st') in
              rw (get_or-set_ne s.writers_at i j st' gone ne, (kept j ne).0, (kept j ne).1)
                (unminded (get_or s.writers_at j gone) s.index (s.index + 1) _ _
                  (no_other_writer s f.valid i j less k ne (ap is_inside e)) (f.notes j k))
        ];
      }
