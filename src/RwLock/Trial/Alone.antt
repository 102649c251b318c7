-- ===== src/RwLock/Trial/Alone.antt =====
-- The last test of the test programs of pthreads-sync-code/rwlock cannot fail: no note is made between the two
-- of a writer.
use os333_iit_bombay_labs.RwLock
use mathlib.Core.Path.{subst}
use os333_iit_bombay_labs.Prelude.{
  ℕ, suc, ◌+◌, ◌*◌, ◌<◌, ◌≡◌, ◌≢◌, ◌⊎◌, inl, inr, refl, sym, ◌∙◌, Bool, true, false, some, List, [],
  ◌∷◌, length, get_or, replicate, arith, Bool-cases, map-replicate, length-replicate, dec_lt,
  get_or-replicate, get_or_beyond,
}
use os333_iit_bombay_labs.RwLock.{
  Lock, Place, outside, waiting, inside, reader_lock, reader_unlock, writer_enter, writer_lock,
  writer_unlock, reader_section, writer_section, System, Thread, reader, writer,
}
use os333_iit_bombay_labs.RwLock.Exclusion.{IsValid, start-IsValid}
use os333_iit_bombay_labs.RwLock.Trial.{
  Stage, coming, in_lock, holding, acquired, released, gone, place_of, Trial, start, run_reader,
  run_writer, run,
}
use os333_iit_bombay_labs.RwLock.Trial.Notes.{project, Noted, IsFair}
use os333_iit_bombay_labs.RwLock.Preference.{writer_pref_sound}
use os333_iit_bombay_labs.RwLock.{writer_pref, reader_pref}
use os333_iit_bombay_labs.RwLock.Trial.{
  not_alone, writers_alone, writer_pref_verdict, reader_pref_verdict, Policy, prefer_writers,
  prefer_readers, must_wait_of, verdict_of,
}
use os333_iit_bombay_labs.RwLock.Trial.Steps.{step_reader, step_writer}

coming_at : (m i : ℕ) → i < m → get_or (replicate m coming) i gone ≡ coming
coming_at m i h = ground (arith, get_or-replicate m i coming gone)

start-IsFair :
    (n m : ℕ) (ra rr wa wr : List ℕ)
    → length ra ≡ 2 * n
    → length rr ≡ 2 * n
    → length wa ≡ m
    → length wr ≡ m
    → IsFair (start n m ra rr wa wr)
unfolding start RwLock.start
start-IsFair n m ra rr wa wr a b c d = record {
  valid =
      subst
        (λ (ps : List Place).
          IsValid (record (project (start n m ra rr wa wr)) { readers_at = ps }))
        (sym (map-replicate place_of (2 * n) coming))
        (subst (λ (ps : List Place). IsValid (record (RwLock.start (2 * n) m) { writers_at = ps }))
          (sym (map-replicate place_of m coming)) (start-IsValid (2 * n) m));
  ra_length = a ∙ sym (length-replicate (2 * n) coming);
  rr_length = b ∙ sym (length-replicate (2 * n) coming);
  wa_length = c ∙ sym (length-replicate m coming);
  wr_length = d ∙ sym (length-replicate m coming);
  notes = λ i h. rw (coming_at m i (omega (arith, h, length-replicate m coming))) tt;
}

module _ (must_wait : Lock → Bool)
    (sound : (l : Lock) → must_wait l ≡ false → l.writer_active ≡ false) where
  next_reader :
      (i : ℕ) (s : Trial)
      → IsFair s
      → (s' : Trial) × (run_reader must_wait i s ≡ some s') × IsFair s'
  unfolding run_reader
  next_reader i s f = elim (dec_lt i (length s.readers_at)) [
    | yes less ↦ step_reader must_wait sound s f i less (get_or s.readers_at i gone) refl
    | no beyond ↦ (s, rw (get_or_beyond s.readers_at i gone (omega arith), run_reader) refl, f)
  ]

  next_writer :
      (i : ℕ) (s : Trial) → IsFair s → (s' : Trial) × (run_writer i s ≡ some s') × IsFair s'
  unfolding run_writer
  next_writer i s f = elim (dec_lt i (length s.writers_at)) [
    | yes less ↦ step_writer must_wait sound s f i less (get_or s.writers_at i gone) refl
    | no beyond ↦ (s, rw (get_or_beyond s.writers_at i gone (omega arith), run_writer) refl, f)
  ]

  run-IsFair :
      (ts : List Thread) (s : Trial)
      → IsFair s
      → (s' : Trial) × (run must_wait ts s ≡ some s') × IsFair s'
  unfolding run
  run-IsFair [] s f = (s, refl, f)
  run-IsFair (reader i ∷ ts) s f =
      let (s1, e1, f1) = next_reader i s f in
      let (s2, e2, f2) = run-IsFair ts s1 f1 in (s2, rw (e1) e2, f2)
  run-IsFair (writer i ∷ ts) s f =
      let (s1, e1, f1) = next_writer i s f in
      let (s2, e2, f2) = run-IsFair ts s1 f1 in (s2, rw (e1) e2, f2)

-- Whether every writer has given the lock back.
abbrev pub all_gone : List Stage → Bool
all_gone [] = true
all_gone (gone ∷ stages) = all_gone stages
all_gone (_ ∷ stages) = false

sound_of : (policy : Policy) (l : Lock) → must_wait_of policy l ≡ false → l.writer_active ≡ false
sound_of prefer_writers l h = writer_pref_sound l h
sound_of prefer_readers l h = h

writers_alone_lem :
    (ps : List Stage) (wa wr : List ℕ) (index : ℕ)
    → length wa ≡ length ps
    → length wr ≡ length ps
    → all_gone ps ≡ true
    → ((i : ℕ) → i < length ps → Noted index (get_or ps i gone) (get_or wa i 0) (get_or wr i 0))
    → writers_alone wa wr ≡ true
unfolding writers_alone
writers_alone_lem [] [] wr index m n all note = refl
writers_alone_lem [] (a ∷ wa) wr index m n all note = absurd (omega arith)
writers_alone_lem (p ∷ ps) [] wr index m n all note = absurd (omega arith)
writers_alone_lem (p ∷ ps) (a ∷ wa) [] index m n all note = absurd (omega arith)
writers_alone_lem (gone ∷ ps) (a ∷ wa) (r ∷ wr) index m n all note =
    let rest =
      writers_alone_lem ps wa wr index (omega arith) (omega arith) all
        (λ i h. note (suc i) (omega arith)) in
    let first : r ≡ a + 1 = note 0 (omega arith) in ground (arith, rest, first)
writers_alone_lem (coming ∷ ps) (a ∷ wa) (r ∷ wr) index m n all note = cc
writers_alone_lem (in_lock ∷ ps) (a ∷ wa) (r ∷ wr) index m n all note = cc
writers_alone_lem (holding ∷ ps) (a ∷ wa) (r ∷ wr) index m n all note = cc
writers_alone_lem (acquired ∷ ps) (a ∷ wa) (r ∷ wr) index m n all note = cc
writers_alone_lem (released ∷ ps) (a ∷ wa) (r ∷ wr) index m n all note = cc

not_refused :
    (policy : Policy) (n m : ℕ) (s : Trial)
    → writers_alone s.writer_acquire_time s.writer_release_time ≡ true
    → verdict_of policy n m s ≢ not_alone
unfolding writer_pref_verdict reader_pref_verdict
not_refused prefer_writers n m s h = ground (arith, h)
not_refused prefer_readers n m s h = ground (arith, h)

-- With either lock, and arrays of the lengths that `main` gives them, its test program writes only inside them
-- under any schedule; and once all writers have given the lock back, `main` does not report that somebody shared the
-- lock with a writer.
pub writers_never_share :
    (policy : Policy) (n m : ℕ) (ra rr wa wr : List ℕ) (ts : List Thread)
    → length ra ≡ 2 * n
    → length rr ≡ 2 * n
    → length wa ≡ m
    → length wr ≡ m
    → (s : Trial) × (run (must_wait_of policy) ts (start n m ra rr wa wr) ≡ some s)
      × ((all_gone s.writers_at ≡ false) ⊎ (verdict_of policy n m s ≢ not_alone))
writers_never_share policy n m ra rr wa wr ts a b c d =
    let (s, e, f) =
      run-IsFair (must_wait_of policy) (sound_of policy) ts (start n m ra rr wa wr)
        (start-IsFair n m ra rr wa wr a b c d) in
    (
      s,
      e,
      elim (Bool-cases (all_gone s.writers_at)) [
        | inl all ↦ inr (
            not_refused policy n m s (
              writers_alone_lem s.writers_at s.writer_acquire_time s.writer_release_time s.index
                f.wa_length f.wr_length all f.notes))
        | inr some_left ↦ inl some_left
      ],
    )
