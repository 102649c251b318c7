-- ===== src/RwLock/Preference.antt =====
-- What the two locks of pthreads-sync-code/rwlock promise: exclusion, and whom each prefers.
use mathlib.Core.Option
use mathlib.Core.Path.{subst}
use os333_iit_bombay_labs.Prelude.{
  ℕ, ◌+◌, ◌≤◌, ◌<◌, ◌≡◌, ◌⊎◌, Option-cases, refl, sym, ◌∙◌, ap, inl, inr, Bool, true, false, some,
  List, length, get_or, set, ltb, arith, Bool-cases, ◌≢◌, get_or-set,
}
use os333_iit_bombay_labs.Threads.{tally, tally-set}
use os333_iit_bombay_labs.RwLock.{
  Lock, Place, outside, waiting, inside, writer_pref, reader_pref, reader_lock, reader_unlock,
  reader_section, System, Thread, reader, start, step, run,
}
use os333_iit_bombay_labs.RwLock.Sections.{is_inside, is_waiting}
use os333_iit_bombay_labs.RwLock.Exclusion.{IsValid, start-IsValid, run-IsValid}

-- At most one writer is inside, and no reader with it.
abbrev pub IsExclusive : System → Type 0
IsExclusive s =
    (tally is_inside s.writers_at ≤ 1)
    × ((tally is_inside s.writers_at ≡ 0) ⊎ (tally is_inside s.readers_at ≡ 0))

pub writer_pref_sound : (l : Lock) → writer_pref l ≡ false → l.writer_active ≡ false
writer_pref_sound l h = ground (arith, h)

valid-IsExclusive : (s : System) → IsValid s → IsExclusive s
valid-IsExclusive s v = elim (Bool-cases s.lock.writer_active) [
  | inl writing ↦ (ground (arith, v.writers_inside), inr (v.readers_inside ∙ v.alone writing))
  | inr idle ↦ (ground (arith, v.writers_inside), inl (ground (arith, v.writers_inside)))
]

reached-IsValid :
    (must_wait : Lock → Bool) (sound : (l : Lock) → must_wait l ≡ false → l.writer_active ≡ false)
    → (n m : ℕ) (ts : List Thread) (s : System) → run must_wait (start n m) ts ≡ some s
    → IsValid s
reached-IsValid must_wait sound n m ts s e =
    let (s', e', v) = run-IsValid must_wait sound ts (start n m) (start-IsValid n m) in
    subst IsValid (Option.some-injective s' s (sym e' ∙ e)) v

-- With the lock of rwlock-writer-pref.cpp, after every interleaving of any readers and writers that
-- lock and unlock in turn, no count has gone below 0, and a writer inside is alone.
pub writer_pref_exclusion :
    (num_readers num_writers : ℕ) (ts : List Thread)
    → (s : System) × (run writer_pref (start num_readers num_writers) ts ≡ some s) × IsExclusive s
writer_pref_exclusion n m ts =
    let (s, e, v) = run-IsValid writer_pref writer_pref_sound ts (start n m) (start-IsValid n m) in
    (s, e, valid-IsExclusive s v)

-- With the lock of rwlock-reader-pref.cpp, after every interleaving of any readers and writers that
-- lock and unlock in turn, no count has gone below 0, and a writer inside is alone.
pub reader_pref_exclusion :
    (num_readers num_writers : ℕ) (ts : List Thread)
    → (s : System) × (run reader_pref (start num_readers num_writers) ts ≡ some s) × IsExclusive s
reader_pref_exclusion n m ts =
    let (s, e, v) = run-IsValid reader_pref (λ l h. h) ts (start n m) (start-IsValid n m) in
    (s, e, valid-IsExclusive s v)

-- A reader that has to wait does not come inside.
refused :
    (must_wait : Lock → Bool) (p : Place) (l : Lock) (r : Lock × Place)
    → must_wait l ≡ true
    → reader_section must_wait p l ≡ some r
    → is_inside r.1 ≤ is_inside p
unfolding reader_section reader_lock reader_unlock
refused must_wait outside l r h e =
    let same = Option.some-injective (l, waiting) r (rw (h) at e) in
    omega (arith, ap (λ (x : Lock × Place). is_inside x.1) same)
refused must_wait waiting l r h e =
    let same = Option.some-injective (l, waiting) r (rw (h) at e) in
    omega (arith, ap (λ (x : Lock × Place). is_inside x.1) same)
refused must_wait inside l r h e = at_most (r.1)
  where
    at_most : (p : Place) → is_inside p ≤ 1
    at_most outside = omega arith
    at_most waiting = omega arith
    at_most inside = omega arith

-- With the lock of rwlock-writer-pref.cpp, while a writer waits, no step of a reader lets one more reader in.
pub waiting_writer_first :
    (num_readers num_writers : ℕ) (ts : List Thread) (s : System) (i : ℕ)
    → run writer_pref (start num_readers num_writers) ts ≡ some s
    → 0 < tally is_waiting s.writers_at
    → (s' : System) → step writer_pref s (reader i) ≡ some s'
    → tally is_inside s'.readers_at ≤ tally is_inside s.readers_at
unfolding step
waiting_writer_first n m ts s i e w s' e' =
    let v = reached-IsValid writer_pref writer_pref_sound n m ts s e in
    let busy : writer_pref s.lock ≡ true = ground (arith, v.writers_waiting) in
    let p = get_or s.readers_at i outside in
    elim (Bool-cases (ltb i (length s.readers_at))) [
      | inr gone ↦
          let same = Option.some-injective s s' (rw (gone) at e') in
          omega (arith, ap (λ (x : System). tally is_inside x.readers_at) same)
      | inl here ↦ elim (Option-cases (reader_section writer_pref p s.lock)) [
        | inl fault ↦ absurd (Option.none-ne-some s' (rw (here, fault) at e'))
        | inr (r, ran) ↦
            let same = Option.some-injective _ s' (rw (here, ran) at e') in
            omega (
              arith,
              ap (λ (x : System). tally is_inside x.readers_at) same,
              refused writer_pref p s.lock r busy ran,
              tally-set outside is_inside s.readers_at i r.1 (ground arith),
            )
      ]
    ]

goes_in :
    (p : Place) (l : Lock)
    → p ≢ inside
    → l.writer_active ≡ false
    → reader_section reader_pref p l ≡ some (record l { readers = l.readers + 1 }, inside)
unfolding reader_section reader_lock
goes_in outside l ne h = rw (h) refl
goes_in waiting l ne h = rw (h) refl
goes_in inside l ne h = absurd (ne refl)

-- With the lock of rwlock-reader-pref.cpp, while no writer is inside, a reader that is not inside goes in
-- at its next step, whoever waits.
pub reader_first :
    (num_readers num_writers : ℕ) (ts : List Thread) (s : System) (i : ℕ)
    → run reader_pref (start num_readers num_writers) ts ≡ some s
    → tally is_inside s.writers_at ≡ 0
    → i < length s.readers_at
    → get_or s.readers_at i outside ≢ inside
    → (s' : System) × (step reader_pref s (reader i) ≡ some s')
      × (get_or s'.readers_at i outside ≡ inside)
unfolding step
reader_first n m ts s i e w less not_in =
    let v = reached-IsValid reader_pref (λ l h. h) n m ts s e in
    let idle : s.lock.writer_active ≡ false = ground (arith, v.writers_inside) in
    let here : ltb i (length s.readers_at) ≡ true = ground arith in
    let l = record s.lock { readers = s.lock.readers + 1 } in
    (
      record s { lock = l; readers_at = set s.readers_at i inside },
      rw (here, goes_in (get_or s.readers_at i outside) s.lock not_in idle) refl,
      ground (arith, get_or-set s.readers_at i i inside outside less),
    )
