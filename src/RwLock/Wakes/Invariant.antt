-- ===== src/RwLock/Wakes/Invariant.antt =====
-- What holds between the critical sections of RwLock/Wakes, and that those of a reader keep it.
use os333_iit_bombay_labs.Prelude.{
  ℕ, ◌+◌, ◌-◌, ◌<◌, ◌≡◌, ◌⊎◌, refl, ap, ◌∙◌, inl, inr, true, false, Option, some, length, get_or,
  set, ◌==◌, if◌then◌else◌, arith, Bool-cases,
}
use os333_iit_bombay_labs.Threads.{tally, tally-set}
use os333_iit_bombay_labs.RwLock.{Lock, reader_lock, reader_unlock}
use os333_iit_bombay_labs.RwLock.Wakes.{
  Spot, outside, asleep, inside, spot_of, Policy, Group, signal, reader_at,
}
use os333_iit_bombay_labs.RwLock.Wakes.Counts.{is_inside, is_asleep, is_woken, signal-Signalled}
use os333_iit_bombay_labs.RwLock.Wakes.Sound.{IsSound}

abbrev pub active : Lock → ℕ
active l = if l.writer_active then 1 else 0

-- The counts are those of the threads, a writer inside is alone, and whoever is asleep will be woken.
pub record IsValid (policy : Policy) (s : Group) : Type 0 where
  pub readers_inside : tally is_inside s.readers_at ≡ s.lock.readers
  pub writers_waiting :
      tally is_asleep s.writers_at + tally is_woken s.writers_at ≡ s.lock.writers_waiting
  pub writers_inside : tally is_inside s.writers_at ≡ active s.lock
  pub alone : (active s.lock ≡ 0) ⊎ (s.lock.readers ≡ 0)
  pub writer_next :
      (tally is_asleep s.writers_at ≡ 0)
      ⊎ (0 < active s.lock + s.lock.readers + tally is_woken s.writers_at)
  pub reader_kept : (tally is_asleep s.readers_at ≡ 0) ⊎ (policy.must_wait s.lock ≡ true)

abbrev pub Stays : Policy → Option Group → Type 0
Stays policy o = (s : Group) × (o ≡ some s) × IsValid policy s

module _ (policy : Policy) (sound : IsSound policy) where
  -- A reader at the test of its `while`.
  pub reader_tests :
      (s : Group) (i : ℕ) (p : Spot)
      → IsValid policy s
      → i < length s.readers_at
      → get_or s.readers_at i outside ≡ p
      → is_inside p ≡ 0
      → IsValid policy (record s {
        lock = (reader_lock policy.must_wait s.lock).0;
        readers_at = set s.readers_at i (spot_of (reader_lock policy.must_wait s.lock).1);
      })
  unfolding reader_lock
  reader_tests s i p v less e out = elim (Bool-cases (policy.must_wait s.lock)) [
    | inl must ↦ rw (must) (record {
      readers_inside = omega (
        arith,
        v.readers_inside,
        tally-set outside is_inside s.readers_at i asleep less,
        ap is_inside e,
      );
      writers_waiting = v.writers_waiting;
      writers_inside = v.writers_inside;
      alone = v.alone;
      writer_next = v.writer_next;
      reader_kept = inr must;
    })
    | inr free ↦
        let idle = sound.idle s.lock free in
        let in_bounds = tally-set outside is_inside s.readers_at i inside less in
        let nobody : tally is_asleep s.readers_at ≡ 0 = elim v.reader_kept [
          | inl none_asleep ↦ none_asleep
          | inr must ↦ absurd (ground (arith, free, must))
        ] in
        rw (free) (record {
          readers_inside = omega (arith, v.readers_inside, in_bounds, ap is_inside e);
          writers_waiting = v.writers_waiting;
          writers_inside = v.writers_inside;
          alone = inl (ground (arith, idle));
          writer_next = inr (omega arith);
          reader_kept =
              inl (omega (arith, nobody, tally-set outside is_asleep s.readers_at i inside less));
        })
  ]

  pub reader_leaves :
      (s : Group) (i k : ℕ)
      → IsValid policy s
      → i < length s.readers_at
      → get_or s.readers_at i outside ≡ inside
      → Stays policy (reader_at policy i k s inside)
  unfolding reader_at reader_unlock
  reader_leaves s i k v less e =
      let counted = tally-set outside is_inside s.readers_at i outside less in
      let was : is_inside (get_or s.readers_at i outside) ≡ 1 = ap is_inside e in
      let some_reader : (s.lock.readers == 0) ≡ false =
        ground (arith, v.readers_inside, counted, was) in
      let others = s.lock.readers - 1 in
      let kept : (tally is_asleep (set s.readers_at i outside) ≡ 0)
          ⊎ (policy.must_wait (record s.lock { readers = others }) ≡ true) =
        elim v.reader_kept [
          | inl nobody ↦
              inl (omega (arith, nobody, tally-set outside is_asleep s.readers_at i outside less))
          | inr must ↦ inr (sound.any_readers s.lock others must)
        ] in
      let inside_now : tally is_inside (set s.readers_at i outside) ≡ others =
        omega (arith, v.readers_inside, counted, was) in
      let idle : active s.lock ≡ 0 = elim v.alone [
        | inl idle ↦ idle
        | inr empty ↦ absurd (omega (arith, empty, v.readers_inside, counted, was))
      ] in
      elim (Bool-cases (others == 0)) [
        | inl last ↦
            let sig = signal-Signalled k s.writers_at in
            (
              record {
                lock = record s.lock { readers = others };
                readers_at = set s.readers_at i outside;
                writers_at = signal k s.writers_at;
              },
              rw (some_reader, last) refl,
              record {
                readers_inside = inside_now;
                writers_waiting = omega (arith, v.writers_waiting, sig.same_waiting);
                writers_inside = sig.same_inside ∙ v.writers_inside;
                alone = inl idle;
                writer_next = elim sig.one_woken [
                  | inl nobody ↦ inl nobody
                  | inr one ↦ inr (omega (arith, one))
                ];
                reader_kept = kept;
              },
            )
        | inr some_left ↦ (
          record s {
            lock = record s.lock { readers = others };
            readers_at = set s.readers_at i outside;
          },
          rw (some_reader, some_left) refl,
          record {
            readers_inside = inside_now;
            writers_waiting = v.writers_waiting;
            writers_inside = v.writers_inside;
            alone = inl idle;
            writer_next = inr (ground (arith, some_left));
            reader_kept = kept;
          },
        )
      ]
