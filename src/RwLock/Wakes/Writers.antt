-- ===== src/RwLock/Wakes/Writers.antt =====
-- The critical sections of a writer (RwLock/Wakes) keep the invariant.
use os333_iit_bombay_labs.Prelude.{
  ℕ, ◌+◌, ◌-◌, ◌<◌, ◌≡◌, ◌⊎◌, refl, sym, ap, ◌∙◌, inl, inr, Bool, true, false, ◌||◌, List, length,
  map, get_or, set, ltb, ◌==◌, if◌then◌else◌, ◌>>=◌, arith, Bool-cases,
}
use os333_iit_bombay_labs.Threads.{tally, tally-set}
use os333_iit_bombay_labs.RwLock.{Lock, writer_enter, writer_unlock}
use os333_iit_bombay_labs.RwLock.Wakes.{
  Spot, outside, asleep, inside, Policy, Group, rouse, signal, store_writer, writer_at,
}
use os333_iit_bombay_labs.RwLock.Wakes.Counts.{
  is_inside, is_asleep, is_woken, Signalled, signal-Signalled, nobody_asleep, same_inside,
}
use os333_iit_bombay_labs.RwLock.Wakes.Sound.{IsSound}
use os333_iit_bombay_labs.RwLock.Wakes.Invariant.{active, IsValid, Stays}

module _ (policy : Policy) (sound : IsSound policy) where
  -- A writer at the test of its `while`, which has been counted as waiting.
  pub writer_tests :
      (s : Group) (l : Lock) (i : ℕ) (p : Spot)
      → IsValid policy s
      → i < length s.writers_at
      → get_or s.writers_at i outside ≡ p
      → (is_inside p ≡ 0) × (is_asleep p ≡ 0)
      → l.readers ≡ s.lock.readers
      → l.writer_active ≡ s.lock.writer_active
      → l.writers_waiting + is_woken p ≡ s.lock.writers_waiting + 1
      → (policy.must_wait s.lock ≡ true → policy.must_wait l ≡ true)
      → Stays policy (writer_enter l >>= store_writer i s)
  unfolding writer_enter
  writer_tests s l i p v less e (out, awake) same_readers same_active counted kept =
      let at_inside = ap is_inside e in
      let at_asleep = ap is_asleep e in
      let at_woken = ap is_woken e in
      let same : active l ≡ active s.lock = ap (λ (b : Bool). if b then 1 else 0) same_active in
      elim (Bool-cases (l.writer_active || ltb 0 l.readers)) [
        | inl busy ↦ (
          record s { lock = l; writers_at = set s.writers_at i asleep },
          rw (busy) refl,
          record {
            readers_inside = v.readers_inside ∙ sym same_readers;
            writers_waiting = omega (
              arith,
              v.writers_waiting,
              counted,
              at_asleep,
              at_woken,
              awake,
              tally-set outside is_asleep s.writers_at i asleep less,
              tally-set outside is_woken s.writers_at i asleep less,
            );
            writers_inside = omega (
              arith,
              v.writers_inside,
              same,
              at_inside,
              out,
              tally-set outside is_inside s.writers_at i asleep less,
            );
            alone = elim v.alone [
              | inl idle ↦ inl (same ∙ idle)
              | inr empty ↦ inr (same_readers ∙ empty)
            ];
            writer_next = inr (ground (arith, busy));
            reader_kept = elim v.reader_kept [
              | inl nobody ↦ inl nobody
              | inr must ↦ inr (kept must)
            ];
          },
        )
        | inr free ↦
            let set_woken = tally-set outside is_woken s.writers_at i inside less in
            let some_waiting : (l.writers_waiting == 0) ≡ false =
              ground (arith, counted, v.writers_waiting, set_woken, at_woken) in
            let idle : active l ≡ 0 = ground (arith, free) in
            (
              record s {
                lock = record l { writers_waiting = l.writers_waiting - 1; writer_active = true };
                writers_at = set s.writers_at i inside;
              },
              rw (free, some_waiting) refl,
              record {
                readers_inside = v.readers_inside ∙ sym same_readers;
                writers_waiting = omega (
                  arith,
                  v.writers_waiting,
                  counted,
                  at_asleep,
                  at_woken,
                  awake,
                  set_woken,
                  tally-set outside is_asleep s.writers_at i inside less,
                );
                writers_inside = omega (
                  arith,
                  v.writers_inside,
                  same,
                  idle,
                  at_inside,
                  out,
                  tally-set outside is_inside s.writers_at i inside less,
                );
                alone = inr (ground (arith, free));
                writer_next = inr (omega arith);
                reader_kept = inr (
                    sound.busy
                      (record l { writers_waiting = l.writers_waiting - 1; writer_active = true })
                      refl);
              },
            )
      ]

  pub writer_leaves :
      (s : Group) (i k : ℕ)
      → IsValid policy s
      → i < length s.writers_at
      → get_or s.writers_at i outside ≡ inside
      → Stays policy (writer_at policy i k s inside)
  unfolding writer_at writer_unlock
  writer_leaves s i k v less e =
      let was : is_inside (get_or s.writers_at i outside) ≡ 1 = ap is_inside e in
      let not_asleep : is_asleep (get_or s.writers_at i outside) ≡ 0 = ap is_asleep e in
      let not_woken : is_woken (get_or s.writers_at i outside) ≡ 0 = ap is_woken e in
      let l : Lock = record s.lock { writer_active = false } in
      let others = set s.writers_at i outside in
      let counted = tally-set outside is_inside s.writers_at i outside less in
      let empty : s.lock.readers ≡ 0 = elim v.alone [
        | inl idle ↦ absurd (omega (arith, idle, v.writers_inside, counted, was))
        | inr empty ↦ empty
      ] in
      let nobody_inside : tally is_inside others ≡ 0 =
        ground (arith, v.writers_inside, counted, was) in
      let waiting_now : tally is_asleep others + tally is_woken others ≡ s.lock.writers_waiting =
        omega (
          arith,
          v.writers_waiting,
          not_asleep,
          not_woken,
          tally-set outside is_asleep s.writers_at i outside less,
          tally-set outside is_woken s.writers_at i outside less,
        ) in
      let sig = signal-Signalled k others in
      let writers : List Spot = if policy.wakes_writer l then signal k others else others in
      let readers : List Spot =
        if policy.wakes_readers l then map rouse s.readers_at else s.readers_at in
      let woke : Signalled others writers
          × ((tally is_asleep writers ≡ 0) ⊎ (0 < tally is_woken writers)) =
        elim (Bool-cases (policy.wakes_writer l)) [
          | inl yes_one ↦ rw (yes_one) (sig, sig.one_woken)
          | inr no_one ↦
              let none_waiting = sound.next_writer l empty no_one in
              let nobody : tally is_asleep others ≡ 0 = omega (arith, waiting_now, none_waiting) in
              rw (no_one) (
                record { same_inside = refl; same_waiting = refl; one_woken = inl nobody },
                inl nobody,
              )
        ] in
      let roused : (tally is_inside readers ≡ tally is_inside s.readers_at)
          × ((tally is_asleep readers ≡ 0) ⊎ (policy.must_wait l ≡ true)) =
        elim (Bool-cases (policy.wakes_readers l)) [
          | inl all ↦ rw (all) (same_inside s.readers_at, inl (nobody_asleep s.readers_at))
          | inr no_one ↦ rw (no_one) (refl, inr (sound.next_readers l no_one))
        ] in
      (
        record { lock = l; readers_at = readers; writers_at = writers },
        refl,
        record {
          readers_inside = roused.0 ∙ v.readers_inside;
          writers_waiting = omega (arith, woke.0.same_waiting, waiting_now);
          writers_inside = woke.0.same_inside ∙ nobody_inside;
          alone = inl refl;
          writer_next = elim woke.1 [
            | inl nobody ↦ inl nobody
            | inr one ↦ inr (omega (arith, one))
          ];
          reader_kept = roused.1;
        },
      )
