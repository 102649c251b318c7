-- ===== src/RwLock/Wakes/Sound.antt =====
-- What both locks of pthreads-sync-code/rwlock have in common: when readers wait, and that WriterUnlock wakes somebody.
use os333_iit_bombay_labs.Prelude.{ℕ, ◌+◌, ◌<◌, ◌≡◌, ◌⊎◌, inl, true, false, arith}
use os333_iit_bombay_labs.RwLock.{Lock}
use os333_iit_bombay_labs.RwLock.Wakes.{Policy, writers_first, readers_first}

pub record IsSound (policy : Policy) : Type 0 where
  pub idle : (l : Lock) → policy.must_wait l ≡ false → l.writer_active ≡ false
  pub busy : (l : Lock) → l.writer_active ≡ true → policy.must_wait l ≡ true
  -- Readers do not matter, and one more writer that waits does not let readers in.
  pub any_readers :
      (l : Lock) (n : ℕ)
      → policy.must_wait l ≡ true
      → policy.must_wait (record l { readers = n }) ≡ true
  pub one_more :
      (l : Lock)
      → policy.must_wait l ≡ true
      → policy.must_wait (record l { writers_waiting = l.writers_waiting + 1 }) ≡ true
  -- Readers wait for a writer.
  pub for_writer :
      (l : Lock) → policy.must_wait l ≡ true → (l.writer_active ≡ true) ⊎ (0 < l.writers_waiting)
  -- Behind WriterUnlock.
  pub next_writer :
      (l : Lock) → l.readers ≡ 0 → policy.wakes_writer l ≡ false → l.writers_waiting ≡ 0
  pub next_readers : (l : Lock) → policy.wakes_readers l ≡ false → policy.must_wait l ≡ true

pub writers_first-IsSound : IsSound writers_first
writers_first-IsSound = record {
  idle = λ l h. ground (arith, h);
  busy = λ l h. ground (arith, h);
  any_readers = λ l n h. h;
  one_more = λ l h. ground (arith, h);
  for_writer = λ l h. ground (arith, h);
  next_writer = λ l h k. ground (arith, k);
  next_readers = λ l k. ground (arith, k);
}

pub readers_first-IsSound : IsSound readers_first
readers_first-IsSound = record {
  idle = λ l h. h;
  busy = λ l h. h;
  any_readers = λ l n h. h;
  one_more = λ l h. h;
  for_writer = λ l h. inl h;
  next_writer = λ l h k. absurd (ground (arith, h, k));
  next_readers = λ l k. absurd (ground (arith, k));
}
