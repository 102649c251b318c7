-- ===== src/Zemaphore/Toggle.antt =====
-- pthreads-sync-code/zemaphore/test-toggle.c: three threads that print in turn, each ten times. A wait ends by
-- a signal, and never without one.
pub mod State
pub mod Handover
pub mod Step
pub mod Order
use os333_iit_bombay_labs.Prelude.{
  ℕ, zero, suc, ◌+◌, ◌%◌, Bool, true, false, List, [], ◌∷◌, ◌++◌, get_or, set, replicate, ltb,
  if◌then◌else◌,
}
use os333_iit_bombay_labs.Prelude.Int.{ℤ, pos}
use os333_iit_bombay_labs.Zemaphore.{
  Zemaphore, zem_init, passed, waits, zem_down, zem_resume, zem_up,
}

abbrev pub num_threads : ℕ
num_threads = 3

abbrev pub num_iter : ℕ
num_iter = 10

-- Where a thread is: at `zem_down`, in its wait, behind the signal that ends the wait, at the
-- `printf`, at `zem_up`, or returned.
pub data Place : Type 0 where
  at_down in_wait signalled at_print at_up returned : Place

pub record Toggle : Type 0 where
  pub zem : List Zemaphore
  pub places : List Place
  pub iterations : List ℕ  -- `i` of each thread
  pub printed : List ℕ

-- `main` up to the creation of the threads.
unfoldable pub start : Toggle
start = record {
  zem = zem_up (zem_init (pos 0)) ∷ zem_init (pos 0) ∷ zem_init (pos 0) ∷ [];
  places = replicate num_threads at_down;
  iterations = replicate num_threads 0;
  printed = [];
}

-- An entry that is read only in bounds.
abbrev pub zem_at : Toggle → ℕ → Zemaphore
zem_at s i = get_or s.zem i (zem_init (pos 0))

abbrev pub go : ℕ → Place → Toggle → Toggle
go i p s = record s { places = set s.places i p }

-- `zem_down(&zem[thread_id])`
unfoldable pub down : ℕ → Toggle → Toggle
down i s = elim (zem_down (zem_at s i)) [
  | passed z ↦ go i at_print (record s { zem = set s.zem i z })
  | waits z ↦ go i in_wait s
]

unfoldable pub resume : ℕ → Toggle → Toggle
resume i s = go i at_print (record s { zem = set s.zem i (zem_resume (zem_at s i)) })

-- The signal of `zem_up(&zem[i])`: only thread `i` ever waits there.
unfoldable pub signal : ℕ → List Place → List Place
signal i places = elim (get_or places i returned) [ in_wait ↦ set places i signalled | _ ↦ places ]

-- `zem_up(&zem[next_thread])`, `i++`, and the test of the loop.
unfoldable pub up : ℕ → Toggle → Toggle
up i s =
    let next = (i + 1) % num_threads in
    let rounds = get_or s.iterations i 0 + 1 in
    record s {
      zem = set s.zem next (zem_up (zem_at s next));
      places = set (signal next s.places) i (if ltb rounds num_iter then at_down else returned);
      iterations = set s.iterations i rounds;
    }

-- The next step of thread `i`. One that waits without a signal, or has returned, makes none.
unfoldable pub justprint : ℕ → Toggle → Toggle
justprint i s = elim (get_or s.places i returned) [
  | at_down ↦ down i s
  | in_wait ↦ s
  | signalled ↦ resume i s
  | at_print ↦ go i at_up (record s { printed = s.printed ++ i ∷ [] })
  | at_up ↦ up i s
  | returned ↦ s
]

-- The threads in the order in which they are scheduled.
unfoldable pub run : List ℕ → Toggle → Toggle
run [] s = s
run (i ∷ schedule) s = run schedule (justprint i s)
