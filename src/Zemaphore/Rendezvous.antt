-- ===== src/Zemaphore/Rendezvous.antt =====
-- pthreads-sync-code/zemaphore/test-zem.c: `main` lets two threads print, one after the other. A wait ends by a signal, and
-- never without one; the `sleep` of `main` promises nothing.
pub mod Counts
pub mod State
pub mod Step
pub mod MainStep
pub mod Order
use os333_iit_bombay_labs.Prelude.{
  ℕ, zero, suc, ◌+◌, Bool, true, false, List, [], ◌∷◌, ◌++◌, get_or, set, replicate, if◌then◌else◌,
}
use os333_iit_bombay_labs.Prelude.Int.{pos}
use os333_iit_bombay_labs.Threads.Signal.{signal}
use os333_iit_bombay_labs.Zemaphore.{
  Zemaphore, zem_init, passed, waits, zem_down, zem_resume, zem_up,
}
use os333_iit_bombay_labs.Zemaphore.Toggle.{
  Place, at_down, in_wait, signalled, at_print, at_up, returned,
}

-- What `main` does next: its three lines, and for each thread `zem_up(&child)` and `zem_down(&parent)`, in whose wait it is
-- or whose signal it has got.
pub data Stage : Type 0 where
  first_line : Stage
  up_one down_one wait_one called_one line_one : Stage
  up_two down_two wait_two called_two line_two : Stage
  joins : Stage

-- "This should print first", "This is thread %d", and the two lines behind the waits.
pub data Line : Type 0 where
  main_first : Line
  this_is : ℕ → Line
  one_printed second_printed : Line

pub record Rendezvous : Type 0 where
  pub child : Zemaphore
  pub parent : Zemaphore
  pub threads : List Place
  pub main : Stage
  pub printed : List Line

-- `main` up to its `sleep`.
unfoldable pub start : Rendezvous
start = record {
  child = zem_init (pos 0);
  parent = zem_init (pos 0);
  threads = replicate 2 at_down;
  main = first_line;
  printed = [];
}

abbrev pub is_waiting : Place → Bool
is_waiting in_wait = true
is_waiting at_down = false
is_waiting signalled = false
is_waiting at_print = false
is_waiting at_up = false
is_waiting returned = false

-- `zem_up(&child)`, whose signal goes to the thread `k` if it waits, and to some thread that waits else.
unfoldable pub up_child : ℕ → Stage → Rendezvous → Rendezvous
up_child k next s = record s {
  child = zem_up s.child;
  threads = signal is_waiting signalled returned k s.threads;
  main = next;
}

-- `zem_down(&parent)`, up to its wait, or up to its end where it does not wait.
unfoldable pub down_parent : Stage → Stage → Rendezvous → Rendezvous
down_parent waiting next s = elim (zem_down s.parent) [
  | passed z ↦ record s { parent = z; main = next }
  | waits z ↦ record s { parent = z; main = waiting }
]

abbrev pub resume_parent : Stage → Rendezvous → Rendezvous
resume_parent next s = record s { parent = zem_resume s.parent; main = next }

abbrev pub say : Line → Stage → Rendezvous → Rendezvous
say line next s = record s { main = next; printed = s.printed ++ line ∷ [] }

-- The next step of `main`.
unfoldable pub main_step : ℕ → Stage → Rendezvous → Rendezvous
main_step k first_line s = say main_first up_one s
main_step k up_one s = up_child k down_one s
main_step k down_one s = down_parent wait_one line_one s
main_step k wait_one s = s
main_step k called_one s = resume_parent line_one s
main_step k line_one s = say one_printed up_two s
main_step k up_two s = up_child k down_two s
main_step k down_two s = down_parent wait_two line_two s
main_step k wait_two s = s
main_step k called_two s = resume_parent line_two s
main_step k line_two s = say second_printed joins s
main_step k joins s = s

-- The signal of `zem_up(&parent)`: only `main` ever waits there.
abbrev pub called : Stage → Stage
called first_line = first_line
called up_one = up_one
called down_one = down_one
called wait_one = called_one
called called_one = called_one
called line_one = line_one
called up_two = up_two
called down_two = down_two
called wait_two = called_two
called called_two = called_two
called line_two = line_two
called joins = joins

abbrev pub go : ℕ → Place → Rendezvous → Rendezvous
go i p s = record s { threads = set s.threads i p }

-- The next step of a thread.
unfoldable pub justprint : ℕ → Place → Rendezvous → Rendezvous
justprint i at_down s = elim (zem_down s.child) [
  | passed z ↦ go i at_print (record s { child = z })
  | waits z ↦ go i in_wait (record s { child = z })
]
justprint i in_wait s = s
justprint i signalled s = go i at_print (record s { child = zem_resume s.child })
justprint i at_print s = go i at_up (record s { printed = s.printed ++ this_is (i + 1) ∷ [] })
justprint i at_up s = go i returned (record s { parent = zem_up s.parent; main = called s.main })
justprint i returned s = s

-- The scheduler's choice, with the thread that a signal of `main` goes to.
pub data Choice : Type 0 where
  main_thread child_thread : ℕ → Choice

unfoldable pub step : Choice → Rendezvous → Rendezvous
step (main_thread k) s = main_step k s.main s
step (child_thread i) s = justprint i (get_or s.threads i returned) s

unfoldable pub run : List Choice → Rendezvous → Rendezvous
run [] s = s
run (c ∷ cs) s = run cs (step c s)
