-- ===== src/Tests/Zemaphore.antt =====
-- Schedules of pthreads-sync-code/zemaphore/test-toggle.c and test-zem.c.
use os333_iit_bombay_labs.Prelude.{ℕ, ◌≡◌, refl, List, [], ◌∷◌, ◌++◌, replicate}
use os333_iit_bombay_labs.Prelude.Int.{pos, negsuc}
use os333_iit_bombay_labs.Zemaphore.{zem_init, zem_down, zem_resume, zem_up}
use os333_iit_bombay_labs.Zemaphore.Toggle.{
  num_threads, returned, start, down, resume, signal, up, justprint, run,
}
use os333_iit_bombay_labs.Zemaphore.Toggle.State.{cyclic}
use os333_iit_bombay_labs.Zemaphore.Toggle.Order.{sweeps, toggle_completes}
use os333_iit_bombay_labs.Threads.Signal
use os333_iit_bombay_labs.Zemaphore.Rendezvous.{
  Choice, main_thread, child_thread, main_first, this_is, one_printed,
}
use os333_iit_bombay_labs.Zemaphore.Rendezvous as Pair
use os333_iit_bombay_labs.Zemaphore.Rendezvous.Order.{Ends, closing, main_first_and_last}

-- Thread 1 waits, thread 0 prints and wakes it, thread 2 waits.
abbrev early : List ℕ
early = 1 ∷ 0 ∷ 0 ∷ 2 ∷ 0 ∷ 0 ∷ 1 ∷ 1 ∷ []

early-run : (run early start).printed ≡ 0 ∷ 1 ∷ []
unfolding zem_init zem_down zem_resume zem_up start down resume signal up justprint run
early-run = refl

-- The count goes below 0 where a wait ends without a signal.
resume_below : (zem_resume (zem_init (pos 0))).count ≡ negsuc 0
unfolding zem_init zem_resume
resume_below = refl

toggle_completes_example :
    ((run (early ++ sweeps 90) start).places ≡ replicate num_threads returned)
    × ((run (early ++ sweeps 90) start).printed ≡ cyclic 30)
toggle_completes_example = toggle_completes early

-- A thread that waits is woken, but the other one takes the count first, and both print before `main` goes on.
abbrev overtaken : List Choice
overtaken =
    child_thread 0
    ∷ main_thread 0
    ∷ main_thread 0
    ∷ child_thread 1
    ∷ child_thread 0
    ∷ child_thread 1
    ∷ child_thread 0
    ∷ child_thread 1
    ∷ main_thread 0
    ∷ main_thread 0
    ∷ []

overtaken-run :
    (Pair.run overtaken Pair.start).printed ≡ main_first ∷ this_is 2 ∷ this_is 1 ∷ one_printed ∷ []
unfolding zem_init zem_down zem_resume zem_up Signal.signal Pair.start Pair.up_child
    Pair.down_parent Pair.main_step Pair.justprint Pair.step Pair.run
overtaken-run = refl

main_first_and_last_example : Ends (Pair.run (overtaken ++ closing) Pair.start)
main_first_and_last_example = main_first_and_last overtaken
