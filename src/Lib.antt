-- ===== src/Lib.antt =====
-- The programs of an operating systems lab course, modelled and verified part by part. Some talk to each
-- other: the key-value client and server (Kv/Client), the producer and the consumer of a shared page
-- (SharedMemory), the echo client and server (Echo), and the smaller pairs of Ipc. Those of
-- pthreads-sync-code use the locks and zemaphores of the same directory (RwLock, Zemaphore). What the others
-- share here is the helpers.
--
-- Parts and files (paths are from the repository's root):
--   Prelude      lists over the native numbers, integers, and C strings as lists of bytes. `none` as a
--                result stands for a fault: an access outside an array, or through NULL.
--   Chunks       the two tables `free_chunks` and `alloc_sizes` and the loops that both allocators run
--                over them: run_free and first_fit scan for a run, take_run and release_run write.
--                Chunks/Invariant says when the blocks tile the tables.
--   Alloc        malloc-code/alloc.h: init_alloc, cleanup, alloc, dealloc.
--   Ealloc       malloc-code/ealloc.h: the same over up to four pages that are mapped on demand;
--                search_pages is the loop over the pages in use, grow is the mapping of a new one.
--   Kv           kv-server/kv-server.c: handle_create, read_value, update_value, delete_value.
--                Kv/Refine holds the abstract map and the refinement, Kv/Session the request loop of
--                `main` (respond is one request, serve one connection, accept_all the outer loop).
--                Kv/Client is kv-server/kv-client.c, over a service that the model of the server fills;
--                Kv/Client/Dialogue is what its user may expect, Kv/Client/Follows and Rounds compare the two.
--   Shell        shell-code/my_shell.c: Shell/Tokenize is `tokenize`, Shell/State the globals and the
--                SIGINT handler, Shell/Commands the four ways to execute a line and the main loop.
--   Threads      what the models of pthreads-sync-code share: where a thread is between critical sections, sums
--                over threads, Threads/Signal on pthread_cond_signal, Threads/Sweeps on threads that run in turns.
--   MasterWorker pthreads-sync-code/master-worker/master-worker.c: generate_requests_loop and
--                consume_request are one critical section each, run is a schedule of them.
--                MasterWorker/Signals adds which thread a signal wakes: there a thread that waits goes on only
--                after a signal.
--   RwLock       pthreads-sync-code/rwlock/rwlock-writer-pref.cpp and rwlock-reader-pref.cpp: both locks, of
--                which reader_section and writer_section are the critical sections. RwLock/Wakes adds whom the
--                locks wake: there a thread that waits goes on only when it is woken.
--                RwLock/Trial is rwlock/test-writer-pref.cpp and test-reader-pref.cpp: run_reader and run_writer
--                are steps of a thread, writer_pref_verdict and reader_pref_verdict what `main` prints.
--   Zemaphore    pthreads-sync-code/zemaphore/zemaphore.c; Zemaphore/Toggle is test-toggle.c, where a thread
--                that waits goes on only after a signal. Zemaphore/Rendezvous is test-zem.c: main_step and
--                justprint are the steps of `main` and of a thread.
--   Barber       pthreads-sync-code/own-sync-problem/barber-cv.c: barber and customer. Barber/Wakes adds whom the
--                signals wake: barber_turn and guest_turn.
--   SharedMemory ipc-code/shm-posix-producer.c and shm-posix-consumer.c: produce and consume are steps of the two
--                programs on the shared page and the FIFO.
--   Echo         kv-server/simple-server.c and simple-client.c: answer and converse are one round of their loops.
--                Echo/Epoll is kv-server/epoll-server.c, where handle_event is the body of the loop over the events.
--   Ipc          Ipc/Datagram is ipc-code/socket-server.c, socket-client.c, the originals of both, and pipe.c;
--                Ipc/SharedText is shm-posix-producer-orig.c and shm-posix-consumer-orig.c: sprintf writes into the
--                page, string_in reads the string in it.
--   Warmup       Warmup/Counter is pthreads-sync-code/warmup_ex/ex1.c, where the read and the write of `global`
--                are two moves; Warmup/Indexes is ex2.c, with the cells that malloc gives.
--   Turns        pthreads-sync-code/warmup_ex/ex3.c and ex4.c: routine is one critical section, and a thread
--                that waits goes on only after a broadcast.
--   Tests        the programs on concrete input.
--
-- How the code is read:
--   * Loops are structural recursion on the number of rounds left or on a list, so no fuel is
--     needed; each loop takes its bound from the source, but for the `while(1)` of the echo client, which takes
--     a number of rounds (Echo/Delivery says how many are enough). An index is checked at each access.
--   * Calls into the C library and the kernel enter by what they return: `mmap`, `munmap` and
--     `malloc` by their results, `sscanf` as the record Scan, `fork`, `pipe` and the arrival of SIGINT
--     as the record World. In the loop of the server `malloc` is taken to succeed.
--   * Addresses are natural numbers that do not wrap. `int` values are integers without overflow.
--   * SIGINT reaches the shell only while it is in `waitpid`. What a child process does is its entry
--     in the log; the log is the order of the system calls of the shell.
--   * Threads interleave at the calls of the mutex and of the condition variables: a critical section
--     is one step, a wait ends one step and begins another, and may end without a signal, except in
--     MasterWorker/Signals, RwLock/Wakes, Barber/Wakes, Zemaphore/Toggle, Zemaphore/Rendezvous and Turns, where
--     it ends only by the signals and the broadcasts of the code.
--     In Warmup/Counter the accesses inside the critical section are steps of their own.
--   * The programs of SharedMemory interleave at their accesses to the page and to the FIFO.
--
-- Not modelled: the kernel's side of sockets, pipes and terminals; the test programs of the allocators, the
-- small programs of intro-code and intro-debug-code, and the skeleton of master-worker.c, which have no state
-- or contract of their own.
pub mod Prelude
pub mod Chunks
pub mod Alloc
pub mod Ealloc
pub mod Kv
pub mod Shell
pub mod Threads
pub mod MasterWorker
pub mod Turns
pub mod RwLock
pub mod Barber
pub mod Zemaphore
pub mod SharedMemory
pub mod Echo
pub mod Ipc
pub mod Warmup
mod Tests
