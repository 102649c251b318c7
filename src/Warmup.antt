-- ===== src/Warmup.antt =====
-- pthreads-sync-code/warmup_ex/ex1.c and ex2.c: ten threads that increment one number under a mutex, and ten threads that
-- print their index.
pub mod Counter
pub mod Indexes
