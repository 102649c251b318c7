-- ===== src/Tests.antt =====
-- Runs of the programs of this repository on concrete input.
mod Allocators
mod Server
mod Shell
mod Threads
mod Client
mod RwLock
mod SharedMemory
mod Salon
mod Wakes
mod Echo
mod Signals
mod Zemaphore
mod Trial
mod Ipc
mod Warmup
