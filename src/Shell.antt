-- ===== src/Shell.antt =====
-- shell-code/my_shell.c: a shell with pipes, background, serial and parallel commands.
pub mod Tokenize
pub mod State
pub mod Commands
pub mod Loop
pub mod Serial
pub mod Parallel
pub mod Bounds
pub mod Rounds
pub mod Release
