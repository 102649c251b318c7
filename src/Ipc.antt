-- ===== src/Ipc.antt =====
-- ipc-code: messages through a datagram socket, a pipe and a shared page, one program at a time and side by side.
pub mod Datagram
pub mod SharedText
