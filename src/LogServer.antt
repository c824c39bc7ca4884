-- ===== src/LogServer.antt =====
-- LogServer/: the server that takes the pod's log stream.
pub mod CircularBuffer
pub mod StreamParser
pub mod Models
pub mod Server
pub mod Listener
mod Tests
