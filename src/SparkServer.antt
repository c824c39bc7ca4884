-- ===== src/SparkServer.antt =====
-- SparkServer/: the server that speaks the pod's control protocol.
pub mod Cipher
pub mod Frames
pub mod Signature
pub mod Pod
pub mod Handshake
pub mod Connection
pub mod Session
pub mod Requests
pub mod Exchange
pub mod Api
pub mod FrankenSocket
pub mod Server
mod Tests
