-- ===== src/Wire.antt =====
-- The byte transport that logger and server share: `__send`, `__recv`, `send_binary` and
-- `recv_binary` of Client/client.cpp and Server/server.cpp, over the sockets of the system, and the
-- packet header that travels on it.
pub mod Network
pub mod Transfer
pub mod RecvOnce
pub mod Receive
pub mod SendOnce
pub mod Send
pub mod Packet
pub mod Pipe
pub mod Steady
mod Tests
