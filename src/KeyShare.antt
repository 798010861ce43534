-- ===== src/KeyShare.antt =====
-- The example of helloworld/ in which a server shares out a key and a client rebuilds it: the
-- service of greeter_server.cc, the client of greeter_client.cc, the helpers of util.h, and the
-- encryption of bs64.h.
pub mod Text
pub mod Aes
pub mod Service
pub mod Client
pub mod Served
pub mod Hidden
pub mod Fingerprint
pub mod Sets
pub mod Collect
pub mod Tokens
pub mod Answered
pub mod Assumptions
pub mod Steps
pub mod Whole
pub mod Sample
mod Tests
