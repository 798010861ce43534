-- ===== src/Session.antt =====
-- The logger and the server together: what the one sends is what the other reads.
pub mod Transfer
pub mod Shares
pub mod Registration
pub mod ShareAnswer
pub mod Verification
pub mod Rechecked
mod RecheckTests
mod RequestTests
mod Tests
