-- ===== src/Logger.antt =====
-- The logger, Logger/Logger.cpp: its queues, the pipeline from the camera to the signed hashes, and
-- what it sends to the server.
pub mod Pictures
pub mod Pipeline
pub mod Rounds
pub mod Threads
pub mod Setup
pub mod Turns
pub mod WebUi
pub mod Upload
pub mod Evaluation
pub mod Delivery
mod ThreadTests
mod TurnTests
mod Tests
