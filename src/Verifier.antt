-- ===== src/Verifier.antt =====
-- Verifier/Verifier.cpp: the stored hash of a frame, the sizes of a stored frame, and the verdict.
pub mod Check
pub mod Verdict
mod Tests
