-- ===== src/Mutation.antt =====
-- The mutators (fuzzer/fuzzer/mutations.h and mutations.cpp).
pub mod Single
pub mod Block
pub mod Digits
pub mod Choice
use fuzzer_goal_directed.Prelude.{ℕ}
