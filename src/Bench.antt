-- ===== src/Bench.antt =====
-- crates/cu-bench/src/main.rs: the replay of an instruction, its inputs and its measures.
pub mod Base58
pub mod Replay
