-- ===== src/Benchmark.antt =====
-- tools/benchmark.py: benchmarks of commits, and the summary of their comparison.
pub mod Summary
pub mod Commit
