-- ===== src/Eval.antt =====
-- The eval plugin, plugins/eval: assertions over a trace, deterministic checks, rubric grading.
pub mod Assertions
pub mod Deterministic
pub mod Rubric
pub mod Trace
mod Examples
