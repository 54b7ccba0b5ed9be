-- ===== src/Lifecycle.antt =====
-- The companion lifecycle of the evaluation
-- (eval/python/src/memory_core_eval/seed_lifecycle.py): it shows where a Disposition is formed, used
-- and changed by feedback, with controls that lack a delivery or an outcome.
pub mod States
pub mod Summary
pub mod Feedback
pub mod Suite
