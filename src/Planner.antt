-- ===== src/Planner.antt =====
-- The planner: its memo of plans and its rules.
pub mod Memo
pub mod Rule
pub mod Optimizer
