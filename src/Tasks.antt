-- ===== src/Tasks.antt =====
-- exec_ops: how a node's input items become tasks.
pub mod Groups
pub mod Resample
pub mod Split
pub mod Union
