-- ===== src/App.antt =====
-- app/: the coordinator, which runs the nodes of execution graphs.
pub mod Threads
pub mod Prepare
pub mod Jobs
pub mod Incorporate
pub mod RunNode
pub mod Plan
