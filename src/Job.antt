-- ===== src/Job.antt =====
-- skyhook/job.go, app/job.go and app/job_exec.go: jobs and what shows their progress.
pub mod Tail
