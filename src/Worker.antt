-- ===== src/Worker.antt =====
-- The workers of pkg/worker: a pool that bounds how many jobs run at once, and a group that runs jobs
-- on a pool and reports their first error.
pub mod Pool
pub mod Group
mod Examples
