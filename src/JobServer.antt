-- ===== src/JobServer.antt =====
-- The job server: subprojects/sim/src/job_server/main.cc. `Filter` keeps which jobs may not start now,
-- `Locks` says what a job works on, and `Queue` has the steps of the server.
pub mod Condition
pub mod Filter
pub mod Locks
pub mod Collisions
pub mod Queue
pub mod Exclusion
pub mod Steps
pub mod Ends
pub mod Promises
pub mod Process
