-- ===== src/Schema.antt =====
-- The rows of the database tables, with the enumerations of their columns
-- (subprojects/sim/include/sim).
pub mod Users
pub mod Problems
pub mod Contests
pub mod Submissions
pub mod Jobs
