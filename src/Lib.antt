-- ===== src/Lib.antt =====
-- Verification of Sim, an online judge for programming contests.
--
-- A web server takes submissions of solutions and orders background jobs; a job server judges the
-- submissions and does the other jobs; both keep their state in one SQL database. The development
-- models the parts that decide what is stored and who may see it.
--
-- Common: Boolean tests, lists, options, signed integers, 64-bit arithmetic, texts as lists of
-- bytes, and results of code that throws.
-- Sql: what the statements of the database do to a table, a list of rows: an UPDATE or a DELETE
-- with a condition, a SELECT with a condition, and one with ORDER BY ... LIMIT 1. NULL sorts
-- before every value. `Sql.Order` and `Sql.First` have the lemmas.
-- Schema, Db: the rows (subprojects/sim/include/sim: submissions, users, problems, problem_tags,
-- contests, contest_rounds, contest_problems, contest_users, contest_files, sessions, jobs,
-- merge_problems_jobs), the tables together, and the foreign keys of
-- subprojects/sim/src/sim/db/schema.cc. A DATETIME is its text, and texts are compared by bytes.
-- Finals: subprojects/sim/src/sim/submissions/update_final.cc. Three columns mark the submission
-- that counts for a user in a problem and in a contest problem. `Finals.Reselect` has the
-- statements that the three updates share, and `Finals.Update` puts the three together.
-- Judging: subprojects/sim/src/job_server/job_handlers/judge_or_rejudge_submission.cc, the status
-- and the score that a report gives, and what its retried transaction keeps from attempt to
-- attempt (subprojects/sim/include/sim/mysql/repeat_if_deadlocked.hh). The text of a report, and
-- what a string holds after it was moved from, are parameters. Scores are unbounded here.
-- `Judging.Update` stores a verdict.
-- JobHandlers: subprojects/sim/src/job_server/job_handlers, common.cc and, in child modules,
-- reselect_final_submissions_in_contest_problem.cc, delete_contest_problem.cc, delete_user.cc,
-- delete_problem.cc, delete_contest.cc, delete_contest_round.cc, merge_users.cc and
-- merge_problems.cc. A new job takes the next number; the log and the time are arguments.
-- `Finals.ToUpdate` has the loop of calls of update_final that three of them share, and
-- `Finals.Pending` what it achieves.
-- JobServer: subprojects/sim/src/job_server/main.cc. `Filter` has the SQL conditions that keep jobs
-- apart, as syntax trees with an evaluation, `Locks` the independent description of what a job
-- works on, and `Queue` the main thread, its workers and everybody else who writes the table of
-- jobs, as steps on a state. `Process` runs the handler of a job, up to 129 times when the database
-- reports a deadlock. How an attempt ends, and what it leaves in the database, is a parameter there.
-- Merging: subprojects/sim/src/sim/merging/merge_ids.cc. Ids are 64-bit numbers that wrap around.
-- The loop is on fuel, one unit for each id of the two databases, which is enough because every
-- round takes one of them. The iterators, which other code implements, are a list and a function.
-- Capabilities: subprojects/sim/src/web_server/capabilities. A function there takes the session and
-- what it needs of the objects, and gives a struct of flags.
-- Text: subprojects/simlib/include/simlib, ctype.hh and parts of string_transform.hh: bytes escaped in
-- URIs, and integers read from texts, with the overflow checks of the type.
-- Tests: examples on concrete data.
--
-- A transaction is a function of the database; that others run at the same time is not modelled.
-- The functions that the models call with what the database gave them get it as arguments.
-- Not modelled: the handlers of requests and of the other jobs, the merging of the rows themselves,
-- the builder of SQL texts, and sip and the rest of simlib, which are input and output for the most
-- part.
pub mod Common
pub mod Sql
pub mod Schema
pub mod Finals
pub mod Db
pub mod Capabilities
pub mod Merging
pub mod JobHandlers
pub mod Judging
pub mod Text
pub mod Tests
pub mod JobServer
