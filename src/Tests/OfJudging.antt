-- ===== src/Tests/OfJudging.antt =====
-- Examples for `Judging`: a report with one group, after which the transaction fails once.
use sim_project.Common.{◌≡◌, some, [], ◌∷◌, pos, ◌+ℤ◌, Bytes, bytes, Result, arith, true}
use sim_project.Schema.Submissions
use sim_project.Judging.{
  TestStatus, Test, JudgeReport, Captured, Verdict, calculate_submission_status,
  process_judge_report,
}
use sim_project.Judging.Status.{Deserves, tests_of, calculate_submission_status-Deserves}
use sim_project.Judging.Retry.{sum, times, combined, process_judge_report-final}

abbrev test : TestStatus → Test
test status = record {
  name = bytes "1a";
  status = status;
  runtime = 5;
  time_limit = 10;
  memory_consumed = 1;
  memory_limit = 2;
  comment = [];
}

abbrev report : JudgeReport
report = record {
  groups =
      record {
        tests = test TestStatus.ok ∷ test TestStatus.wa ∷ [];
        score = pos 60;
        max_score = pos 100;
      }
      ∷ [];
  judge_log = [];
}

abbrev captured : Captured
captured = record {
  initial_report = some [];
  initial_score = pos 10;
  initial_status = Submissions.Status.ok;
}

abbrev shown : JudgeReport → Bytes
shown r = r.judge_log

calculate_submission_status-Deserves_example :
    Deserves (tests_of report.groups) Submissions.Status.wa
unfolding calculate_submission_status
calculate_submission_status-Deserves_example = calculate_submission_status-Deserves report

-- The score is 60 and, after one deadlock, 10 twice.
process_judge_report-final_example :
    (verdict : Verdict) × (process_judge_report [] shown captured report true 1
      ≡ Result.ok (captured, verdict))
    × (verdict.score ≡ some (sum report.groups +ℤ times 2 captured.initial_score))
    × (verdict.initial_status ≡ captured.initial_status)
    × (verdict.full_status ≡ combined captured.initial_status (calculate_submission_status report))
process_judge_report-final_example =
    process_judge_report-final [] shown captured report 1 (omega arith)
