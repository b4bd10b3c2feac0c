-- ===== src/Tests/OfSubmissions.antt =====
-- Examples for `Capabilities.Submissions.Laws` and `Capabilities.SubmissionLists.Views`: user 7 looks
-- at a submission in a contest.
use sim_project.Common.{less, ◌≡◌, ◌≢◌, refl, ℕ, Option, none, some, true, false, bytes, Bytes}
use sim_project.Schema.Problems.{Visibility}
use sim_project.Schema.Contests.{Mode, FinalChoice, ScoreRevealing}
use sim_project.Schema.Submissions.{SubmissionType}
use sim_project.Capabilities.{Nothing, AtMost, is_admin, is_self_opt, at_least_moderates_contest}
use sim_project.Capabilities.Submissions.{submission, SubmissionCapabilities}
use sim_project.Capabilities.Submissions.Laws.{
  fields, submission-needs_view, submission_levels, submission_secrets, submission-time_mono,
}
use sim_project.Capabilities.SubmissionLists.{
  list_submissions, list_user_submissions, list_problem_submissions,
  list_problem_and_user_submissions, list_contest_submissions, list_contest_and_user_submissions,
  list_contest_round_and_user_submissions,
}
use sim_project.Capabilities.SubmissionLists.Views.{query_all-view, show_full-view_final}
use sim_project.Tests.{normal_session}

abbrev early : Bytes
early = bytes "2024-05-01 11:00:00"

abbrev out : Bytes
out = bytes "2024-05-01 12:00:00"

-- What user 7 may do with a submission of the given user, at the given time.
abbrev seen : Option ℕ → Bytes → SubmissionCapabilities
seen user now =
    submission normal_session user SubmissionType.normal Visibility.private (some 2)
      (some Mode.contestant) (some out) (some FinalChoice.highest_score)
      (some ScoreRevealing.only_score) now

submission-needs_view_example : Nothing (fields (seen (some 8) early))
unfolding submission is_admin is_self_opt at_least_moderates_contest
submission-needs_view_example =
    submission-needs_view normal_session (some 8) SubmissionType.normal Visibility.private (some 2)
      (some Mode.contestant) (some out) (some FinalChoice.highest_score)
      (some ScoreRevealing.only_score) early refl

submission_levels_example :
    let c = seen (some 7) out in
    (c.view_full_judgement_protocol ≡ true → (c.view_score ≡ true) × (c.view_full_status ≡ true))
    × (c.view_full_status ≡ true → c.view_initial_status ≡ true)
    × (c.view_score ≡ true → c.view_initial_status ≡ true)
    × (c.delete_ ≡ true → c.rejudge ≡ true)
submission_levels_example =
    submission_levels normal_session (some 7) SubmissionType.normal Visibility.private (some 2)
      (some Mode.contestant) (some out) (some FinalChoice.highest_score)
      (some ScoreRevealing.only_score) out

submission_secrets_example :
    let c = seen (some 7) early in
    (c.view_full_judgement_protocol ≡ false)
    × (c.view_full_status ≡ true
        → some ScoreRevealing.only_score ≡ some ScoreRevealing.score_and_full_status)
    × (c.view_score ≡ true
        → (some ScoreRevealing.only_score ≢ none)
          × (some ScoreRevealing.only_score ≢ some ScoreRevealing.none))
    × (c.view_if_contest_problem_final ≡ true
        → some FinalChoice.highest_score ≢ some FinalChoice.latest_compiling
        → some ScoreRevealing.only_score ≡ some ScoreRevealing.score_and_full_status)
unfolding is_admin is_self_opt at_least_moderates_contest less
submission_secrets_example =
    submission_secrets normal_session (some 7) SubmissionType.normal Visibility.private (some 2)
      (some Mode.contestant) out (some FinalChoice.highest_score) (some ScoreRevealing.only_score)
      early refl refl refl refl

submission-time_mono_example : AtMost (fields (seen (some 7) early)) (fields (seen (some 7) out))
unfolding less
submission-time_mono_example =
    submission-time_mono normal_session (some 7) SubmissionType.normal Visibility.private (some 2)
      (some Mode.contestant) (some out) (some FinalChoice.highest_score)
      (some ScoreRevealing.only_score) early out refl

query_all-view_example :
    ((list_submissions normal_session).query_all ≡ true → (seen (some 7) early).view ≡ true)
    × ((list_user_submissions normal_session 7).query_all ≡ true
        → (seen (some 7) early).view ≡ true)
    × ((list_problem_submissions normal_session (some 2)).query_all ≡ true
        → (seen (some 7) early).view ≡ true)
    × ((list_problem_and_user_submissions normal_session Visibility.private (some 2) 7).query_all
          ≡ true
        → (seen (some 7) early).view ≡ true)
    × ((list_contest_submissions normal_session (some Mode.contestant)).query_all ≡ true
        → (seen (some 7) early).view ≡ true)
    × ((list_contest_and_user_submissions normal_session (some Mode.contestant) 7).query_all ≡ true
        → (seen (some 7) early).view ≡ true)
query_all-view_example =
    query_all-view normal_session 7 (some 7) SubmissionType.normal Visibility.private (some 2)
      (some Mode.contestant) (some out) (some FinalChoice.highest_score)
      (some ScoreRevealing.only_score) early

show_full-view_final_example : (seen (some 7) out).view_if_contest_problem_final ≡ true
unfolding list_contest_round_and_user_submissions less
show_full-view_final_example =
    show_full-view_final normal_session 7 SubmissionType.normal Visibility.private (some 2)
      (some Mode.contestant) out (some FinalChoice.highest_score) (some ScoreRevealing.only_score)
      out refl refl
