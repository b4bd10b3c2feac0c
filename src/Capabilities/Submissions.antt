-- ===== src/Capabilities/Submissions.antt =====
-- capabilities/submissions.cc: what a session may see of one submission and do with it.
pub mod Laws
use sim_project.Common.{
  ℕ, Bool, true, false, ◌&&◌, ◌||◌, not, has_value, Option, none, some, Bytes, at_least,
}
use sim_project.Schema.Users.{Session}
use sim_project.Schema.Problems.{Visibility}
use sim_project.Schema.Contests.{Mode, FinalChoice, ScoreRevealing}
use sim_project.Schema.Submissions.{SubmissionType}
use sim_project.Capabilities.{is_admin, is_self_opt, at_least_moderates_contest}
use sim_project.Capabilities.Problems.{problem}

pub record SubmissionCapabilities : Type 0 where
  pub view : Bool
  pub view_initial_status : Bool
  pub view_full_status : Bool
  pub view_initial_judgement_protocol : Bool
  pub view_full_judgement_protocol : Bool
  pub view_score : Bool
  pub view_if_problem_final : Bool
  pub view_if_contest_problem_initial_final : Bool
  pub view_if_contest_problem_final : Bool
  pub download : Bool
  pub change_type : Bool
  pub rejudge : Bool
  pub delete_ : Bool
  pub view_related_jobs : Bool

-- The lambda of `reveal_score`.
unfoldable pub reveals_score : Option ScoreRevealing → Bool
reveals_score none = false
reveals_score (some ScoreRevealing.none) = false
reveals_score (some ScoreRevealing.only_score) = true
reveals_score (some ScoreRevealing.score_and_full_status) = true

-- The lambda of `reveal_full_status`.
unfoldable pub reveals_full_status : Option ScoreRevealing → Bool
reveals_full_status none = false
reveals_full_status (some ScoreRevealing.none) = false
reveals_full_status (some ScoreRevealing.only_score) = false
reveals_full_status (some ScoreRevealing.score_and_full_status) = true

-- The lambda of `contest_problem_final_visible_before_full_results`.
unfoldable pub final_visible_early : Option FinalChoice → Bool → Bool → Bool
final_visible_early none reveal_score reveal_full_status = false
final_visible_early (some FinalChoice.latest_compiling) reveal_score reveal_full_status = true
final_visible_early (some FinalChoice.highest_score) reveal_score reveal_full_status =
    reveal_score && reveal_full_status

unfoldable pub may_change_type_or_delete : SubmissionType → Bool
may_change_type_or_delete SubmissionType.normal = true
may_change_type_or_delete SubmissionType.ignored = true
may_change_type_or_delete SubmissionType.problem_solution = false

-- `curr_datetime >= *full_results`, which is read only where there is a contest round.
unfoldable pub results_are_out : Option Bytes → Bytes → Bool
results_are_out none curr_datetime = false
results_are_out (some full_results) curr_datetime = at_least curr_datetime full_results

unfoldable pub submission :
    Option Session
    → Option ℕ
    → SubmissionType
    → Visibility
    → Option ℕ
    → Option Mode
    → Option Bytes
    → Option FinalChoice
    → Option ScoreRevealing
    → Bytes
    → SubmissionCapabilities
unfolding is_admin is_self_opt at_least_moderates_contest problem reveals_score reveals_full_status
    final_visible_early may_change_type_or_delete
submission session user_id type visibility owner_id mode full_results method revealing now =
    let moderates = at_least_moderates_contest mode in
    let owns_submission = is_self_opt session user_id in
    let owns_problem = is_self_opt session owner_id in
    let is_contest_submission = has_value full_results in
    let reveal_score = reveals_score revealing in
    let reveal_full_status = reveals_full_status revealing in
    let final_early = final_visible_early method reveal_score reveal_full_status in
    let may_change = may_change_type_or_delete type in
    let out = results_are_out full_results now in
    record {
      view = is_admin session || owns_problem || moderates || owns_submission;
      view_initial_status = is_admin session || owns_problem || moderates || owns_submission;
      view_full_status =
          is_admin session
          || owns_problem
          || moderates
          || (owns_submission && (not is_contest_submission || reveal_full_status || out));
      view_initial_judgement_protocol =
          is_admin session || owns_problem || moderates || owns_submission;
      view_full_judgement_protocol =
          is_admin session
          || owns_problem
          || moderates
          || (owns_submission && (not is_contest_submission || out));
      view_score =
          is_admin session
          || owns_problem
          || moderates
          || (owns_submission && (not is_contest_submission || reveal_score || out));
      view_if_problem_final =
          is_admin session
          || owns_problem
          || (owns_submission && (problem session visibility owner_id).view);
      view_if_contest_problem_initial_final =
          is_contest_submission
          && (is_admin session || owns_problem || moderates || owns_submission);
      view_if_contest_problem_final =
          is_contest_submission
          && (is_admin session
              || owns_problem
              || moderates
              || (owns_submission && (final_early || out)));
      download = is_admin session || owns_problem || moderates || owns_submission;
      change_type = may_change && (is_admin session || owns_problem || moderates);
      rejudge = is_admin session || owns_problem || moderates;
      delete_ = may_change && (is_admin session || owns_problem || moderates);
      view_related_jobs = is_admin session;
    }
