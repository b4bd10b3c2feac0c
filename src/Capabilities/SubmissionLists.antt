-- ===== src/Capabilities/SubmissionLists.antt =====
-- capabilities/submissions.cc: which lists of submissions a session may query.
pub mod Views
use sim_project.Common.{ℕ, Bool, false, ◌&&◌, ◌||◌, has_value, Option, none, some, Bytes, at_least}
use sim_project.Schema.Users.{Session}
use sim_project.Schema.Problems.{Visibility}
use sim_project.Schema.Contests.{Mode}
use sim_project.Capabilities.{is_admin, is_self, is_self_opt, at_least_moderates_contest}
use sim_project.Capabilities.Problems.{problem}

pub record SubmissionsCapabilities : Type 0 where
  pub web_ui_view : Bool

unfoldable pub submissions : Option Session → SubmissionsCapabilities
submissions session = record { web_ui_view = has_value session }

pub record SubmissionsListCapabilities : Type 0 where
  pub query_all : Bool
  pub query_with_type_final : Bool
  pub query_with_type_problem_final : Bool
  pub query_with_type_contest_problem_final : Bool
  pub query_with_type_ignored : Bool
  pub query_with_type_problem_solution : Bool
  pub query_with_status_judge_error : Bool

unfoldable pub list_submissions : Option Session → SubmissionsListCapabilities
unfolding is_admin
list_submissions session = record {
  query_all = is_admin session;
  query_with_type_final = is_admin session;
  query_with_type_problem_final = is_admin session;
  query_with_type_contest_problem_final = is_admin session;
  query_with_type_ignored = is_admin session;
  query_with_type_problem_solution = is_admin session;
  query_with_status_judge_error = is_admin session;
}

pub record UserSubmissionsListCapabilities : Type 0 where
  pub query_all : Bool
  pub query_with_type_final : Bool
  pub query_with_type_problem_final : Bool
  pub query_with_type_contest_problem_final : Bool
  pub query_with_type_ignored : Bool

unfoldable pub list_user_submissions : Option Session → ℕ → UserSubmissionsListCapabilities
unfolding is_admin is_self
list_user_submissions session user_id = record {
  query_all = is_self session user_id || is_admin session;
  query_with_type_final = is_admin session;
  query_with_type_problem_final = is_admin session;
  query_with_type_contest_problem_final = is_admin session;
  query_with_type_ignored = is_self session user_id || is_admin session;
}

unfoldable pub list_problem_submissions : Option Session → Option ℕ → SubmissionsListCapabilities
unfolding is_admin is_self_opt
list_problem_submissions session problem_owner_id =
    let owns_problem = is_self_opt session problem_owner_id in
    record {
      query_all = is_admin session || owns_problem;
      query_with_type_final = is_admin session || owns_problem;
      query_with_type_problem_final = is_admin session || owns_problem;
      query_with_type_contest_problem_final = is_admin session || owns_problem;
      query_with_type_ignored = is_admin session || owns_problem;
      query_with_type_problem_solution = is_admin session || owns_problem;
      query_with_status_judge_error = false;
    }

unfoldable pub list_problem_and_user_submissions :
    Option Session → Visibility → Option ℕ → ℕ → UserSubmissionsListCapabilities
unfolding is_self problem list_problem_submissions
list_problem_and_user_submissions session problem_visibility problem_owner_id user_id =
    let lists = list_problem_submissions session problem_owner_id in
    let caps = problem session problem_visibility problem_owner_id in
    record {
      query_all = lists.query_all || (caps.view && is_self session user_id);
      query_with_type_final = lists.query_with_type_final;
      query_with_type_problem_final =
          lists.query_with_type_problem_final || (caps.view && is_self session user_id);
      query_with_type_contest_problem_final = lists.query_with_type_contest_problem_final;
      query_with_type_ignored =
          lists.query_with_type_ignored || (caps.view && is_self session user_id);
    }

pub record ContestSubmissionsListCapabilities : Type 0 where
  pub query_all : Bool
  pub query_with_type_contest_problem_final : Bool
  pub query_with_type_ignored : Bool

unfoldable pub list_contest_submissions :
    Option Session → Option Mode → ContestSubmissionsListCapabilities
unfolding is_admin at_least_moderates_contest
list_contest_submissions session mode = record {
  query_all = is_admin session || at_least_moderates_contest mode;
  query_with_type_contest_problem_final = is_admin session || at_least_moderates_contest mode;
  query_with_type_ignored = is_admin session || at_least_moderates_contest mode;
}

pub record ContestAndUserSubmissionsListCapabilities : Type 0 where
  pub query_all : Bool
  pub query_with_type_contest_problem_final : Bool
  pub query_with_type_contest_problem_final_always_show_full_results : Bool
  pub query_with_type_ignored : Bool

unfoldable pub list_contest_and_user_submissions :
    Option Session → Option Mode → ℕ → ContestAndUserSubmissionsListCapabilities
unfolding is_self list_contest_submissions
list_contest_and_user_submissions session mode user_id =
    let caps = list_contest_submissions session mode in
    record {
      query_all = caps.query_all || is_self session user_id;
      query_with_type_contest_problem_final =
          caps.query_with_type_contest_problem_final || is_self session user_id;
      query_with_type_contest_problem_final_always_show_full_results =
          caps.query_with_type_contest_problem_final;
      query_with_type_ignored = caps.query_with_type_ignored || is_self session user_id;
    }

pub record ContestRoundAndUserSubmissionsListCapabilities : Type 0 where
  pub query_all : Bool
  pub query_with_type_contest_problem_final : Bool
  pub query_with_type_contest_problem_final_show_full_instead_of_initial_results : Bool
  pub query_with_type_ignored : Bool

unfoldable pub list_contest_round_and_user_submissions :
    Option Session
    → Option Mode
    → ℕ
    → Bytes
    → Bytes
    → ContestRoundAndUserSubmissionsListCapabilities
unfolding list_contest_and_user_submissions
list_contest_round_and_user_submissions session mode user_id full_results curr_datetime =
    let caps = list_contest_and_user_submissions session mode user_id in
    record {
      query_all = caps.query_all;
      query_with_type_contest_problem_final = caps.query_with_type_contest_problem_final;
      query_with_type_contest_problem_final_show_full_instead_of_initial_results =
          caps.query_with_type_contest_problem_final_always_show_full_results
          || at_least curr_datetime full_results;
      query_with_type_ignored = caps.query_with_type_ignored;
    }
