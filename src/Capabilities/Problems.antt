-- ===== src/Capabilities/Problems.antt =====
-- capabilities/problems.cc
pub mod Laws
use sim_project.Common.{ℕ, Bool, true, false, ◌&&◌, ◌||◌, has_value, Option, none, some}
use sim_project.Schema.Users.{Session}
use sim_project.Schema.Problems.{Visibility}
use sim_project.Capabilities.{is_admin, is_teacher, is_self, is_self_opt}

pub record ProblemsCapabilities : Type 0 where
  pub web_ui_view : Bool
  pub add_problem : Bool
  pub add_problem_with_visibility_private : Bool
  pub add_problem_with_visibility_contest_only : Bool
  pub add_problem_with_visibility_public : Bool

unfoldable pub problems : Option Session → ProblemsCapabilities
unfolding is_admin is_teacher
problems session = record {
  web_ui_view = true;
  add_problem = is_admin session || is_teacher session;
  add_problem_with_visibility_private = is_admin session || is_teacher session;
  add_problem_with_visibility_contest_only = is_admin session || is_teacher session;
  add_problem_with_visibility_public = is_admin session;
}

pub record ProblemsListCapabilities : Type 0 where
  pub query_all : Bool
  pub query_with_visibility_public : Bool
  pub query_with_visibility_contest_only : Bool
  pub query_with_visibility_private : Bool
  pub view_all_with_visibility_public : Bool
  pub view_all_with_visibility_contest_only : Bool
  pub view_all_with_visibility_private : Bool

unfoldable pub list_user_problems : Option Session → ℕ → ProblemsListCapabilities
unfolding is_admin is_self
list_user_problems session user_id = record {
  query_all = is_self session user_id || is_admin session;
  query_with_visibility_public = is_self session user_id || is_admin session;
  query_with_visibility_contest_only = is_self session user_id || is_admin session;
  query_with_visibility_private = is_self session user_id || is_admin session;
  view_all_with_visibility_public = is_self session user_id || is_admin session;
  view_all_with_visibility_contest_only = is_self session user_id || is_admin session;
  view_all_with_visibility_private = is_self session user_id || is_admin session;
}

-- `session && list_user_problems(session, session->user_id).f`
abbrev of_own_list : Option Session → (ProblemsListCapabilities → Bool) → Bool
of_own_list none f = false
of_own_list (some s) f = f (list_user_problems (some s) s.user_id)

unfoldable pub list_problems : Option Session → ProblemsListCapabilities
unfolding is_admin is_teacher list_user_problems
list_problems session = record {
  query_all = true;
  query_with_visibility_public = true;
  query_with_visibility_contest_only =
      is_admin session
      || is_teacher session
      || of_own_list session (λ c. c.query_with_visibility_contest_only);
  query_with_visibility_private =
      is_admin session
      || is_teacher session
      || of_own_list session (λ c. c.query_with_visibility_private);
  view_all_with_visibility_public = true;
  view_all_with_visibility_contest_only = is_admin session || is_teacher session;
  view_all_with_visibility_private = is_admin session;
}

pub record ProblemCapabilities : Type 0 where
  pub view : Bool
  pub view_statement : Bool
  pub view_public_tags : Bool
  pub view_hidden_tags : Bool
  pub view_solutions : Bool
  pub view_simfile : Bool
  pub view_owner : Bool
  pub view_creation_time : Bool
  pub view_update_time : Bool
  pub view_final_submission_full_status : Bool
  pub download : Bool
  pub create_submission : Bool
  pub edit : Bool
  pub reupload : Bool
  pub rejudge_all_submissions : Bool
  pub reset_time_limits : Bool
  pub delete_ : Bool
  pub merge_into_another_problem : Bool
  pub merge_other_problem_into_this_problem : Bool

unfoldable pub is_public : Visibility → Bool
is_public Visibility.public = true
is_public Visibility.private = false
is_public Visibility.contest_only = false

unfoldable pub is_contest_only : Visibility → Bool
is_contest_only Visibility.public = false
is_contest_only Visibility.private = false
is_contest_only Visibility.contest_only = true

unfoldable pub problem : Option Session → Visibility → Option ℕ → ProblemCapabilities
unfolding is_admin is_teacher is_self_opt is_public is_contest_only
problem session visibility owner_id =
    let is_owned = is_self_opt session owner_id in
    let public = is_public visibility in
    let contest_only = is_contest_only visibility in
    let view = public || is_owned || is_admin session || (is_teacher session && contest_only) in
    record {
      view = view;
      view_statement = view;
      view_public_tags = view;
      view_hidden_tags = view && (is_admin session || is_teacher session || is_owned);
      view_solutions = is_admin session || is_owned || (is_teacher session && public);
      view_simfile =
          is_admin session || is_owned || (is_teacher session && (public || contest_only));
      view_owner = is_admin session || is_owned || (is_teacher session && (public || contest_only));
      view_creation_time =
          is_admin session || is_owned || (is_teacher session && (public || contest_only));
      view_update_time =
          is_admin session || is_owned || (is_teacher session && (public || contest_only));
      view_final_submission_full_status = view && has_value session;
      download = is_admin session || is_owned || (is_teacher session && public);
      create_submission = view && has_value session;
      edit = is_admin session || is_owned;
      reupload = is_admin session || is_owned;
      rejudge_all_submissions = is_admin session || is_owned;
      reset_time_limits = is_admin session || is_owned;
      delete_ = is_admin session || is_owned;
      merge_into_another_problem = is_admin session || is_owned;
      merge_other_problem_into_this_problem = is_admin session || is_owned;
    }
