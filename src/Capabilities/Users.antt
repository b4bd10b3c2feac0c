-- ===== src/Capabilities/Users.antt =====
-- capabilities/users.cc and logs.cc
pub mod Laws
use sim_project.Common.{ℕ, Bool, true, false, ◌&&◌, ◌||◌, ◌==◌, not, has_value, Option, none, some}
use sim_project.Schema.Users.{Session, UserType, sim_root_id}
use sim_project.Capabilities.{is_admin, is_teacher, is_self, is_admin_type, is_teacher_type}

pub record UsersCapabilities : Type 0 where
  pub web_ui_view : Bool
  pub add_user : Bool
  pub add_admin : Bool
  pub add_teacher : Bool
  pub add_normal_user : Bool
  pub sign_in : Bool
  pub sign_up : Bool
  pub sign_out : Bool

unfoldable pub users : Option Session → UsersCapabilities
unfolding is_admin is_self
users session = record {
  web_ui_view = is_admin session;
  add_user = is_admin session;
  add_admin = is_self session sim_root_id;
  add_teacher = is_admin session;
  add_normal_user = is_admin session;
  sign_in = true;
  sign_up = true;
  sign_out = has_value session;
}

pub record UsersListCapabilities : Type 0 where
  pub query_all : Bool
  pub query_with_type_admin : Bool
  pub query_with_type_teacher : Bool
  pub query_with_type_normal : Bool
  pub view_all_with_type_admin : Bool
  pub view_all_with_type_teacher : Bool
  pub view_all_with_type_normal : Bool

unfoldable pub list_users : Option Session → UsersListCapabilities
unfolding is_admin
list_users session = record {
  query_all = is_admin session;
  query_with_type_admin = is_admin session;
  query_with_type_teacher = is_admin session;
  query_with_type_normal = is_admin session;
  view_all_with_type_admin = is_admin session;
  view_all_with_type_teacher = is_admin session;
  view_all_with_type_normal = is_admin session;
}

pub record UserCapabilities : Type 0 where
  pub view : Bool
  pub edit : Bool
  pub edit_username : Bool
  pub edit_first_name : Bool
  pub edit_last_name : Bool
  pub edit_email : Bool
  pub change_password : Bool
  pub change_password_without_old_password : Bool
  pub change_type : Bool
  pub make_admin : Bool
  pub make_teacher : Bool
  pub make_normal : Bool
  pub delete_ : Bool
  pub merge_into_another_user : Bool
  pub merge_someone_into_this_user : Bool

unfoldable pub is_normal_type : UserType → Bool
is_normal_type UserType.admin = false
is_normal_type UserType.teacher = false
is_normal_type UserType.normal = true

unfoldable pub user : Option Session → ℕ → UserType → UserCapabilities
unfolding is_admin is_teacher is_self is_admin_type is_teacher_type is_normal_type
user session user_id user_type =
    let is_admin' = is_admin session in
    let is_teacher' = is_teacher session in
    let is_self' = is_self session user_id in
    let is_root = user_id == sim_root_id in
    let edit = is_self' || (is_admin' && not is_root) in
    let make_admin = is_self session sim_root_id || (edit && is_admin_type user_type) in
    let make_teacher = not is_root && (is_admin' || (edit && is_teacher_type user_type)) in
    let make_normal =
      not is_root
      && (is_admin' || (is_teacher' && is_self') || (edit && is_normal_type user_type)) in
    record {
      view = is_self' || is_admin';
      edit = edit;
      edit_username = is_self' || (is_admin' && not is_root);
      edit_first_name = is_self' || (is_admin' && not is_root);
      edit_last_name = is_self' || (is_admin' && not is_root);
      edit_email = is_self' || (is_admin' && not is_root);
      change_password = is_self' || (is_admin' && not is_root);
      change_password_without_old_password = not is_self' && is_admin' && not is_root;
      change_type = make_admin || make_teacher || make_normal;
      make_admin = make_admin;
      make_teacher = make_teacher;
      make_normal = make_normal;
      delete_ = not is_root && (is_self' || is_admin');
      merge_into_another_user = not is_root && is_admin';
      merge_someone_into_this_user = not is_root;
    }

pub record LogsCapabilities : Type 0 where
  pub view : Bool

unfoldable pub logs_for : Option Session → LogsCapabilities
unfolding is_admin
logs_for session = record { view = is_admin session }
