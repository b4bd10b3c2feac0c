-- ===== src/Tests/OfUsers.antt =====
-- Examples for `Capabilities.Users.Laws`.
use sim_project.Common.{◌≡◌, ◌⊎◌, true, false, not, ◌==◌, refl}
use sim_project.Schema.Users.{UserType, sim_root_id}
use sim_project.Capabilities.{Nothing, is_admin, is_teacher, is_self}
use sim_project.Capabilities.Users.{user, users}
use sim_project.Capabilities.Users.Laws.{
  fields, own_fields, user-needs_view, user-root_protected, user-only_root_makes_admins,
  user-no_escalation,
}
use sim_project.Tests.{normal_session, session_of}

user-needs_view_example :
    Nothing (fields (user normal_session 8 UserType.normal))
    × ((user (session_of 2 UserType.admin) 8 UserType.normal).merge_someone_into_this_user
        ≡ not (8 == sim_root_id))
unfolding user is_self
user-needs_view_example =
    user-needs_view normal_session 8 UserType.normal (session_of 2 UserType.admin) (λ e. cc) refl

user-root_protected_example :
    let c = user (session_of 2 UserType.admin) sim_root_id UserType.admin in
    (c.delete_ ≡ false)
    × (c.merge_into_another_user ≡ false)
    × (c.merge_someone_into_this_user ≡ false)
    × (c.make_teacher ≡ false)
    × (c.make_normal ≡ false)
    × (c.change_password_without_old_password ≡ false)
    × (c.edit ≡ is_self (session_of 2 UserType.admin) sim_root_id)
    × (c.change_password ≡ is_self (session_of 2 UserType.admin) sim_root_id)
user-root_protected_example = user-root_protected (session_of 2 UserType.admin) UserType.admin

user-only_root_makes_admins_example :
    ((user (session_of 2 UserType.admin) 7 UserType.normal).make_admin
      ≡ is_self (session_of 2 UserType.admin) sim_root_id)
    × ((users (session_of 2 UserType.admin)).add_admin
        ≡ (user (session_of 2 UserType.admin) 7 UserType.normal).make_admin)
user-only_root_makes_admins_example =
    user-only_root_makes_admins (session_of 2 UserType.admin) 7 UserType.normal (λ e. cc)

user-no_escalation_example :
    let session = session_of 7 UserType.teacher in
    let c = user session 8 UserType.normal in
    (is_self session 8 ≡ false
      → Nothing (own_fields c)
        × (c.make_admin ≡ is_self session sim_root_id)
        × (c.change_type ≡ c.make_admin))
    × (c.merge_someone_into_this_user ≡ not (8 == sim_root_id))
    × (c.merge_into_another_user ≡ false)
    × (c.change_password_without_old_password ≡ false)
    × (c.make_teacher ≡ true → UserType.normal ≡ UserType.teacher)
    × (c.make_admin ≡ true
        → (UserType.normal ≡ UserType.admin) ⊎ (is_self session sim_root_id ≡ true))
    × (c.make_normal ≡ true → (UserType.normal ≡ UserType.normal) ⊎ (is_teacher session ≡ true))
unfolding is_admin
user-no_escalation_example =
    user-no_escalation (session_of 7 UserType.teacher) 8 UserType.normal refl
