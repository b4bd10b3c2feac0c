-- ===== src/Capabilities/Users/Laws.antt =====
-- Who may change an account; the root account, number 1, is protected.
use sim_project.Common.{
  ℕ, ◌≡◌, ◌≢◌, ◌⊎◌, Bool, true, false, not, ◌==◌, Option, List, [], ◌∷◌, arith,
}
use sim_project.Schema.Users.{Session, UserType, sim_root_id}
use sim_project.Capabilities.{Nothing, is_admin, is_teacher, is_self}
use sim_project.Capabilities.Users.{user, users, UserCapabilities}

-- The fields of the struct but `change_type`, `make_admin` and `merge_someone_into_this_user`.
abbrev pub own_fields : UserCapabilities → List Bool
own_fields c =
    c.view ∷ c.edit ∷ c.edit_username ∷ c.edit_first_name ∷ c.edit_last_name ∷ c.edit_email
    ∷ c.change_password ∷ c.change_password_without_old_password ∷ c.make_teacher ∷ c.make_normal
    ∷ c.delete_ ∷ c.merge_into_another_user ∷ []

-- The fields of the struct but `merge_someone_into_this_user`.
abbrev pub fields : UserCapabilities → List Bool
fields c =
    c.view ∷ c.edit ∷ c.edit_username ∷ c.edit_first_name ∷ c.edit_last_name ∷ c.edit_email
    ∷ c.change_password ∷ c.change_password_without_old_password ∷ c.change_type ∷ c.make_admin
    ∷ c.make_teacher ∷ c.make_normal ∷ c.delete_ ∷ c.merge_into_another_user ∷ []

-- Let the root account, if the session is of it, be an administrator. Who may not view an account
-- may do nothing with it, but for `merge_someone_into_this_user`: that one is granted to `anybody`,
-- a session of any user as well as none, on every account but root.
pub user-needs_view :
    (session : Option Session) (user_id : ℕ) (user_type : UserType) (anybody : Option Session)
    → (is_self session sim_root_id ≡ true → is_admin session ≡ true)
    → (user session user_id user_type).view ≡ false
    → Nothing (fields (user session user_id user_type))
      × ((user anybody user_id user_type).merge_someone_into_this_user
          ≡ not (user_id == sim_root_id))
unfolding user
user-needs_view session user_id user_type anybody r h = (ground arith, ground arith)

-- Nobody, root included, may delete or merge the root account or make it a teacher or a normal
-- user, and only root may edit it or change its password.
pub user-root_protected :
    (session : Option Session) (user_type : UserType)
    → let c = user session sim_root_id user_type in
      (c.delete_ ≡ false)
      × (c.merge_into_another_user ≡ false)
      × (c.merge_someone_into_this_user ≡ false)
      × (c.make_teacher ≡ false)
      × (c.make_normal ≡ false)
      × (c.change_password_without_old_password ≡ false)
      × (c.edit ≡ is_self session sim_root_id)
      × (c.change_password ≡ is_self session sim_root_id)
unfolding user
user-root_protected session user_type = (
  ground arith,
  ground arith,
  ground arith,
  ground arith,
  ground arith,
  ground arith,
  ground arith,
  ground arith,
)

-- Only root makes a new administrator, of an existing account as of a new one: whoever may make an
-- administrator of an account that is none is root.
pub user-only_root_makes_admins :
    (session : Option Session) (user_id : ℕ) (user_type : UserType)
    → user_type ≢ UserType.admin
    → ((user session user_id user_type).make_admin ≡ is_self session sim_root_id)
      × ((users session).add_admin ≡ (user session user_id user_type).make_admin)
unfolding user users
user-only_root_makes_admins session user_id user_type h = (ground arith, ground arith)

-- Who is not an administrator, by the session or for want of one, has no capability on an account
-- other than the own one, but for these: `merge_someone_into_this_user` on every account but root,
-- the own one included; and, exactly if the session is of the root account, `make_admin` and
-- `change_type`. On no account, the own one included, do they have `merge_into_another_user` or
-- `change_password_without_old_password`; `make_teacher` only on a teacher's account; `make_admin`
-- only on an administrator's account or with root's session; and `make_normal` only on a normal
-- user's account or with a teacher's session.
pub user-no_escalation :
    (session : Option Session) (user_id : ℕ) (user_type : UserType)
    → is_admin session ≡ false
    → let c = user session user_id user_type in
      (is_self session user_id ≡ false
        → Nothing (own_fields c)
          × (c.make_admin ≡ is_self session sim_root_id)
          × (c.change_type ≡ c.make_admin))
      × (c.merge_someone_into_this_user ≡ not (user_id == sim_root_id))
      × (c.merge_into_another_user ≡ false)
      × (c.change_password_without_old_password ≡ false)
      × (c.make_teacher ≡ true → user_type ≡ UserType.teacher)
      × (c.make_admin ≡ true → (user_type ≡ UserType.admin) ⊎ (is_self session sim_root_id ≡ true))
      × (c.make_normal ≡ true → (user_type ≡ UserType.normal) ⊎ (is_teacher session ≡ true))
unfolding user
user-no_escalation session user_id user_type h = (
  λ o. (ground arith, ground arith, ground arith),
  ground arith,
  ground arith,
  ground arith,
  λ e. ground arith,
  λ e. ground arith,
  λ e. ground arith,
)
