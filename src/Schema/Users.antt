-- ===== src/Schema/Users.antt =====
-- users/user.hh: accounts, and the session of a request (web_server/web_worker/context.hh).
use sim_project.Common.{ℕ, Bytes}

pub data UserType : Type 0 where
  admin teacher normal : UserType

pub UserType-discrete : Discrete UserType
UserType-discrete = hlevel

-- The number that the database keeps for a type, by which types are compared.
unfoldable pub UserType_code : UserType → ℕ
UserType_code UserType.admin = 0
UserType_code UserType.teacher = 1
UserType_code UserType.normal = 2

pub record User : Type 0 where
  pub id : ℕ
  pub created_at : Bytes
  pub type : UserType
  pub username : Bytes
  pub first_name : Bytes
  pub last_name : Bytes
  pub email : Bytes
  pub password_salt : Bytes
  pub password_hash : Bytes

abbrev pub sim_root_id : ℕ
sim_root_id = 1

pub record Session : Type 0 where
  pub id : Bytes
  pub csrf_token : Bytes
  pub user_id : ℕ
  pub user_type : UserType
  pub username : Bytes
  pub content : Bytes
  pub orig_content : Bytes

-- sessions/session.hh: a row of the sessions' table.
pub record SessionRow : Type 0 where
  pub id : Bytes
  pub csrf_token : Bytes
  pub user_id : ℕ
  pub content : Bytes
  pub user_agent : Bytes
  pub expires : Bytes
