-- ===== src/Capabilities/Contests.antt =====
-- capabilities/contest.cc, contests.cc and contest_entry_token.cc
pub mod Laws
use sim_project.Common.{
  ℕ, Bool, true, false, ◌&&◌, ◌||◌, ◌==◌, has_value, Option, none, some, Result, sql_error,
}
use sim_project.Sql.{find_where}
use sim_project.Db.{Db}
use sim_project.Schema.Users.{Session}
use sim_project.Schema.Contests.{Mode, Contest, ContestUser}
use sim_project.Capabilities.{is_admin, is_teacher, at_least_moderates_contest}

pub record ContestNode : Type 0 where
  pub view : Bool
  pub edit : Bool
  pub delete_ : Bool
  pub view_my_submissions : Bool
  pub view_all_submissions : Bool
  pub view_final_submissions : Bool
  pub view_ranking : Bool
  pub view_fully_revealed_ranking : Bool

pub record ContestFiles : Type 0 where
  pub view : Bool
  pub view_creator : Bool
  pub add : Bool

pub record ContestUsers : Type 0 where
  pub view : Bool
  pub add_owner : Bool
  pub add_moderator : Bool
  pub add_contestant : Bool

pub record EntryTokens : Type 0 where
  pub view : Bool

pub record ContestCapabilities : Type 0 where
  pub node : ContestNode
  pub make_public : Bool
  pub make_private : Bool
  pub change_name : Bool
  pub view_all_rounds : Bool
  pub add_round : Bool
  pub view_all_problems : Bool
  pub files : ContestFiles
  pub users : ContestUsers
  pub entry_tokens : EntryTokens

-- `contest_user_mode == ContestUser::Mode::OWNER`
unfoldable pub is_owner : Option Mode → Bool
is_owner none = false
is_owner (some Mode.owner) = true
is_owner (some Mode.moderator) = false
is_owner (some Mode.contestant) = false

-- `is_one_of(contest_user_mode, OWNER, MODERATOR)` is `at_least_moderates_contest`.
unfoldable pub contest_for : Option Session → Bool → Option Mode → ContestCapabilities
unfolding is_admin at_least_moderates_contest is_owner
contest_for session contest_is_public mode =
    let is_contest_moderator = is_admin session || at_least_moderates_contest mode in
    let has_access = is_admin session || contest_is_public || has_value mode in
    record {
      node = record {
        view = has_access;
        edit = is_contest_moderator;
        delete_ = is_admin session || is_owner mode;
        view_my_submissions = has_access && has_value session;
        view_all_submissions = is_contest_moderator;
        view_final_submissions = is_contest_moderator;
        view_ranking = has_access;
        view_fully_revealed_ranking = is_contest_moderator;
      };
      make_public = is_admin session;
      make_private = is_contest_moderator;
      change_name = is_contest_moderator;
      view_all_rounds = is_contest_moderator;
      add_round = is_contest_moderator;
      view_all_problems = is_contest_moderator;
      files = record {
        view = has_access;
        view_creator = is_contest_moderator;
        add = is_contest_moderator;
      };
      users = record {
        view = is_contest_moderator;
        add_owner = is_admin session || is_owner mode;
        add_moderator = is_contest_moderator;
        add_contestant = is_contest_moderator;
      };
      entry_tokens = record { view = is_contest_moderator };
    }

-- The overload that reads the contest from the database. With a session its statement begins with
-- `SELECT SELECT c.is_public`, since `Select` writes the first word itself, and the database refuses
-- it.
unfoldable pub contest_for_id :
    Option Session → ℕ → Db → Result (Option (ContestCapabilities × Option Mode))
contest_for_id none contest_id db =
    Result.ok (elim (find_where (λ c. c.id == contest_id) db.contests) [
      | none ↦ none
      | some c ↦ some (contest_for none c.is_public none, none)
    ])
contest_for_id (some s) contest_id db = Result.threw sql_error

pub record ContestsCapabilities : Type 0 where
  pub web_ui_view : Bool
  pub view_all : Bool
  pub view_public : Bool
  pub add_private : Bool
  pub add_public : Bool

unfoldable pub contests_for : Option Session → ContestsCapabilities
unfolding is_admin is_teacher
contests_for session = record {
  web_ui_view = true;
  view_all = is_admin session;
  view_public = true;
  add_private = is_admin session || is_teacher session;
  add_public = is_admin session;
}

pub data ContestEntryTokenKind : Type 0 where
  normal short : ContestEntryTokenKind

pub record ContestEntryTokenCapabilities : Type 0 where
  pub view : Bool
  pub create : Bool
  pub regenerate : Bool
  pub delete_ : Bool
  pub use_ : Bool
  pub view_contest_name : Bool

-- Both kinds take the one branch of the switch.
unfoldable pub contest_entry_token_for :
    ContestEntryTokenKind
    → Option Session
    → ContestCapabilities
    → Option Mode
    → ContestEntryTokenCapabilities
unfolding is_admin at_least_moderates_contest
contest_entry_token_for kind session caps_contest mode =
    let is_contest_moderator =
      caps_contest.node.view && (is_admin session || at_least_moderates_contest mode) in
    record {
      view = is_contest_moderator;
      create = is_contest_moderator;
      regenerate = is_contest_moderator;
      delete_ = is_contest_moderator;
      use_ = has_value session;
      view_contest_name = true;
    }
