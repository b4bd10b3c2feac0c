-- ===== src/Capabilities/Contests/Laws.antt =====
-- What membership in a contest gives.
use sim_project.Common.{
  ℕ, ◌≡◌, ◌≤◌, Bool, true, false, has_value, Option, none, some, List, [], ◌∷◌, arith,
}
use sim_project.Schema.Users.{Session}
use sim_project.Schema.Contests.{Mode}
use sim_project.Capabilities.{Nothing, AtMost}
use sim_project.Capabilities.Contests.{
  contest_for, ContestCapabilities, contest_entry_token_for, ContestEntryTokenKind,
}

-- All the fields of the struct, nested ones included.
abbrev pub fields : ContestCapabilities → List Bool
fields c =
    c.node.view ∷ c.node.edit ∷ c.node.delete_ ∷ c.node.view_my_submissions
    ∷ c.node.view_all_submissions ∷ c.node.view_final_submissions ∷ c.node.view_ranking
    ∷ c.node.view_fully_revealed_ranking ∷ c.make_public ∷ c.make_private ∷ c.change_name
    ∷ c.view_all_rounds ∷ c.add_round ∷ c.view_all_problems ∷ c.files.view ∷ c.files.view_creator
    ∷ c.files.add ∷ c.users.view ∷ c.users.add_owner ∷ c.users.add_moderator
    ∷ c.users.add_contestant ∷ c.entry_tokens.view ∷ []

-- Who has no access to a contest may do nothing in it.
pub contest_for-needs_view :
    (session : Option Session) (is_public : Bool) (mode : Option Mode)
    → (contest_for session is_public mode).node.view ≡ false
    → Nothing (fields (contest_for session is_public mode))
unfolding contest_for
contest_for-needs_view session is_public mode h = ground arith

-- How much a user takes part in a contest.
abbrev pub standing : Option Mode → ℕ
standing none = 0
standing (some Mode.contestant) = 1
standing (some Mode.moderator) = 2
standing (some Mode.owner) = 3

-- A higher mode in a contest takes no capability away.
pub contest_for-mode_mono :
    (session : Option Session) (is_public : Bool) (mode mode' : Option Mode)
    → standing mode ≤ standing mode'
    → AtMost
        (fields (contest_for session is_public mode))
        (fields (contest_for session is_public mode'))
unfolding contest_for
contest_for-mode_mono session is_public mode mode' h = ground arith

-- Making a contest public takes no capability from anybody, and gives to nobody any but those to
-- look at the contest, its ranking and its files, and one's own submissions.
pub contest_for-public :
    (session : Option Session) (mode : Option Mode)
    → let private = contest_for session false mode in
      let public = contest_for session true mode in
      AtMost (fields private) (fields public)
      × (public ≡ record private {
        node = record (private.node) {
          view = true;
          view_my_submissions = has_value session;
          view_ranking = true;
        };
        files = record (private.files) { view = true };
      })
unfolding contest_for
contest_for-public session mode = (ground arith, ground arith)

-- The page of a contest shows its entry tokens to exactly those to whom the tokens' own capabilities
-- do. Each of creating, regenerating and deleting tokens is allowed to exactly those who are shown
-- them, and these are exactly those who may edit the contest.
pub contest_entry_token-agrees :
    (kind : ContestEntryTokenKind) (session : Option Session) (is_public : Bool)
    (mode : Option Mode)
    → let contest = contest_for session is_public mode in
      let token = contest_entry_token_for kind session contest mode in
      (token.view ≡ contest.entry_tokens.view)
      × (token.create ≡ token.view)
      × (token.regenerate ≡ token.view)
      × (token.delete_ ≡ token.view)
      × (token.view ≡ contest.node.edit)
unfolding contest_for contest_entry_token_for
contest_entry_token-agrees kind session is_public mode =
    (ground arith, ground arith, ground arith, ground arith, ground arith)
