-- ===== src/Capabilities/Problems/Laws.antt =====
-- Who may see and change a problem.
use sim_project.Common.{ℕ, ◌≡◌, ◌≤◌, Bool, false, Option, some, List, [], ◌∷◌, arith}
use sim_project.Schema.Users.{Session, UserType}
use sim_project.Schema.Problems.{Visibility}
use sim_project.Capabilities.{Nothing, AtMost, rank}
use sim_project.Capabilities.Problems.{problem, ProblemCapabilities}

-- All the fields of the struct.
abbrev pub fields : ProblemCapabilities → List Bool
fields c =
    c.view ∷ c.view_statement ∷ c.view_public_tags ∷ c.view_hidden_tags ∷ c.view_solutions
    ∷ c.view_simfile ∷ c.view_owner ∷ c.view_creation_time ∷ c.view_update_time
    ∷ c.view_final_submission_full_status ∷ c.download ∷ c.create_submission ∷ c.edit ∷ c.reupload
    ∷ c.rejudge_all_submissions ∷ c.reset_time_limits ∷ c.delete_ ∷ c.merge_into_another_problem
    ∷ c.merge_other_problem_into_this_problem ∷ []

-- Who may not view a problem may do nothing with it.
pub problem-needs_view :
    (session : Option Session) (visibility : Visibility) (owner_id : Option ℕ)
    → (problem session visibility owner_id).view ≡ false
    → Nothing (fields (problem session visibility owner_id))
unfolding problem
problem-needs_view session visibility owner_id h = ground arith

-- How far a problem is visible.
abbrev pub width : Visibility → ℕ
width Visibility.private = 0
width Visibility.contest_only = 1
width Visibility.public = 2

-- Showing a problem more widely takes no capability from anybody.
pub problem-visibility_mono :
    (session : Option Session) (v w : Visibility) (owner_id : Option ℕ)
    → width v ≤ width w
    → AtMost (fields (problem session v owner_id)) (fields (problem session w owner_id))
unfolding problem
problem-visibility_mono session v w owner_id h = ground arith

-- A session of the same user with a higher type of account has every capability of the lower one.
pub problem-rank_mono :
    (s : Session) (type : UserType) (visibility : Visibility) (owner_id : Option ℕ)
    → rank s.user_type ≤ rank type
    → AtMost
        (fields (problem (some s) visibility owner_id))
        (fields (problem (some (record s { user_type = type })) visibility owner_id))
unfolding problem rank
problem-rank_mono s type visibility owner_id h = ground arith
