-- ===== src/Capabilities.antt =====
-- What a session may do: subprojects/sim/src/web_server/capabilities, utils.hh first. A capability
-- struct is a record of Booleans, and each function of the directory a definition of the same name.
pub mod Problems
pub mod Submissions
pub mod SubmissionLists
pub mod Contests
pub mod Users
pub mod Jobs
use sim_project.Common.{ℕ, ◌≡◌, Bool, true, false, ◌==◌, Option, none, some, List, [], ◌∷◌, All}
use sim_project.Schema.Users.{Session, UserType}
use sim_project.Schema.Contests.{Mode}

unfoldable pub is_admin_type : UserType → Bool
is_admin_type UserType.admin = true
is_admin_type UserType.teacher = false
is_admin_type UserType.normal = false

unfoldable pub is_teacher_type : UserType → Bool
is_teacher_type UserType.admin = false
is_teacher_type UserType.teacher = true
is_teacher_type UserType.normal = false

unfoldable pub is_admin : Option Session → Bool
unfolding is_admin_type
is_admin none = false
is_admin (some s) = is_admin_type s.user_type

unfoldable pub is_teacher : Option Session → Bool
unfolding is_teacher_type
is_teacher none = false
is_teacher (some s) = is_teacher_type s.user_type

unfoldable pub is_self : Option Session → ℕ → Bool
is_self none user_id = false
is_self (some s) user_id = s.user_id == user_id

-- The overload for a user that may be missing, such as a problem's owner.
unfoldable pub is_self_opt : Option Session → Option ℕ → Bool
unfolding is_self
is_self_opt session none = false
is_self_opt session (some user_id) = is_self session user_id

-- submissions.cc, and the lambda of the same name in jobs.cc.
unfoldable pub at_least_moderates_contest : Option Mode → Bool
at_least_moderates_contest none = false
at_least_moderates_contest (some Mode.owner) = true
at_least_moderates_contest (some Mode.moderator) = true
at_least_moderates_contest (some Mode.contestant) = false

-- The rank of an account's type: an administrator may do what a teacher may, and so on.
unfoldable pub rank : UserType → ℕ
rank UserType.normal = 0
rank UserType.teacher = 1
rank UserType.admin = 2

-- A list of capabilities in which nothing is allowed.
abbrev pub Nothing : List Bool → Type 0
Nothing = All (λ b. b ≡ false)

-- Whatever the first list allows, the second does too.
abbrev pub AtMost : List Bool → List Bool → Type 0
AtMost [] [] = Unit
AtMost (a ∷ as') [] = ⊥
AtMost [] (b ∷ bs) = ⊥
AtMost (a ∷ as') (b ∷ bs) = (a ≡ true → b ≡ true) × AtMost as' bs
