-- ===== src/Capabilities/Submissions/Laws.antt =====
-- What the capabilities of one submission promise, and how they fit the lists of submissions.
use sim_project.Common.{
  ℕ, ◌≡◌, ◌≢◌, Bool, true, false, Option, none, some, List, [], ◌∷◌, arith, Bytes, less, at_least,
  at_least_trans,
}
use sim_project.Schema.Users.{Session}
use sim_project.Schema.Problems.{Visibility}
use sim_project.Schema.Contests.{Mode, FinalChoice, ScoreRevealing}
use sim_project.Schema.Submissions.{SubmissionType}
use sim_project.Capabilities.{Nothing, AtMost, is_admin, is_self_opt, at_least_moderates_contest}
use sim_project.Capabilities.Submissions.{submission, results_are_out, SubmissionCapabilities}

-- All the fields of the struct.
abbrev pub fields : SubmissionCapabilities → List Bool
fields c =
    c.view ∷ c.view_initial_status ∷ c.view_full_status ∷ c.view_initial_judgement_protocol
    ∷ c.view_full_judgement_protocol ∷ c.view_score ∷ c.view_if_problem_final
    ∷ c.view_if_contest_problem_initial_final ∷ c.view_if_contest_problem_final ∷ c.download
    ∷ c.change_type ∷ c.rejudge ∷ c.delete_ ∷ c.view_related_jobs ∷ []

-- Results that are out stay out.
results_mono :
    (full_results : Option Bytes) (now later : Bytes)
    → at_least later now ≡ true
    → results_are_out full_results now ≡ true
    → results_are_out full_results later ≡ true
unfolding results_are_out
results_mono none now later h o = cc
results_mono (some full_results) now later h o = at_least_trans later now full_results h o

module _ (session : Option Session) (user_id : Option ℕ) (type : SubmissionType)
    (visibility : Visibility) (owner_id : Option ℕ) (mode : Option Mode) where
  -- Who may not view a submission may do nothing with it.
  pub submission-needs_view :
      (full_results : Option Bytes) (method : Option FinalChoice)
      (revealing : Option ScoreRevealing) (now : Bytes)
      → (submission session user_id type visibility owner_id mode full_results method revealing
          now).view
        ≡ false
      → Nothing (
          fields (
            submission session user_id type visibility owner_id mode full_results method revealing
              now))
  unfolding submission
  submission-needs_view full_results method revealing now h = ground arith

  -- Whoever sees the full judgement protocol sees the score and the full status, whoever sees
  -- either of these sees the initial status; who may delete may rejudge.
  pub submission_levels :
      (full_results : Option Bytes) (method : Option FinalChoice)
      (revealing : Option ScoreRevealing) (now : Bytes)
      → let c =
          submission session user_id type visibility owner_id mode full_results method revealing
            now in
        (c.view_full_judgement_protocol ≡ true
          → (c.view_score ≡ true) × (c.view_full_status ≡ true))
        × (c.view_full_status ≡ true → c.view_initial_status ≡ true)
        × (c.view_score ≡ true → c.view_initial_status ≡ true)
        × (c.delete_ ≡ true → c.rejudge ≡ true)
  unfolding submission
  submission_levels full_results method revealing now =
      (λ h. (ground arith, ground arith), λ h. ground arith, λ h. ground arith, λ h. ground arith)

  -- Let the session be of no administrator, problem owner or moderator of the contest, and the
  -- full results of the contest round be due later than now. Then the full judgement protocol is
  -- hidden; the full status shows only if the contest problem reveals it; the score only if it
  -- reveals the score; and the final submission only if the latest one is chosen or both are revealed.
  pub submission_secrets :
      (full_results : Bytes) (method : Option FinalChoice) (revealing : Option ScoreRevealing)
      (now : Bytes)
      → is_admin session ≡ false
      → is_self_opt session owner_id ≡ false
      → at_least_moderates_contest mode ≡ false
      → less now full_results ≡ true
      → let c =
          submission session user_id type visibility owner_id mode
            (some full_results)
            method
            revealing
            now in
        (c.view_full_judgement_protocol ≡ false)
        × (c.view_full_status ≡ true → revealing ≡ some ScoreRevealing.score_and_full_status)
        × (c.view_score ≡ true → (revealing ≢ none) × (revealing ≢ some ScoreRevealing.none))
        × (c.view_if_contest_problem_final ≡ true
            → method ≢ some FinalChoice.latest_compiling
            → revealing ≡ some ScoreRevealing.score_and_full_status)
  unfolding submission results_are_out
  submission_secrets full_results method revealing now a o m l = (
    ground arith,
    λ h. ground arith,
    λ h. (λ e. ground arith, λ e. ground arith),
    λ h n. ground arith,
  )

  -- As time goes by nothing that could be seen or done before is taken away.
  pub submission-time_mono :
      (full_results : Option Bytes) (method : Option FinalChoice)
      (revealing : Option ScoreRevealing) (now later : Bytes)
      → at_least later now ≡ true
      → AtMost
          (fields (
            submission session user_id type visibility owner_id mode full_results method revealing
              now))
          (fields (
            submission session user_id type visibility owner_id mode full_results method revealing
              later))
  unfolding submission
  submission-time_mono full_results method revealing now later h =
      ground (arith, results_mono full_results now later h)
