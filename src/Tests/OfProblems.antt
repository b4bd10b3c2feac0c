-- ===== src/Tests/OfProblems.antt =====
-- Examples for `Capabilities.Problems.Laws`.
use sim_project.Common.{refl, some, arith}
use sim_project.Schema.Users.{UserType}
use sim_project.Schema.Problems.{Visibility}
use sim_project.Capabilities.{Nothing, AtMost, rank}
use sim_project.Capabilities.Problems.{problem}
use sim_project.Capabilities.Problems.Laws.{
  fields, problem-needs_view, problem-visibility_mono, problem-rank_mono,
}
use sim_project.Tests.{normal_session, account, session_of}

problem-needs_view_example : Nothing (fields (problem normal_session Visibility.private (some 2)))
unfolding problem
problem-needs_view_example = problem-needs_view normal_session Visibility.private (some 2) refl

problem-visibility_mono_example :
    AtMost
      (fields (problem normal_session Visibility.private (some 2)))
      (fields (problem normal_session Visibility.public (some 2)))
problem-visibility_mono_example =
    problem-visibility_mono normal_session Visibility.private Visibility.public (some 2)
      (omega arith)

problem-rank_mono_example :
    AtMost
      (fields (problem normal_session Visibility.contest_only (some 2)))
      (fields (problem (session_of 7 UserType.teacher) Visibility.contest_only (some 2)))
unfolding rank
problem-rank_mono_example =
    problem-rank_mono (account 7 UserType.normal) UserType.teacher Visibility.contest_only (some 2)
      (omega arith)
