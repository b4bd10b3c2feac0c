-- ===== src/Tests/OfContests.antt =====
-- Examples for `Capabilities.Contests.Laws`.
use sim_project.Common.{◌≡◌, refl, none, some, true, false, has_value, arith}
use sim_project.Schema.Contests.{Mode}
use sim_project.Capabilities.{Nothing, AtMost}
use sim_project.Capabilities.Contests.{contest_for, contest_entry_token_for, ContestEntryTokenKind}
use sim_project.Capabilities.Contests.Laws.{
  fields, contest_for-needs_view, contest_for-mode_mono, contest_for-public,
  contest_entry_token-agrees,
}
use sim_project.Tests.{normal_session}

contest_for-needs_view_example : Nothing (fields (contest_for normal_session false none))
unfolding contest_for
contest_for-needs_view_example = contest_for-needs_view normal_session false none refl

contest_for-mode_mono_example :
    AtMost
      (fields (contest_for normal_session false (some Mode.contestant)))
      (fields (contest_for normal_session false (some Mode.moderator)))
contest_for-mode_mono_example =
    contest_for-mode_mono normal_session false (some Mode.contestant) (some Mode.moderator)
      (omega arith)

contest_for-public_example :
    let private = contest_for normal_session false none in
    let public = contest_for normal_session true none in
    AtMost (fields private) (fields public)
    × (public ≡ record private {
      node = record (private.node) {
        view = true;
        view_my_submissions = has_value normal_session;
        view_ranking = true;
      };
      files = record (private.files) { view = true };
    })
contest_for-public_example = contest_for-public normal_session none

contest_entry_token-agrees_example :
    let contest = contest_for normal_session false (some Mode.owner) in
    let token =
      contest_entry_token_for ContestEntryTokenKind.short normal_session contest
        (some Mode.owner) in
    (token.view ≡ contest.entry_tokens.view)
    × (token.create ≡ token.view)
    × (token.regenerate ≡ token.view)
    × (token.delete_ ≡ token.view)
    × (token.view ≡ contest.node.edit)
contest_entry_token-agrees_example =
    contest_entry_token-agrees ContestEntryTokenKind.short normal_session false (some Mode.owner)
