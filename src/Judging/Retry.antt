-- ===== src/Judging/Retry.antt =====
-- The score and the status that are stored in the end, with and without deadlocks.
use sim_project.Common.{
  ℕ, zero, suc, ◌≤◌, ◌≡◌, refl, sym, ap, ◌∙◌, true, ◌&&◌, not, if◌then◌else◌, some, List, [], ◌∷◌,
  ℤ, pos, ◌+ℤ◌, +ℤ_assoc, +ℤ_comm, +ℤ_zero, Bytes, Result, arith,
}
use sim_project.Schema.Submissions
use sim_project.Judging.{
  JudgeReport, Group, Captured, Locals, Verdict, attempt, attempt_final, deadlocked,
  repeat_if_deadlocked, process_judge_report, calculate_submission_status, score_from, is_ok,
  is_judge_error,
}

-- The sum of the scores of the groups.
abbrev pub sum : List Group → ℤ
sum [] = pos 0
sum (g ∷ gs) = g.score +ℤ sum gs

-- The same number, n times.
abbrev pub times : ℕ → ℤ → ℤ
times zero a = pos 0
times (suc n) a = a +ℤ times n a

times-suc : (n : ℕ) (a : ℤ) → times n a +ℤ a ≡ times (suc n) a
times-suc n a = +ℤ_comm (times n a) a

score_from-sum : (a : ℤ) (gs : List Group) → score_from a gs ≡ a +ℤ sum gs
unfolding score_from
score_from-sum a [] = sym (+ℤ_zero a)
score_from-sum a (g ∷ gs) = score_from-sum (a +ℤ g.score) gs ∙ +ℤ_assoc a g.score (sum gs)

-- What is stored with a final report: the initial status where it is a failure, unless the checker failed.
abbrev pub combined : Submissions.Status → Submissions.Status → Submissions.Status
combined initial final =
    if not (is_ok initial) && not (is_judge_error final) then initial else final

module _ (moved_from : Bytes) where
  -- After n deadlocks the score holds the initial score n times; the status is combined already.
  deadlocked-score :
      (n : ℕ) (l : Locals)
      → ((deadlocked moved_from n true l).score ≡ l.score +ℤ times n l.captured.initial_score)
        × ((deadlocked moved_from n true l).captured ≡ l.captured)
        × (combined l.captured.initial_status (deadlocked moved_from n true l).status
            ≡ combined l.captured.initial_status l.status)
  unfolding deadlocked attempt_final
  deadlocked-score zero l = (sym (+ℤ_zero l.score), refl, refl)
  deadlocked-score (suc n) l =
      let (a, b, c) = deadlocked-score n (attempt_final moved_from l).0 in
      (
        a ∙ +ℤ_assoc l.score l.captured.initial_score (times n l.captured.initial_score),
        b,
        c ∙ ground arith,
      )

  -- What one call ends with after the deadlocks: the variables that it keeps, and the verdict.
  verdict_after : ℕ → Locals → Verdict
  unfolding deadlocked attempt_final
  verdict_after n l = (attempt_final moved_from (deadlocked moved_from n true l)).1

  retried :
      (n : ℕ) (l : Locals)
      → n ≤ 128
      → repeat_if_deadlocked moved_from 128 n true l
        ≡ Result.ok (attempt_final moved_from (deadlocked moved_from n true l))
  unfolding repeat_if_deadlocked attempt
  retried n l h = ground arith

  verdict_after-score :
      (n : ℕ) (l : Locals)
      → (verdict_after n l).score ≡ some (l.score +ℤ times (suc n) l.captured.initial_score)
  unfolding verdict_after attempt_final
  verdict_after-score n l =
      let (a, b, c) = deadlocked-score n l in
      rw (a, b)
        (ap (λ (x : ℤ). some x)
          (+ℤ_assoc l.score (times n l.captured.initial_score) l.captured.initial_score
            ∙ ap (λ (x : ℤ). l.score +ℤ x) (times-suc n l.captured.initial_score)))

  -- Let the transaction that stores a final report end in a deadlock `deadlocks` times, at most 128,
  -- before it succeeds. The score that it then stores is the sum over the groups of the final report,
  -- and the score of the initial report once for every attempt: once if there is no deadlock, and
  -- twice or more often after one. The status is the initial one where that is a failure and the
  -- checker did not fail, else the final one. What was captured stays.
  pub process_judge_report-final :
      (report_text : JudgeReport → Bytes) (captured : Captured) (report : JudgeReport)
      (deadlocks : ℕ)
      → deadlocks ≤ 128
      → (verdict : Verdict) × (process_judge_report moved_from report_text captured report true
            deadlocks
          ≡ Result.ok (captured, verdict))
        × (verdict.score ≡ some (sum report.groups +ℤ times (suc deadlocks) captured.initial_score))
        × (verdict.initial_status ≡ captured.initial_status)
        × (verdict.full_status
            ≡ combined captured.initial_status (calculate_submission_status report))
  unfolding process_judge_report verdict_after attempt_final
  process_judge_report-final report_text captured report deadlocks h =
      let l0 : Locals = record {
        captured = captured;
        report = report_text report;
        status = calculate_submission_status report;
        score = score_from (pos 0) report.groups;
      } in
      let (a, b, c) = deadlocked-score deadlocks l0 in
      (
        verdict_after deadlocks l0,
        rw (retried deadlocks l0 h)
            (ap (λ (k : Captured). Result.ok (k, verdict_after deadlocks l0)) b),
        verdict_after-score deadlocks l0
            ∙ ap (λ (x : ℤ). some (x +ℤ times (suc deadlocks) captured.initial_score))
                (score_from-sum (pos 0) report.groups
                  ∙ +ℤ_comm (pos 0) (sum report.groups)
                  ∙ +ℤ_zero (sum report.groups)),
        ap (λ (k : Captured). k.initial_status) b,
        rw b c,
      )
