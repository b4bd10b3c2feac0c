-- ===== src/JobHandlers/MergeUsers/Modes.antt =====
-- What a merge of two users makes of their modes in contests.
use sim_project.Common.{
  ℕ, ◌≡◌, ◌≢◌, refl, ap, ◌∙◌, Bool, true, false, ◌==◌, ==_iff, ltb, ◌&&◌, if◌then◌else◌, has_value,
  Bool-cases, Option-cases, keep, List, [], ◌∷◌, Option, none, some, In, inl, inr, arith,
}
use sim_project.Sql.{find_where, delete_where}
use sim_project.Sql.Find.{find_where-cases, find_where-update, find_where-delete}
use sim_project.Schema.Contests.{ContestUser, Mode, Mode_code}
use sim_project.JobHandlers.MergeUsers.{
  has_contest_user, higher_mode, set_mode, raise_modes, insert_ignore, insert_all,
  transfer_contest_users,
}

-- (user_id, contest_id) is the primary key.
abbrev pub HasContestUserKey : List ContestUser → Type 0
HasContestUserKey rows =
    (r s : ContestUser)
    → In r rows
    → In s rows
    → r.user_id ≡ s.user_id
    → r.contest_id ≡ s.contest_id
    → r ≡ s

abbrev mode_in : Option ContestUser → Option Mode
mode_in none = none
mode_in (some r) = some r.mode

-- The mode of a user in a contest, if any.
unfoldable pub mode_of : ℕ → ℕ → List ContestUser → Option Mode
mode_of user contest rows = mode_in (find_where (has_contest_user user contest) rows)

-- The mode that gives more permissions.
unfoldable pub higher : Option Mode → Option Mode → Option Mode
higher none m = m
higher (some d) none = some d
higher (some d) (some m) = if ltb (Mode_code m) (Mode_code d) then some d else some m

module _ (donor target contest : ℕ) (two : donor ≢ target) where
  other_user :
      (r : ContestUser)
      → has_contest_user donor contest r ≡ true
      → has_contest_user target contest r ≡ false
  other_user r t = ground arith

  -- The row of the join is the donor's, if that has the higher mode.
  joined :
      (rows : List ContestUser) (tcu : ContestUser)
      → HasContestUserKey rows
      → tcu.contest_id ≡ contest
      → some (set_mode (higher_mode donor rows tcu) tcu).mode
        ≡ higher (mode_of donor contest rows) (some tcu.mode)
  unfolding higher_mode higher mode_of
  joined rows tcu key e = elim (find_where-cases (has_contest_user donor contest) rows) [
    | inl (p, absent) ↦
        elim (find_where-cases
          (λ dcu.
            (dcu.contest_id == tcu.contest_id)
            && ((dcu.user_id == donor) && ltb (Mode_code tcu.mode) (Mode_code dcu.mode)))
          rows) [
            | inl (q, _) ↦ rw (p, q) refl
            | inr (x, q, i, t) ↦ absurd (ground (arith, absent x i))
          ]
    | inr (d, p, i, t) ↦
        elim (find_where-cases
          (λ dcu.
            (dcu.contest_id == tcu.contest_id)
            && ((dcu.user_id == donor) && ltb (Mode_code tcu.mode) (Mode_code dcu.mode)))
          rows) [
            | inl (q, absent) ↦ rw (p, q) (ground (arith, absent d i))
            | inr (x, q, j, u) ↦
                let same : x ≡ d = key x d j i (ground arith) (ground arith) in
                rw (p, q, same) (let u' = rw same at u in ground arith)
          ]
  ]

  abbrev is_joined : ContestUser → ContestUser → Bool
  is_joined tcu dcu =
      (dcu.contest_id == tcu.contest_id)
      && ((dcu.user_id == donor) && ltb (Mode_code tcu.mode) (Mode_code dcu.mode))

  raise_keeps :
      (user : ℕ) (rows : List ContestUser) (o : Option ContestUser) (r : ContestUser)
      → has_contest_user user contest (set_mode o r) ≡ has_contest_user user contest r
  raise_keeps user rows none r = refl
  raise_keeps user rows (some d) r = refl

  raised_donor :
      (rows : List ContestUser)
      → mode_of donor contest (raise_modes donor target rows) ≡ mode_of donor contest rows
  unfolding raise_modes mode_of
  raised_donor rows =
      ap mode_in (
        find_where-update (λ tcu. tcu.user_id == target)
          (λ tcu. set_mode (higher_mode donor rows tcu) tcu) (has_contest_user donor contest)
          (λ r. raise_keeps donor rows (higher_mode donor rows r) r) rows)
      ∙ elim (find_where-cases (has_contest_user donor contest) rows) [
        | inl (p, absent) ↦ rw p refl
        | inr (d, p, i, t) ↦ rw p (ground arith)
      ]

  -- What the target has in a contest already.
  at_least : Option Mode → Option Mode → Option Mode
  at_least d none = none
  at_least d (some m) = higher d (some m)

  raised_target :
      (rows : List ContestUser)
      → HasContestUserKey rows
      → mode_of target contest (raise_modes donor target rows)
        ≡ at_least (mode_of donor contest rows) (mode_of target contest rows)
  unfolding raise_modes mode_of at_least
  raised_target rows key =
      ap mode_in (
        find_where-update (λ tcu. tcu.user_id == target)
          (λ tcu. set_mode (higher_mode donor rows tcu) tcu) (has_contest_user target contest)
          (λ r. raise_keeps target rows (higher_mode donor rows r) r) rows)
      ∙ elim (find_where-cases (has_contest_user target contest) rows) [
        | inl (p, absent) ↦ rw p refl
        | inr (r, p, i, t) ↦
            let own : (r.user_id == target) ≡ true = ground arith in
            rw (p, own) (joined rows r key (ground arith))
      ]

  first_of : Option Mode → Option Mode → Option Mode
  first_of none b = b
  first_of (some a) b = some a

  mode_among : List ContestUser → Option Mode
  mode_among ds = mode_in (find_where (λ r. r.contest_id == contest) ds)

  first-none : (o : Option Mode) → o ≡ first_of o none
  unfolding first_of
  first-none none = refl
  first-none (some m) = refl

  inserted_one :
      (d : ContestUser) (rows : List ContestUser)
      → mode_of target contest (insert_ignore (record d { user_id = target }) rows)
        ≡ first_of
            (mode_of target contest rows)
            (if d.contest_id == contest then some d.mode else none)
  unfolding insert_ignore mode_of first_of find_where
  inserted_one d rows = elim (Bool-cases (d.contest_id == contest)) [
    | inr n ↦
        elim (Bool-cases (has_value (find_where (has_contest_user target d.contest_id) rows))) [
          | inl t ↦ rw (t, n) (first-none _)
          | inr f ↦ rw (f, n) (skipped (find_where (has_contest_user target contest) rows))
        ]
    | inl t ↦
        let e : d.contest_id ≡ contest = (==_iff d.contest_id contest).0 t in
        rw (t, e)
          (elim (Option-cases (find_where (has_contest_user target contest) rows)) [
            | inl q ↦ rw q (ap mode_in here)
            | inr (r, q) ↦ rw q (ap mode_in q)
          ])
  ]
    where
      skipped :
          (o : Option ContestUser)
          → mode_in
              (if (target == target) && false then some (record d { user_id = target }) else o)
            ≡ first_of (mode_in o) none
      skipped none = ground arith
      skipped (some r) = ground arith

      abbreviated : ContestUser
      abbreviated = record { user_id = target; contest_id = contest; mode = d.mode }

      here : find_where (has_contest_user target contest) (abbreviated ∷ rows) ≡ some abbreviated
      here = ground arith

  inserted :
      (ds rows : List ContestUser)
      → mode_of target contest (insert_all target ds rows)
        ≡ first_of (mode_of target contest rows) (mode_among ds)
  unfolding insert_all first_of mode_among find_where
  inserted [] rows = first-none _
  inserted (d ∷ ds) rows =
      inserted ds (insert_ignore (record d { user_id = target }) rows)
      ∙ ap (λ (o : Option Mode). first_of o (mode_among ds)) (inserted_one d rows)
      ∙ regroup (mode_of target contest rows) (d.contest_id == contest)
    where
      regroup :
          (o : Option Mode) (t : Bool)
          → first_of (first_of o (if t then some d.mode else none)) (mode_among ds)
            ≡ first_of o
                (mode_in (if t then some d else find_where (λ r. r.contest_id == contest) ds))
      regroup none true = refl
      regroup none false = refl
      regroup (some m) t = refl

  donors_mode :
      (rows : List ContestUser)
      → mode_among (keep (λ r. r.user_id == donor) rows) ≡ mode_of donor contest rows
  unfolding mode_among mode_of keep find_where
  donors_mode [] = refl
  donors_mode (r ∷ rows) = elim (Bool-cases (r.user_id == donor)) [
    | inl t ↦ rw t (elim (Bool-cases (r.contest_id == contest)) [
      | inl c ↦ rw c refl
      | inr n ↦ rw n (donors_mode rows)
    ])
    | inr n ↦ rw n (donors_mode rows)
  ]

  combined : (d m : Option Mode) → first_of (at_least d m) d ≡ higher d m
  unfolding first_of at_least higher
  combined none none = refl
  combined (some a) none = refl
  combined none (some b) = refl
  combined (some a) (some b) = ground arith

  -- After the statements on contest users.
  pub transferred-mode_of :
      (rows : List ContestUser)
      → HasContestUserKey rows
      → mode_of target contest (transfer_contest_users donor target rows)
        ≡ higher (mode_of donor contest rows) (mode_of target contest rows)
  unfolding transfer_contest_users
  transferred-mode_of rows key =
      inserted (keep (λ r. r.user_id == donor) (raise_modes donor target rows))
        (raise_modes donor target rows)
      ∙ rw (donors_mode (raise_modes donor target rows), raised_target rows key, raised_donor rows)
          (combined _ _)

  -- The donor's rows go.
  pub deleted-mode_of :
      (rows : List ContestUser)
      → mode_of target contest (delete_where (λ r. r.user_id == donor) rows)
        ≡ mode_of target contest rows
  unfolding mode_of
  deleted-mode_of rows = ap mode_in (
      find_where-delete (λ r. r.user_id == donor) (λ r. r) (has_contest_user target contest)
        (λ r t. ground arith) rows)
