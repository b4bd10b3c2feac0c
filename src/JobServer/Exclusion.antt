-- ===== src/JobServer/Exclusion.antt =====
-- Jobs that run at the same time share no lock, also if a running job is cancelled and restarted.
use sim_project.Common.{
  ℕ, ◌≡◌, refl, sym, ap, ◌∙◌, true, false, ◌==◌, ==_iff, Bool-cases, List, [], ◌∷◌, Option, none,
  some, ok, In, All, All-at, All-mono, inl, inr, arith, subst,
}
use sim_project.Schema.Jobs.{Job, JobType}
use sim_project.JobServer.Condition.{Condition, evaluate, is_true}
use sim_project.JobServer.Filter.{Entry, condition_of, has_entry, emplace, build_condition}
use sim_project.JobServer.Locks.{Lock, locks_of, are_apart}
use sim_project.JobServer.Collisions.{condition_of-are_apart, is_targeted}
use sim_project.JobServer.Queue.{Task, KeepsTargets, task_of, HasJobKey}

abbrev pub locks : Task → List Lock
locks t = locks_of t.job_type t.job_aux_id t.job_aux_id_2

-- Two tasks work on different things; if they are of one job, they work on nothing that is locked.
abbrev pub Separate : Task → Task → Type 0
Separate t u =
    (are_apart (locks t) (locks u) ≡ true) × (t.job_id ≡ u.job_id → (locks t ≡ []) × (locks u ≡ []))

abbrev pub AllPairs : (Task → Task → Type 0) → List Task → Type 0
AllPairs R [] = Unit
AllPairs R (t ∷ ts) = All (R t) ts × AllPairs R ts

-- A task with locks has its entry in the filter.
abbrev pub Held : List Entry → Task → Option Condition → Type 0
Held filter t none = locks t ≡ []
Held filter t (some c) = In (record { job_id = t.job_id; condition = c }) filter

abbrev pub IsGuarded : List Entry → Task → Type 0
IsGuarded filter t =
    (found : Option Condition) × (condition_of t.job_type t.job_aux_id t.job_aux_id_2 ≡ ok found)
    × Held filter t found

-- Whose an entry is.
abbrev pub IsOf : Entry → Task → Type 0
IsOf e t =
    (t.job_id ≡ e.job_id)
    × (condition_of t.job_type t.job_aux_id t.job_aux_id_2 ≡ ok (some e.condition))

pub record Inv (jobs : List Job) (filter : List Entry) (ts : List Task) : Type 0 where
  pub separate : AllPairs Separate ts
  pub guarded : All (IsGuarded filter) ts
  pub owned : (e : Entry) → In e filter → (t : Task) × In t ts × IsOf e t
  pub targets : All (KeepsTargets jobs) ts
  pub key : HasJobKey jobs

condition_of-is_targeted :
    (t : JobType) (a b : Option ℕ) (found : Option Condition)
    → condition_of t a b ≡ ok found
    → is_targeted t a b ≡ true
unfolding condition_of is_targeted
condition_of-is_targeted _ a b found e = ground arith

pub condition_of-none :
    (t : JobType) (a b : Option ℕ) → condition_of t a b ≡ ok none → locks_of t a b ≡ []
unfolding condition_of locks_of
condition_of-none _ a b e = ground arith

-- A job that adds a condition has a lock, so it does not go together with itself.
pub condition_of-some :
    (t : JobType) (a b : Option ℕ) (c : Condition)
    → condition_of t a b ≡ ok (some c)
    → are_apart (locks_of t a b) (locks_of t a b) ≡ false
unfolding condition_of locks_of
condition_of-some _ a b c e = ground arith

are_apart-nil : (ls : List Lock) → are_apart ls [] ≡ true
are_apart-nil [] = refl
are_apart-nil (l ∷ ls) = are_apart-nil ls

build_condition-In :
    (filter : List Entry) (j : Job) (e : Entry)
    → is_true (evaluate (build_condition filter) j) ≡ true
    → In e filter
    → is_true (evaluate e.condition j) ≡ true
unfolding build_condition evaluate
build_condition-In [] j e h i = elim i [ ]
build_condition-In (x ∷ filter) j e h (inl p) = rw p (ground arith)
build_condition-In (x ∷ filter) j e h (inr i) = build_condition-In filter j e (ground arith) i

has_entry-In :
    (job_id : ℕ) (filter : List Entry)
    → has_entry job_id filter ≡ true
    → (e : Entry) × In e filter × (e.job_id ≡ job_id)
unfolding has_entry
has_entry-In job_id [] h = cc
has_entry-In job_id (x ∷ filter) h = elim (Bool-cases (x.job_id == job_id)) [
  | inl t ↦ (x, inl refl, (==_iff x.job_id job_id).0 t)
  | inr f ↦ let (e, i, q) = has_entry-In job_id filter (ground arith) in (e, inr i, q)
]

pub All-of : {A : Type 0} (P : A → Type 0) (xs : List A) → ((a : A) → In a xs → P a) → All P xs
All-of P [] f = tt
All-of P (x ∷ xs) f = (f x (inl refl), All-of P xs (λ a i. f a (inr i)))

same_locks :
    (t u : Task)
    → t.job_type ≡ u.job_type
    → t.job_aux_id ≡ u.job_aux_id
    → t.job_aux_id_2 ≡ u.job_aux_id_2
    → locks t ≡ locks u
same_locks t u a b c = rw (a, b, c) refl

no_locks : (a b : Option ℕ) → locks_of JobType.add_problem a b ≡ []
unfolding locks_of
no_locks a b = refl

-- A row that passes the filter, with the condition that it would add.
module _ (jobs : List Job) (filter : List Entry) (ts : List Task) (inv : Inv jobs filter ts)
    (j : Job) (i : In j jobs) (pass : is_true (evaluate (build_condition filter) j) ≡ true)
    (added : Option Condition) (valid : condition_of j.type j.aux_id j.aux_id_2 ≡ ok added) where
  apart_by :
      (u : Task) (found : Option Condition)
      → condition_of u.job_type u.job_aux_id u.job_aux_id_2 ≡ ok found
      → Held filter u found
      → are_apart (locks (task_of j)) (locks u) ≡ true
  apart_by u none p h = rw h (are_apart-nil (locks (task_of j)))
  apart_by u (some c) p h =
      sym (
        condition_of-are_apart u.job_type u.job_aux_id u.job_aux_id_2 (some c) j p
          (condition_of-is_targeted j.type j.aux_id j.aux_id_2 added valid))
      ∙ build_condition-In filter j _ pass h

  same_target : (u : Task) → In u ts → j.id ≡ u.job_id → locks (task_of j) ≡ locks u
  same_target u k e =
      let (a, kept) = All-at (KeepsTargets jobs) u ts inv.targets k j i e in
      elim kept [
        | inl p ↦
            rw (a, p) (no_locks j.aux_id j.aux_id_2 ∙ sym (no_locks u.job_aux_id u.job_aux_id_2))
        | inr (b, c) ↦ same_locks (task_of j) u a b c
      ]

  unlocked_by :
      (u : Task)
      → In u ts
      → (found : Option Condition) → condition_of u.job_type u.job_aux_id u.job_aux_id_2 ≡ ok found
      → Held filter u found
      → j.id ≡ u.job_id
      → (locks (task_of j) ≡ []) × (locks u ≡ [])
  unlocked_by u k none p h e = (same_target u k e ∙ h, h)
  unlocked_by u k (some c) p h e =
      let true_here =
        subst (λ l. are_apart l (locks u) ≡ true) (same_target u k e) (apart_by u (some c) p h) in
      let false_here = condition_of-some u.job_type u.job_aux_id u.job_aux_id_2 c p in absurd (cc)

  new-Separate : (u : Task) → In u ts → Separate (task_of j) u
  new-Separate u k =
      let (found, p, h) = All-at (IsGuarded filter) u ts inv.guarded k in
      (apart_by u found p h, unlocked_by u k found p h)

  no_entry : has_entry j.id filter ≡ false
  no_entry = elim (Bool-cases (has_entry j.id filter)) [
    | inr f ↦ f
    | inl t ↦
        let (e, k, q) = has_entry-In j.id filter t in
        let (u, l, (m, c)) = inv.owned e k in
        let (a, b) = (new-Separate u l).1 (sym q ∙ sym m) in
        let false_here = condition_of-some u.job_type u.job_aux_id u.job_aux_id_2 e.condition c in
        absurd (let wrong : true ≡ false = rw b at false_here in cc)
  ]

  -- The entries that were there stay.
  Held-emplace :
      (u : Task) (found : Option Condition)
      → Held filter u found
      → Held (emplace j.id added filter) u found
  unfolding emplace
  Held-emplace u none h = h
  Held-emplace u (some c) h = kept added h
    where
      kept :
          (a : Option Condition)
          → In (record { job_id = u.job_id; condition = c }) filter
          → In (record { job_id = u.job_id; condition = c }) (emplace j.id a filter)
      kept none k = k
      kept (some d) k = rw no_entry (inr k)

  new-Held : (a : Option Condition) → added ≡ a → Held (emplace j.id a filter) (task_of j) a
  unfolding emplace
  new-Held none e = condition_of-none j.type j.aux_id j.aux_id_2 (valid ∙ ap ok e)
  new-Held (some c) e = rw no_entry (inl refl)

  owned_after :
      (a : Option Condition)
      → added ≡ a
      → (e : Entry) → In e (emplace j.id a filter)
      → (t : Task) × In t (task_of j ∷ ts) × IsOf e t
  unfolding emplace
  owned_after none q e k = let (t, l, o) = inv.owned e k in (t, inr l, o)
  owned_after (some c) q e k = go (rw no_entry at k)
    where
      go :
          In e (record { job_id = j.id; condition = c } ∷ filter)
          → (t : Task) × In t (task_of j ∷ ts) × IsOf e t
      go (inl p) = (task_of j, inl refl, rw p (refl, valid ∙ ap ok q))
      go (inr l) = let (t, m, o) = inv.owned e l in (t, inr m, o)

  pub picked-Inv : Inv jobs (emplace j.id added filter) (task_of j ∷ ts)
  picked-Inv = record {
    separate = (All-of (Separate (task_of j)) ts new-Separate, inv.separate);
    guarded = (
      (added, valid, new-Held added refl),
      All-mono (IsGuarded filter) (IsGuarded (emplace j.id added filter))
          (λ u (found, p, h). (found, p, Held-emplace u found h)) ts inv.guarded,
    );
    owned = owned_after added refl;
    targets = (
      (λ k l e.
          let same = inv.key k j l i e in
          (
            ap (λ (n : Job). n.type) same,
            inr (ap (λ (n : Job). n.aux_id) same, ap (λ (n : Job). n.aux_id_2) same),
          )),
      inv.targets,
    );
    key = inv.key;
  }
