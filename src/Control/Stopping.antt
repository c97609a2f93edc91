-- ===== src/Control/Stopping.antt =====
-- The task that `!stop` means.
use aite.Base.{
  All, length, find, eq-Decides, ◌≤◌, String, ◌≡◌, refl, ap, ◌≢◌, ◌⊎◌, inl, inr, List, [], ◌∷◌,
  ◌++◌, arith, ◌==◌,
}
use aite.Contracts.Phases.{IsActive, is_active-Decides}
use aite.Contracts.Session.{Task}
use aite.Control.Commands.Targets.{
  StopTarget, ambiguous, delivering, none_active, not_found, of_count, of_existing,
  pick_stop_target, stoppable, target_of,
}
use aite.Control.Words.{normalize_task_no}

-- What is done about one task.
abbrev pub Stops : Task → StopTarget → Type 0
Stops t target =
    (IsActive t.status × (target ≡ stoppable t)) ⊎ (¬ IsActive t.status × (target ≡ delivering t))

-- The first listed task of this number.
abbrev pub IsFirst : String → List Task → Task → Type 0
IsFirst task_no tasks t =
    (before : List Task) × (behind : List Task) × (tasks ≡ before ++ t ∷ behind)
    × All (λ u. u.task_no ≢ task_no) before
    × (t.task_no ≡ task_no)

abbrev pub PicksAlone : List Task → StopTarget → Type 0
PicksAlone tasks target =
    ((tasks ≡ []) × (target ≡ none_active))
    ⊎ (((t : Task) × (tasks ≡ t ∷ []) × Stops t target)
        ⊎ ((2 ≤ length tasks) × (target ≡ ambiguous tasks)))

abbrev pub PicksNumbered : List Task → String → StopTarget → Type 0
PicksNumbered tasks task_no target =
    (All (λ u. u.task_no ≢ task_no) tasks × (target ≡ not_found))
    ⊎ ((t : Task) × IsFirst task_no tasks t × Stops t target)

abbrev pub Picks : List Task → String → StopTarget → Type 0
Picks tasks raw target =
    ((raw ≡ "") × PicksAlone tasks target)
    ⊎ ((raw ≢ "") × PicksNumbered tasks (normalize_task_no raw) target)

of_existing-Stops : (t : Task) → Stops t (of_existing t)
unfolding of_existing
of_existing-Stops t = elim (is_active-Decides t.status) [
  | inl (e, h) ↦ rw e (inl (h, refl))
  | inr (e, n) ↦ rw e (inr (n, refl))
]

of_count-PicksAlone : (tasks : List Task) → PicksAlone tasks (of_count tasks)
of_count-PicksAlone [] = inl (refl, refl)
of_count-PicksAlone (t ∷ []) = inr (inl (t, refl, of_existing-Stops t))
of_count-PicksAlone (t ∷ u ∷ tasks) = inr (inr (omega arith, refl))

cons-PicksNumbered :
    (u : Task) (tasks : List Task) (task_no : String) (target : StopTarget)
    → u.task_no ≢ task_no
    → PicksNumbered tasks task_no target
    → PicksNumbered (u ∷ tasks) task_no target
cons-PicksNumbered u tasks task_no target n (inl (h, e)) = inl ((n, h), e)
cons-PicksNumbered u tasks task_no target n (inr (t, (before, behind, e, h, m), s)) =
    inr (t, (u ∷ before, behind, ap (λ ts. u ∷ ts) e, (n, h), m), s)

find-PicksNumbered :
    (tasks : List Task) (task_no : String)
    → PicksNumbered tasks task_no (target_of (find (λ t. t.task_no == task_no) tasks))
unfolding target_of
find-PicksNumbered [] task_no = inl (tt, refl)
find-PicksNumbered (t ∷ tasks) task_no = elim (eq-Decides t.task_no task_no) [
  | inl (e, h) ↦ rw e (inr (t, ([], tasks, refl, tt, h), of_existing-Stops t))
  | inr (e, n) ↦ rw e (
      cons-PicksNumbered t tasks task_no (target_of (find (λ u. u.task_no == task_no) tasks)) n
        (find-PicksNumbered tasks task_no))
]

-- What `!stop` picks of the listed tasks. Without a number: nothing if no task is listed; the one
-- task if one is listed; and if more are, it is ambiguous, with all of them. With a number, in its
-- normal form: not found if no listed task has it, otherwise the first listed task that has. A task
-- that is picked is to be stopped if it is created, planning or working, and else it is being
-- delivered.
pub pick_stop_target-Picks :
    (tasks : List Task) (raw : String) → Picks tasks raw (pick_stop_target tasks raw)
unfolding pick_stop_target
pick_stop_target-Picks tasks raw = elim (eq-Decides raw "") [
  | inl (e, h) ↦ rw e (inl (h, of_count-PicksAlone tasks))
  | inr (e, n) ↦ rw e (inr (n, find-PicksNumbered tasks (normalize_task_no raw)))
]
