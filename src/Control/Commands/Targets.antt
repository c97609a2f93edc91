-- ===== src/Control/Commands/Targets.antt =====
-- The tasks that `!status` lists and the one that `!stop` or a card means: `StopTarget` and
-- `status_tasks` of core/crates/control/src/commands/mod.rs, `resolve_stop_target` and
-- `resolve_task` of stop.rs.
use aite.Base.{
  if◌then◌else◌, keep, find, any, sort_by, String, Bool, true, false, not, Option, none, some, List,
  [], ◌∷◌, ◌++◌, ◌==◌,
}
use aite.Base.Exec.{after, ok, pure, ◌>>=◌}
use aite.Contracts.Session.{Session, Task, is_active, is_terminal}
use aite.Control.Dispatch.{steer_key}
use aite.Control.Plane.{Act, on_db}
use aite.Control.Sessions.{filled_text}
use aite.Control.Words.{normalize_task_no}
use aite.Store.{get_session, get_task, list_active_tasks}

pub data StopTarget : Type 0 where
  stoppable delivering : Task → StopTarget
  none_active : StopTarget
  ambiguous : List Task → StopTarget
  not_found : StopTarget

unfoldable pub of_existing : Task → StopTarget
of_existing task = if is_active task.status then stoppable task else delivering task

unfoldable pub target_of : Option Task → StopTarget
unfolding of_existing
target_of none = not_found
target_of (some task) = of_existing task

-- A task that is running and not listed is added, if it is stored, has not ended and is of the
-- chat; a task that is not stored is passed over.
abbrev is_in_chat : String → Option Session → Bool
is_in_chat chat_id none = false
is_in_chat chat_id (some s) = s.chat_id == chat_id

abbrev add_if : Bool → Task → List Task
add_if true task = task ∷ []
add_if false task = []

abbrev unended : String → Option Task → Act (List Task)
unended chat_id none = pure []
unended chat_id (some task) = if is_terminal task.status then pure [] else (do
  session ← on_db (get_session task.session_id)
  pure (add_if (is_in_chat chat_id session) task))

unfoldable pub running_tasks : String → List String → Act (List Task)
unfolding on_db
running_tasks chat_id [] w = (ok [], w)
running_tasks chat_id (id ∷ ids) w = after (on_db (get_task id) w) (λ task v.
    after (unended chat_id task v)
      (λ found u. after (running_tasks chat_id ids u) (λ others. pure (found ++ others))))

abbrev unlisted : List Task → List String → List String
unlisted tasks running = keep (λ id. not (any (λ t. t.id == id) tasks)) running

unfoldable pub status_tasks : String → Act (List Task)
unfolding on_db running_tasks
status_tasks chat_id w = after (on_db (list_active_tasks chat_id) w) (λ tasks v.
    after (running_tasks chat_id (unlisted tasks v.shared.running) v)
      (λ extra. pure (sort_by steer_key (tasks ++ extra))))

abbrev pub of_count : List Task → StopTarget
of_count [] = none_active
of_count (t ∷ []) = of_existing t
of_count (t ∷ u ∷ tasks) = ambiguous (t ∷ u ∷ tasks)

-- Which of the listed tasks `!stop` means.
unfoldable pub pick_stop_target : List Task → String → StopTarget
unfolding of_existing target_of normalize_task_no
pick_stop_target tasks raw =
    if raw == ""
    then of_count tasks
    else target_of (find (λ t. t.task_no == normalize_task_no raw) tasks)

unfoldable pub resolve_stop_target : String → String → Act StopTarget
unfolding status_tasks pick_stop_target
resolve_stop_target chat_id raw = do tasks ← status_tasks chat_id; pure (pick_stop_target tasks raw)

abbrev has_card : String → Task → Bool
has_card card_id t = elim (filled_text t.card_id) [ none ↦ false | some c ↦ c == card_id ]

unfoldable pub pick_task : List Task → Option String → String → StopTarget
unfolding target_of of_existing
pick_task tasks task_id card_id = elim (filled_text task_id) [
  | some id ↦ target_of (find (λ t. t.id == id) tasks)
  | none ↦ target_of (find (has_card card_id) tasks)
]

unfoldable pub resolve_task : String → Option String → String → Act StopTarget
unfolding status_tasks pick_task
resolve_task chat_id task_id card_id = do
  tasks ← status_tasks chat_id
  pure (pick_task tasks task_id card_id)
