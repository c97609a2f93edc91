-- ===== src/Control/Routing.antt =====
-- core/crates/control/src/routing/mod.rs: the rules R1 to R8, in their order, and `handle_event` of
-- plane.rs. The hooks of features that are switched off (gate, external, mute, resolver, dm and so
-- on) all answer `Flow::Pass`, or none, and are left out. `abandon` is what `abandon_running` and
-- the worker that it signals do; `history` is what `read_history` answers. Times are in microseconds.
use aite.Base.{
  ltb, if◌then◌else◌, keep, render, decimal, ℕ, ◌-◌, ◌/◌, String, Bool, true, false, not, ◌&&◌,
  ◌||◌, Option, none, some, List, [], ◌∷◌, ◌==◌,
}
use aite.Base.Exec.{Result, after, err, ok, pure, ◌>>=◌, ◌>>◌}
use aite.Contracts.Events.{
  CardAction, CardActionKind, ChatType, EventKind, NormalizedEvent, SenderKind, kind_as_str,
}
use aite.Contracts.Evidence.{EvidenceKind}
use aite.Contracts.Session.{Session, Task, TurnRole}
use aite.Control.Commands.{no_such_task_text, on_command, stop_task, stop_while_delivering_text}
use aite.Control.Commands.Targets.{StopTarget, delivering, resolve_task, stoppable}
use aite.Control.Dispatch.{cancel_task_by, steer_target}
use aite.Control.Plane.{
  Act, Env, IngressError, World, ack, append_evidence, bump, has, now, on_db, on_shared, on_world,
  push_steer, reply,
}
use aite.Control.Sessions.{
  HistoryMessage, new_session, or_text, start_task, steer_payload, thread_session,
}
use aite.Control.Sessions.Turns.{append_event_turn}
use aite.Control.Words.{is_command, trim}
use aite.Store.{list_active_tasks, seen_event, update_session}

abbrev note_edit : NormalizedEvent → Option Session → Act Unit
note_edit ev none = pure tt
note_edit ev (some session) =
    append_event_turn session ev TurnRole.system_note (render ("[用户修改了消息] 新内容：" ∷ ev.text ∷ []))

unfoldable pub on_edited : NormalizedEvent → Act Unit
unfolding thread_session append_event_turn bump
on_edited ev = do session ← thread_session ev true; note_edit ev session; bump "events.edited"

unfoldable pub on_non_message : NormalizedEvent → Act Unit
unfolding on_edited bump kind_as_str
on_non_message ev = elim ev.kind [
  | EventKind.message_edited ↦ on_edited ev
  | EventKind.message_deleted ↦ bump "events.deleted"
  | EventKind.message ↦ bump "events.message"
  | EventKind.card_action ↦ bump "events.card_action"
  | EventKind.bot_added ↦ bump "events.bot_added"
  | EventKind.member_changed ↦ bump "events.member_changed"
]

-- The target comes from `resolve_task`; that of a card is never ambiguous.
unfoldable pub stop_card : Env → NormalizedEvent → StopTarget → Act Unit
unfolding reply stop_task stop_while_delivering_text
stop_card env ev (delivering task) = reply ev (stop_while_delivering_text task.task_no)
stop_card env ev (stoppable task) = stop_task env ev task
stop_card env ev _ = reply ev no_such_task_text

unfoldable pub on_card : Env → NormalizedEvent → CardAction → Act Unit
unfolding resolve_task stop_card reply
on_card env ev action = elim action.action [
  | CardActionKind.stop ↦ (do
    target ← resolve_task ev.chat_id action.task_id action.card_id
    stop_card env ev target)
  | CardActionKind.evidence ↦
      let id = or_text action.task_id "" in
      reply ev (render ("任务 " ∷ id ∷ " 的证据目录：" ∷ env.task_dir id ∷ []))
]

unfoldable pub on_card_action : Env → NormalizedEvent → Act Unit
unfolding bump on_card
on_card_action env ev = elim ev.card_action [
  | none ↦ bump "events.bad_card_action"
  | some action ↦ on_card env ev action
]

unfoldable pub stuck_task_replaced_text : String → ℕ → String
stuck_task_replaced_text task_no minutes =
    render ("任务 " ∷ task_no ∷ " 超过 " ∷ decimal minutes ∷ " 分钟没有进展，已停止，按这条消息重新开始。" ∷ [])

-- The time is only read for a task that runs.
unfoldable pub is_stuck : Env → Task → Act Bool
unfolding now
is_stuck env task w =
    if has w.shared.running task.id
    then after (now env w) (λ time. pure (ltb env.stuck_after (time - task.updated_at)))
    else (ok false, w)

unfoldable pub replace_stuck :
    Env → (String → World → World) → Session → NormalizedEvent → Task → Act Unit
unfolding cancel_task_by bump reply start_task stuck_task_replaced_text
replace_stuck env abandon session ev stuck = do
  on_world (abandon stuck.id)
  cancel_task_by env stuck none none false none
  bump "control.stuck_replaced"
  reply ev (stuck_task_replaced_text stuck.task_no (env.stuck_after / 60000000))
  start_task env session ev none
  pure tt

-- The evidence first, then the queue of the task.
unfoldable pub steer_to : NormalizedEvent → Task → Act Unit
unfolding append_evidence steer_payload bump
steer_to ev target = do
  append_evidence target.id EvidenceKind.event_received (steer_payload ev)
  on_shared (λ s. record s { steer = push_steer target.id ev.text s.steer })
  bump "events.steer"

unfoldable pub start_anew : Env → Session → NormalizedEvent → List Task → Act Unit
unfolding bump start_task
start_anew env session ev active = do
  elim active [ [] ↦ pure tt | t ∷ tasks ↦ bump "events.orphan_task" ]
  start_task env session ev none
  pure tt

abbrev follow_up :
    Env → (String → World → World) → Session → NormalizedEvent → List Task → Option Task → Act Unit
follow_up env abandon session ev active none = start_anew env session ev active
follow_up env abandon session ev active (some target) = do
  stuck ← is_stuck env target
  if stuck then replace_stuck env abandon session ev target else steer_to ev target

-- The listed tasks of the session that no one has cancelled.
unfoldable pub active_of : Session → List String → List Task → List Task
active_of session cancelled listed =
    keep (λ t. (t.session_id == session.id) && not (has cancelled t.id)) listed

abbrev choose_target :
    Env → (String → World → World) → Session → NormalizedEvent → List Task → Act Unit
choose_target env abandon session ev listed w =
    let active = active_of session w.shared.cancelled listed in
    follow_up env abandon session ev active (steer_target active w.shared.owned w.shared.running) w

unfoldable pub continue_session :
    Env → (String → World → World) → NormalizedEvent → Session → Act Unit
unfolding append_event_turn now on_db ack steer_target is_stuck replace_stuck steer_to start_anew
    active_of
continue_session env abandon ev session = do
  append_event_turn session ev TurnRole.user ev.text
  time ← now env
  let renewed = record session { last_active_at = time }
  on_db (update_session renewed)
  ack ev
  listed ← on_db (list_active_tasks session.chat_id)
  choose_target env abandon renewed ev listed

abbrev is_p2p : ChatType → Bool
is_p2p ChatType.p2p = true
is_p2p ChatType.group = false

-- R7 and R8.
unfoldable pub route_other : Env → NormalizedEvent → Act Unit
unfolding new_session bump
route_other env ev =
    if ev.mentioned
    then (do new_session env ev ev.anchor.message_id ev.text true none; pure tt)
    else bump "events.ignored"

-- R6.
unfoldable pub route_thread :
    Env → (String → World → World) → NormalizedEvent → Option Session → Act Unit
unfolding continue_session route_other
route_thread env abandon ev none = route_other env ev
route_thread env abandon ev (some session) =
    if not (is_p2p ev.chat_type) && env.supports_thread
    then continue_session env abandon ev session
    else route_other env ev

abbrev is_some : Option Session → Bool
is_some none = false
is_some (some s) = true

-- R5.
abbrev route_text :
    Env
    → String
    → Option (List HistoryMessage)
    → (String → World → World)
    → NormalizedEvent
    → Option Session
    → Act Unit
route_text env help history abandon ev session =
    if is_command (trim ev.text) && (ev.mentioned || is_some session)
    then on_command env help history ev session (trim ev.text)
    else route_thread env abandon ev session

unfoldable pub route_message :
    Env
    → String
    → Option (List HistoryMessage)
    → (String → World → World)
    → NormalizedEvent
    → Act Unit
unfolding thread_session trim is_command on_command route_thread
route_message env help history abandon ev = do
  session ← thread_session ev false
  route_text env help history abandon ev session

-- R3 and R4.
abbrev pub route_new :
    Env
    → String
    → Option (List HistoryMessage)
    → (String → World → World)
    → NormalizedEvent
    → Act Unit
route_new env help history abandon ev = elim ev.kind [
  | EventKind.card_action ↦ on_card_action env ev
  | EventKind.message ↦ route_message env help history abandon ev
  | EventKind.message_edited ↦ on_non_message ev
  | EventKind.message_deleted ↦ on_non_message ev
  | EventKind.bot_added ↦ on_non_message ev
  | EventKind.member_changed ↦ on_non_message ev
]

abbrev pub is_human : SenderKind → Bool
is_human SenderKind.human = true
is_human _ = false

-- R1 and R2. `received` is the time that the store writes down.
unfoldable pub route :
    Env
    → String
    → Option (List HistoryMessage)
    → (String → World → World)
    → ℕ
    → NormalizedEvent
    → Act Unit
unfolding on_db bump on_card_action on_non_message route_message
route env help history abandon received ev =
    if is_human ev.sender_kind
    then (do
      seen ← on_db (seen_event ev.event_id received)
      if seen then bump "events.duplicate" else route_new env help history abandon ev)
    else bump "events.nonhuman"

-- A failed event is counted, and its error is handed on.
abbrev pub count_dropped :
    Result {0, 0} IngressError Unit × World → Result {0, 0} IngressError Unit × World
count_dropped (ok done, w) = (ok done, w)
count_dropped (err e, w) = (err e, (bump "events.dropped" w).1)

unfoldable pub handle_event :
    Env
    → String
    → Option (List HistoryMessage)
    → (String → World → World)
    → ℕ
    → NormalizedEvent
    → Act Unit
unfolding route bump
handle_event env help history abandon received ev w =
    count_dropped (route env help history abandon received ev w)
