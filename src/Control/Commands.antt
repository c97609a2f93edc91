-- ===== src/Control/Commands.antt =====
-- core/crates/control/src/commands: mod.rs, stop.rs, restart.rs, new.rs, status.rs and help.rs.
pub mod Targets
use aite.Base.{
  eqb, if◌then◌else◌, length, join, render, decimal, ℕ, ◌+◌, String, Bool, true, false, not, ◌&&◌,
  Option, none, some, List, [], ◌∷◌, map, ◌==◌,
}
use aite.Base.Exec.{Result, after, err, ok, pure, ◌>>=◌, ◌>>◌}
use aite.Contracts.Events.{NormalizedEvent}
use aite.Contracts.Evidence.{EvidenceKind, Members, Value}
use aite.Contracts.Session.{Session, SessionStatus, Task, TaskStatus, is_terminal}
use aite.Control.Commands.Targets.{
  StopTarget, ambiguous, delivering, none_active, not_found, of_existing, resolve_stop_target,
  status_tasks, stoppable,
}
use aite.Control.Dispatch.{cancel_task_by}
use aite.Control.Plane.{
  Act, Env, IngressError, Shared, append_evidence, attempt, bump, counter, now, on_db, reply,
}
use aite.Control.Sessions.{HistoryMessage, event_payload, filled_text, new_session, or_text}
use aite.Control.Words.{parse_command}
use aite.Store.{get_task, update_session}

abbrev is_open : Task → Bool
is_open fresh =
    not (is_terminal fresh.status)
    && elim (filled_text fresh.evidence_root_hash) [ none ↦ true | some h ↦ false ]

abbrev command_payload : NormalizedEvent → String → Members
command_payload ev command =
    Members.member "command" (Value.text command) (event_payload ev "command" none)

-- The command's evidence, unless the stored task has ended; a failure is only logged.
abbrev record_if_open :
    NormalizedEvent → Task → String → Result IngressError (Option Task) → Act Unit
record_if_open ev task command (err e) = pure tt
record_if_open ev task command (ok none) = pure tt
record_if_open ev task command (ok (some fresh)) =
    if is_open fresh
    then (do
      attempt (append_evidence task.id EvidenceKind.event_received (command_payload ev command))
      pure tt)
    else pure tt

unfoldable pub record_command : NormalizedEvent → Task → String → Act Unit
unfolding attempt on_db append_evidence event_payload
record_command ev task command = do
  fresh ← attempt (on_db (get_task task.id))
  record_if_open ev task command fresh

abbrev pub no_such_task_text : String
no_such_task_text = "没有这个任务"

abbrev pub no_active_task_text : String
no_active_task_text = "本群没有活跃任务"

abbrev pub restart_empty_text : String
restart_empty_text = "已重开会话，请直接说要做什么。"

abbrev pub unknown_command_text : String
unknown_command_text = "未知命令，发 !help 看全部命令"

unfoldable pub stop_while_delivering_text : String → String
stop_while_delivering_text task_no = render ("任务 " ∷ task_no ∷ " 正在把答复发给你，停不了了。" ∷ [])

unfoldable pub stop_needs_task_no_text : List String → String
stop_needs_task_no_text task_nos =
    render
      ("本群有 " ∷ decimal (length task_nos) ∷ " 个活跃任务，要停哪个请带上任务号：" ∷ join "、" task_nos ∷ "。" ∷ [])

-- Stop a target that the sender of the event pointed at.
unfoldable pub stop_task : Env → NormalizedEvent → Task → Act Unit
unfolding cancel_task_by
stop_task env ev task = do
  cancel_task_by env task (some ev.anchor.message_id) (some ev.chat_id) true (some ev.sender_id)
  pure tt

unfoldable pub stop_target : Env → NormalizedEvent → StopTarget → Act Unit
unfolding reply record_command stop_task stop_while_delivering_text stop_needs_task_no_text
stop_target env ev none_active = reply ev no_active_task_text
stop_target env ev (ambiguous tasks) =
    reply ev (stop_needs_task_no_text (map (λ t. t.task_no) tasks))
stop_target env ev not_found = reply ev no_such_task_text
stop_target env ev (delivering task) = reply ev (stop_while_delivering_text task.task_no)
stop_target env ev (stoppable task) = do record_command ev task "!stop"; stop_task env ev task

unfoldable pub cmd_stop : Env → NormalizedEvent → String → Act Unit
unfolding resolve_stop_target stop_target
cmd_stop env ev rest = do target ← resolve_stop_target ev.chat_id rest; stop_target env ev target

abbrev session_thread : NormalizedEvent → Option Session → String
session_thread ev none = ev.anchor.message_id
session_thread ev (some s) = or_text (filled_text s.anchor.thread_id) ev.anchor.message_id

unfoldable pub cmd_new : Env → NormalizedEvent → Option Session → String → Act Unit
unfolding new_session reply
cmd_new env ev session rest = do
  new_session env ev (session_thread ev session) rest (not (rest == "")) none
  if rest == "" then reply ev restart_empty_text else pure tt

-- The tasks of the session: how many were stopped, and the numbers of those that cannot be.
unfoldable pub stop_all : Env → NormalizedEvent → String → List Task → Act (ℕ × List String)
unfolding of_existing record_command cancel_task_by
stop_all env ev session_id [] w = (ok (0, []), w)
stop_all env ev session_id (t ∷ tasks) w =
    let rest = stop_all env ev session_id tasks in
    if not (t.session_id == session_id) then rest w else elim (of_existing t) [
      | stoppable k ↦ after (record_command ev k "!restart" w) (λ _ v.
          after (cancel_task_by env k none none false none v)
            (λ _ u. after (rest u) (λ n. pure (n.0 + 1, n.1))))
      | delivering k ↦ after (rest w) (λ n. pure (n.0, k.task_no ∷ n.1))
      | none_active ↦ rest w
      | ambiguous ks ↦ rest w
      | not_found ↦ rest w
    ]

abbrev archive : Env → NormalizedEvent → Option Session → Act (ℕ × List String)
archive env ev none = pure (0, [])
archive env ev (some session) = do
  tasks ← status_tasks ev.chat_id
  stopped ← stop_all env ev session.id tasks
  time ← now env
  on_db
      (update_session (record session { status = SessionStatus.archived; archived_at = some time }))
  pure stopped

abbrev stopped_note : ℕ → String
stopped_note n = if eqb n 0 then "" else render ("终止了 " ∷ decimal n ∷ " 个进行中的任务。" ∷ [])

abbrev delivering_note : List String → String
delivering_note [] = ""
delivering_note (t ∷ task_nos) =
    render ("任务 " ∷ join "、" (t ∷ task_nos) ∷ " 正在把答复发给你，停不了 —— 结果仍会回到原来那条话题里。" ∷ [])

abbrev restart_reply : NormalizedEvent → String → String → Act Unit
restart_reply ev rest note =
    if rest == ""
    then reply ev (render (note ∷ restart_empty_text ∷ []))
    else if note == ""
    then pure tt
    else reply ev (render ("已重开会话，" ∷ note ∷ []))

abbrev seed_of :
    Option Session → Option (List HistoryMessage) → Option (Option (List HistoryMessage))
seed_of none history = none
seed_of (some s) history = some history

-- `history` is what `read_history` of the thread answers.
unfoldable pub cmd_restart :
    Env → NormalizedEvent → Option Session → String → Option (List HistoryMessage) → Act Unit
unfolding status_tasks stop_all now on_db new_session reply
cmd_restart env ev session rest history = do
  stopped ← archive env ev session
  new_session env ev (session_thread ev session) rest (not (rest == "")) (seed_of session history)
  restart_reply ev rest (render (stopped_note stopped.0 ∷ delivering_note stopped.1 ∷ []))

abbrev status_text : TaskStatus → String
status_text TaskStatus.created = "created"
status_text TaskStatus.planning = "planning"
status_text TaskStatus.answering = "answering"
status_text TaskStatus.working = "working"
status_text TaskStatus.awaiting_approval = "awaiting_approval"
status_text TaskStatus.delivered = "delivered"
status_text TaskStatus.failed = "failed"
status_text TaskStatus.cancelled = "cancelled"

abbrev status_line : Task → String
status_line t = render (
    t.task_no
    ∷ " "
    ∷ status_text t.status
    ∷ " "
    ∷ (if t.title == "" then "(无标题)" else t.title)
    ∷ [])

unfoldable pub dropped_note : Shared → String
unfolding counter
dropped_note s =
    let n = counter "events.dropped" s + counter "control.cancel_save_failed" s in
    if eqb n 0
    then ""
    else render (
        "\n⚠ 本进程启动以来有 " ∷ decimal n ∷ " 条事件没接住（多半是存储异常），可能有消息没被处理。翻日志看 ingress.handle_failed。" ∷ [])

abbrev status_reply : List Task → String → String
status_reply [] note = render (no_active_task_text ∷ note ∷ [])
status_reply (t ∷ tasks) note =
    render ("本群活跃任务：\n" ∷ join "\n" (map status_line (t ∷ tasks)) ∷ note ∷ [])

unfoldable pub cmd_status : NormalizedEvent → Act Unit
unfolding status_tasks reply dropped_note
cmd_status ev = do
  tasks ← status_tasks ev.chat_id
  λ w. reply ev (status_reply tasks (dropped_note w.shared)) w

-- `help` is the text of `!help`; the commands that are switched off take the last branch, as an
-- unknown one does.
unfoldable pub run_command :
    Env
    → String
    → Option (List HistoryMessage)
    → NormalizedEvent
    → Option Session
    → String
    → String
    → Act Unit
unfolding cmd_status cmd_stop cmd_restart cmd_new reply
run_command env help history ev session name rest =
    if name == "!status"
    then cmd_status ev
    else if name == "!stop"
    then cmd_stop env ev rest
    else if name == "!restart"
    then cmd_restart env ev session rest history
    else if name == "!new"
    then cmd_new env ev session rest
    else if name == "!help"
    then reply ev help
    else reply ev unknown_command_text

unfoldable pub on_command :
    Env
    → String
    → Option (List HistoryMessage)
    → NormalizedEvent
    → Option Session
    → String
    → Act Unit
unfolding parse_command bump run_command
on_command env help history ev session text =
    let (name, rest) = parse_command text in
    do bump (render ("commands" ∷ name ∷ [])); run_command env help history ev session name rest
