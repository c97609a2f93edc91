-- ===== src/Control/Sessions.antt =====
-- core/crates/control/src/sessions.rs: sessions, the seeding of their turns, and the start of a
-- task. Sessions/Turns has the writing of one turn.
pub mod Turns
use aite.Base.{
  if◌then◌else◌, keep, render, ℕ, String, Bool, not, ◌||◌, Option, none, some, List, [], ◌∷◌, map,
  ◌==◌,
}
use aite.Base.Exec.{after, ok, pure, ◌>>=◌, ◌>>◌}
use aite.Contracts.Events.{NormalizedEvent, kind_as_str}
use aite.Contracts.Evidence.{EvidenceKind, Members, Value}
use aite.Contracts.Session.{Session, SessionKind, SessionStatus, Task, TaskStatus, TurnRole}
use aite.Control.Plane.{
  Act, Env, Shared, ack, append_evidence, fresh_token, fresh_uuid, insert_id, now, on_db, on_shared,
}
use aite.Control.Queue.{put_keyed}
use aite.Control.Sessions.Turns.{TurnDraft, draft_of, write_turn_locked}
use aite.Control.Words.{clip, max_title_chars, trim}
use aite.Store.{create_session, create_task, find_session_by_thread, next_task_no}

-- A message of `read_history`.
pub record HistoryMessage : Type 0 where
  pub message_id : String
  pub sender_kind : String
  pub sender_id : String
  pub sender_name : Option String
  pub text : String
  pub created_at : ℕ

abbrev pub filled_text : Option String → Option String
filled_text none = none
filled_text (some s) = if s == "" then none else some s

abbrev pub or_text : Option String → String → String
or_text none s = s
or_text (some t) s = t

abbrev pub value_at : String → List (String × String) → Option String
value_at key [] = none
value_at key ((k, v) ∷ rest) = if k == key then some v else value_at key rest

unfoldable pub initiator_of : Session → String
initiator_of session =
    or_text (filled_text (value_at "initiator_name" session.config_snapshot)) session.created_by

abbrev find_thread : String → Option String → Act (Option Session)
find_thread chat_id none = pure none
find_thread chat_id (some thread_id) = on_db (find_session_by_thread chat_id thread_id)

abbrev else_message : NormalizedEvent → Bool → Option Session → Act (Option Session)
else_message ev fallback (some hit) = pure (some hit)
else_message ev fallback none =
    if fallback then on_db (find_session_by_thread ev.chat_id ev.anchor.message_id) else pure none

unfoldable pub thread_session : NormalizedEvent → Bool → Act (Option Session)
unfolding on_db
thread_session ev fallback_to_message_id = do
  hit ← find_thread ev.chat_id (filled_text ev.anchor.thread_id)
  else_message ev fallback_to_message_id hit

-- `event_payload` of evidence_log.rs; the members as it inserts them.
abbrev text_member : Option String → Members
text_member none = Members.no_members
text_member (some text) = Members.member "text" (Value.text text) Members.no_members

unfoldable pub event_payload : NormalizedEvent → String → Option String → Members
unfolding kind_as_str
event_payload ev route text = Members.member "event_id" (Value.text ev.event_id) (
    Members.member "kind" (Value.text (kind_as_str ev.kind)) (
      Members.member "chat_id" (Value.text ev.chat_id) (
        Members.member "sender_id" (Value.text ev.sender_id) (
          Members.member "message_id" (Value.text ev.anchor.message_id) (
            Members.member "mentioned" (Value.bool ev.mentioned)
              (Members.member "route" (Value.text route) (text_member text)))))))

unfoldable pub steer_payload : NormalizedEvent → Members
unfolding event_payload clip
steer_payload ev = event_payload ev "steer" (some (clip ev.text max_title_chars))

abbrev created_payload : Session → Task → Members
created_payload session task = Members.member "session_id" (Value.text session.id) (
    Members.member "task_no" (Value.text task.task_no) (
      Members.member "chat_id" (Value.text session.chat_id) (
        Members.member "created_by" (Value.text task.created_by)
          (Members.member "title" (Value.text task.title) Members.no_members))))

abbrev new_task :
    Env → String → String → String → Session → NormalizedEvent → Option String → ℕ → Task
new_task env id task_no token session ev text time = record {
  id = id;
  session_id = session.id;
  task_no = task_no;
  status = TaskStatus.created;
  title = clip (or_text text ev.text) max_title_chars;
  checklist = [];
  card_id = none;
  sandbox_id = none;
  session_token = token;
  model = env.model;
  steps = 0;
  tokens_in = 0;
  tokens_out = 0;
  cost = 0;
  max_steps = env.max_steps;
  max_wall_sec = env.max_wall_sec;
  result_summary = "";
  evidence_root_hash = none;
  created_by = ev.sender_id;
  created_at = time;
  updated_at = time;
}

abbrev enqueue : Session → Task → Shared → Shared
enqueue session task s = record s {
  owned = insert_id task.id s.owned;
  queue = put_keyed task.id session.id s.queue;
}

-- The six steps, in their order.
unfoldable pub start_task : Env → Session → NormalizedEvent → Option String → Act Task
unfolding on_db now fresh_uuid fresh_token append_evidence event_payload put_keyed
start_task env session ev text = do
  time ← now env
  task_no ← on_db (next_task_no session.tenant_id)
  id ← fresh_uuid env
  token ← fresh_token env
  let task = new_task env id task_no token session ev text time
  on_db (create_task task)
  append_evidence task.id EvidenceKind.task_created (created_payload session task)
  append_evidence task.id EvidenceKind.event_received (event_payload ev "new_task" none)
  on_shared (enqueue session task)
  pure task

abbrev is_filled_message : NormalizedEvent → HistoryMessage → Bool
is_filled_message ev m = not ((m.message_id == ev.anchor.message_id) || (trim m.text == ""))

abbrev draft_of_message : HistoryMessage → TurnDraft
draft_of_message m = record {
  role = if m.sender_kind == "human" then TurnRole.user else TurnRole.system_note;
  platform_user_id = some m.sender_id;
  content =
      if m.sender_kind == "human"
      then m.text
      else render ("[" ∷ or_text (filled_text m.sender_name) m.sender_id ∷ "] " ∷ m.text ∷ []);
  attachments = [];
  created_at = m.created_at;
}

-- `history` is what `read_history` answers, or none for its error, which is only logged.
unfoldable pub thread_history :
    Env → NormalizedEvent → Option (List HistoryMessage) → List TurnDraft
unfolding trim
thread_history env ev none = []
thread_history env ev (some history) =
    if env.supports_history then map draft_of_message (keep (is_filled_message ev) history) else []

unfoldable pub write_drafts : String → List TurnDraft → Act Unit
unfolding write_turn_locked
write_drafts session_id [] w = (ok tt, w)
write_drafts session_id (d ∷ drafts) w =
    after (write_turn_locked session_id d [] w) (λ _. write_drafts session_id drafts)

abbrev session_from : Env → String → ℕ → NormalizedEvent → String → Session
session_from env id time ev thread_id = record {
  id = id;
  tenant_id = ev.tenant_id;
  workspace_id = ev.workspace_id;
  chat_id = ev.chat_id;
  kind = SessionKind.task;
  anchor = record {
    platform = ev.platform;
    chat_id = ev.chat_id;
    message_id = ev.anchor.message_id;
    thread_id = some thread_id;
    task_no = none;
  };
  status = SessionStatus.active;
  created_by = ev.sender_id;
  config_snapshot =
      ("model", env.model)
      ∷ ("initiator_name", or_text (filled_text ev.sender_name) ev.sender_id)
      ∷ [];
  created_at = time;
  last_active_at = time;
  archived_at = none;
}

abbrev seeded : Env → NormalizedEvent → Option (Option (List HistoryMessage)) → List TurnDraft
seeded env ev none = []
seeded env ev (some answer) = thread_history env ev answer

abbrev first_draft : NormalizedEvent → String → List TurnDraft
first_draft ev text = if text == "" then [] else draft_of ev TurnRole.user text ∷ []

-- `seed` is none without `seed_from_thread`, else what `read_history` answers for that thread.
unfoldable pub new_session :
    Env
    → NormalizedEvent
    → String
    → String
    → Bool
    → Option (Option (List HistoryMessage))
    → Act Session
unfolding on_db now fresh_uuid thread_history write_drafts ack start_task
new_session env ev thread_id text react seed = do
  time ← now env
  id ← fresh_uuid env
  let session = session_from env id time ev thread_id
  on_db (create_session session)
  write_drafts session.id (seeded env ev seed)
  write_drafts session.id (first_draft ev text)
  if react then ack ev else pure tt
  if text == "" then pure tt else do start_task env session ev (some text); pure tt
  pure session
