-- ===== src/Tests/Data.antt =====
-- A chat with one session and two tasks.
use aite.Base.{decimal, ℕ, ◌+◌, String, true, false, none, some, [], ◌∷◌}
use aite.Contracts.Events.{Anchor, ChatType, EventKind, NormalizedEvent, SenderKind}
use aite.Contracts.Session.{Session, SessionKind, SessionStatus, Task, TaskStatus, Turn, TurnRole}
use aite.Control.Plane.{Env, World}
use aite.Control.Sessions.Turns.{TurnDraft}
use aite.Store.{Db}
use aite.Store.Statements.{Tables}

abbrev pub anchor : Anchor
anchor = record {
  platform = "lark";
  chat_id = "chat";
  message_id = "m1";
  thread_id = some "m1";
  task_no = none;
}

abbrev pub session : Session
session = record {
  id = "s1";
  tenant_id = "tenant";
  workspace_id = "work";
  chat_id = "chat";
  kind = SessionKind.task;
  anchor = anchor;
  status = SessionStatus.active;
  created_by = "ann";
  config_snapshot = ("initiator_name", "Ann") ∷ [];
  created_at = 1;
  last_active_at = 1;
  archived_at = none;
}

abbrev pub task_at : String → ℕ → TaskStatus → Task
task_at id time status = record {
  id = id;
  session_id = "s1";
  task_no = "#A1";
  status = status;
  title = "title";
  checklist = [];
  card_id = none;
  sandbox_id = none;
  session_token = "token";
  model = "model";
  steps = 0;
  tokens_in = 0;
  tokens_out = 0;
  cost = 0;
  max_steps = 10;
  max_wall_sec = 60;
  result_summary = "";
  evidence_root_hash = none;
  created_by = "ann";
  created_at = time;
  updated_at = time;
}

abbrev pub working_task : Task
working_task = task_at "t1" 2 TaskStatus.working

abbrev pub failed_task : Task
failed_task = task_at "t2" 3 TaskStatus.failed

abbrev pub turn : ℕ → Turn
turn seq = record {
  session_id = "s1";
  seq = seq;
  role = TurnRole.user;
  platform_user_id = some "ann";
  content = "hello";
  attachments = [];
  created_at = 2;
}

abbrev pub tables : Tables
tables = record {
  sessions = record { session = session; created_at = 1 } ∷ [];
  turns = turn 0 ∷ turn 1 ∷ [];
  tasks =
      record { task = working_task; created_at = 2 }
      ∷ record { task = failed_task; created_at = 3 }
      ∷ [];
  task_counters = ("tenant", 2) ∷ [];
  seen_events = ("e1", 1) ∷ [];
  message_index = [];
}

abbrev pub db : Db
db = record { conn = some tables; faults = [] }

abbrev pub event : NormalizedEvent
event = record {
  event_id = "e1";
  kind = EventKind.message;
  platform = "lark";
  tenant_id = "tenant";
  workspace_id = "work";
  chat_id = "chat";
  chat_type = ChatType.group;
  sender_id = "ann";
  sender_kind = SenderKind.human;
  sender_name = some "Ann";
  text = "go on";
  raw_text = none;
  mentioned = false;
  anchor = anchor;
  attachments = [];
  card_action = none;
  occurred_at = 4;
}

-- The first task runs, and both are owned.
abbrev pub world : World
world = record {
  db = db;
  shared = record {
    queue = record { items = ("t2", "s1") ∷ ("t3", "s2") ∷ []; unfinished = 3 };
    steer = ("t1", "more" ∷ []) ∷ [];
    cancelled = [];
    running = "t1" ∷ [];
    owned = "t1" ∷ "t2" ∷ [];
    counters = [];
  };
  entries = [];
  manifests = [];
  outbox = [];
  faults = [];
  in_flight = [];
  draws = 0;
}

abbrev pub env : Env
env = record {
  clock = λ n. 100 + n;
  uuid = λ n. decimal n;
  token_hex_16 = λ n. decimal n;
  root_hash = λ id entries. id;
  supports_thread = true;
  supports_history = true;
  model = "model";
  model_name = "Model";
  max_steps = 10;
  max_wall_sec = 60;
  stuck_after = 900;
  has_worker = true;
  has_sandbox = true;
  has_gateway = true;
  task_dir = λ id. id;
  cost_text = decimal;
}

abbrev pub draft : TurnDraft
draft = record {
  role = TurnRole.user;
  platform_user_id = some "ann";
  content = "go on";
  attachments = [];
  created_at = 4;
}
