-- ===== src/Contracts/Session.antt =====
-- core/crates/contracts/src/session.rs. `Task.cost` is the bits of an
-- `f64`; `config_snapshot` holds texts only, as `new_session` builds it.
use aite.Base.{ℕ, String, Bool, true, false, Option, List}
use aite.Contracts.Events.{Anchor, Attachment}

pub data SessionKind : Type 0 where
  channel task dm : SessionKind

pub data SessionStatus : Type 0 where
  active idle archived : SessionStatus

pub data TaskStatus : Type 0 where
  created planning answering working awaiting_approval delivered failed cancelled : TaskStatus

-- `ACTIVE_TASK_STATUSES` holds created, planning and working.
unfoldable pub is_active : TaskStatus → Bool
is_active created = true
is_active planning = true
is_active working = true
is_active _ = false

unfoldable pub is_terminal : TaskStatus → Bool
is_terminal delivered = true
is_terminal failed = true
is_terminal cancelled = true
is_terminal _ = false

pub data TurnRole : Type 0 where
  user assistant system_note : TurnRole

pub record Turn : Type 0 where
  pub session_id : String
  pub seq : ℕ
  pub role : TurnRole
  pub platform_user_id : Option String
  pub content : String
  pub attachments : List Attachment
  pub created_at : ℕ

pub data ChecklistState : Type 0 where
  todo doing done failed : ChecklistState

pub record ChecklistItem : Type 0 where
  pub id : String
  pub text : String
  pub state : ChecklistState
  pub note : Option String

pub record Session : Type 0 where
  pub id : String
  pub tenant_id : String
  pub workspace_id : String
  pub chat_id : String
  pub kind : SessionKind
  pub anchor : Anchor
  pub status : SessionStatus
  pub created_by : String
  pub config_snapshot : List (String × String)
  pub created_at : ℕ
  pub last_active_at : ℕ
  pub archived_at : Option ℕ

pub record Task : Type 0 where
  pub id : String
  pub session_id : String
  pub task_no : String
  pub status : TaskStatus
  pub title : String
  pub checklist : List ChecklistItem
  pub card_id : Option String
  pub sandbox_id : Option String
  pub session_token : String
  pub model : String
  pub steps : ℕ
  pub tokens_in : ℕ
  pub tokens_out : ℕ
  pub cost : ℕ
  pub max_steps : ℕ
  pub max_wall_sec : ℕ
  pub result_summary : String
  pub evidence_root_hash : Option String
  pub created_by : String
  pub created_at : ℕ
  pub updated_at : ℕ
