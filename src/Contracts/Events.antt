-- ===== src/Contracts/Events.antt =====
-- core/crates/contracts/src/events.rs. The field `raw` of an event is left out: it is kept for
-- audits and, as its comment says, no logic may depend on it. So is `value` of a card action.
use aite.Base.{ℕ, String, Bool, Option, List}

pub data SenderKind : Type 0 where
  human bot app system : SenderKind

pub data EventKind : Type 0 where
  message message_edited message_deleted card_action bot_added member_changed : EventKind

unfoldable pub kind_as_str : EventKind → String
kind_as_str message = "message"
kind_as_str message_edited = "message_edited"
kind_as_str message_deleted = "message_deleted"
kind_as_str card_action = "card_action"
kind_as_str bot_added = "bot_added"
kind_as_str member_changed = "member_changed"

pub data ChatType : Type 0 where
  group p2p : ChatType

pub data AttachmentKind : Type 0 where
  image file : AttachmentKind

pub data CardActionKind : Type 0 where
  stop evidence : CardActionKind

pub record Anchor : Type 0 where
  pub platform : String
  pub chat_id : String
  pub message_id : String
  pub thread_id : Option String
  pub task_no : Option String

pub record Attachment : Type 0 where
  pub kind : AttachmentKind
  pub file_key : String
  pub message_id : String
  pub name : Option String
  pub size : Option ℕ
  pub mime : Option String

pub record CardAction : Type 0 where
  pub card_id : String
  pub action : CardActionKind
  pub task_id : Option String

pub record NormalizedEvent : Type 0 where
  pub event_id : String
  pub kind : EventKind
  pub platform : String
  pub tenant_id : String
  pub workspace_id : String
  pub chat_id : String
  pub chat_type : ChatType
  pub sender_id : String
  pub sender_kind : SenderKind
  pub sender_name : Option String
  pub text : String
  pub raw_text : Option String
  pub mentioned : Bool
  pub anchor : Anchor
  pub attachments : List Attachment
  pub card_action : Option CardAction
  pub occurred_at : ℕ
