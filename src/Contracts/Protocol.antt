-- ===== src/Contracts/Protocol.antt =====
-- core/crates/contracts/src: protocol.rs and gateway.rs (what the model, the worker and the tools
-- exchange) and outbound.rs (cards). The descriptions and schemas of the tools are left out; so are
-- `raw` of a turn and `data` of a tool result, which no modelled code reads.
use aite.Base.{if◌then◌else◌, contains, ℕ, String, Bool, Option, none, some, List, [], ◌∷◌, ◌==◌}
use aite.Contracts.Evidence.{Members, Value}
use aite.Contracts.Session.{ChecklistItem}

pub data ToolErrorCode : Type 0 where
  not_found invalid_args denied timeout upstream sandbox : ToolErrorCode

unfoldable pub code_as_str : ToolErrorCode → String
code_as_str not_found = "not_found"
code_as_str invalid_args = "invalid_args"
code_as_str denied = "denied"
code_as_str timeout = "timeout"
code_as_str upstream = "upstream"
code_as_str sandbox = "sandbox"

pub record ToolError : Type 0 where
  pub code : ToolErrorCode
  pub message : String

pub record ToolSpec : Type 0 where
  pub name : String
  pub description : String
  pub parameters : Value

pub record ToolCallRequest : Type 0 where
  pub call_id : String
  pub name : String
  pub arguments : Members

pub record ToolContext : Type 0 where
  pub tenant_id : String
  pub workspace_id : String
  pub chat_id : String
  pub session_id : String
  pub task_id : String
  pub session_token : String
  pub thread_id : Option String
  pub attachments_message_id : Option String

pub record ToolResult : Type 0 where
  pub call_id : String
  pub name : String
  pub is_ok : Bool
  pub content : String
  pub error : Option ToolError
  pub duration_ms : ℕ

-- Names of the tools that the worker runs itself.
abbrev pub final_name : String
final_name = "final"

abbrev pub local_tool_names : List String
local_tool_names =
    "checklist_add" ∷ "checklist_check" ∷ "checklist_fail" ∷ "checklist_note" ∷ final_name ∷ []

unfoldable pub is_local_tool : String → Bool
is_local_tool name = contains local_tool_names name

pub data Role : Type 0 where
  system user assistant tool : Role

pub record Message : Type 0 where
  pub role : Role
  pub content : String
  pub tool_calls : List ToolCallRequest
  pub tool_call_id : Option String
  pub name : Option String

abbrev pub text_message : Role → String → Message
text_message role content = record {
  role = role;
  content = content;
  tool_calls = [];
  tool_call_id = none;
  name = none;
}

pub record Usage : Type 0 where
  pub input_tokens : ℕ
  pub output_tokens : ℕ

pub record ModelTurn : Type 0 where
  pub message : Message
  pub usage : Usage
  pub finish_reason : String

pub data ModelError : Type 0 where
  config upstream_error bad_response : String → ModelError

pub data CardStatus : Type 0 where
  working delivered failed cancelled : CardStatus

unfoldable pub card_status_as_str : CardStatus → String
card_status_as_str working = "working"
card_status_as_str delivered = "delivered"
card_status_as_str failed = "failed"
card_status_as_str cancelled = "cancelled"

pub record ChecklistCard : Type 0 where
  pub task_id : String
  pub task_no : String
  pub title : String
  pub initiator : String
  pub started_at : String
  pub status : CardStatus
  pub items : List ChecklistItem
  pub footer : String

-- The answer to `send_card`.
pub record SendResult : Type 0 where
  pub message_id : String
  pub card_id : Option String

-- `Map::get`, `as_str`, `as_array`, `as_object`
unfoldable pub get_member : String → Members → Option Value
get_member key Members.no_members = none
get_member key (Members.member k v rest) = if k == key then some v else get_member key rest

abbrev pub as_str : Option Value → Option String
as_str (some (Value.text s)) = some s
as_str _ = none
