-- ===== src/Worker/Tools.antt =====
-- core/crates/worker/src/loop.rs: the calls of tools, with the evidence that they leave.
-- local_tools/mod.rs enables no further local tool.
use Prim.Native.Char.{code}
use aite.Base.{if◌then◌else◌, ℕ, String, Bool, false, not, ◌&&◌, Option, none, some, [], ◌==◌}
use aite.Contracts.Evidence.{EvidenceKind, Members, Value}
use aite.Contracts.Protocol.{
  Message, Role, ToolCallRequest, ToolContext, ToolError, ToolErrorCode, ToolResult, code_as_str,
}
use aite.Control.Plane.{tool_called}
use aite.Control.Words.{clip}
use aite.Store.Calls.{call}
use aite.Worker.Desk.{
  Ports, Run, RunContext, ask, note_sent, number_of, pure, reads, record_event, text_of,
  text_or_null, ◌>>=◌, ◌>>◌,
}
use aite.Worker.Redact.{redact_args, redact_text}
use aite.Worker.Texts.{tool_error_content, tool_unavailable, wrap_external}

pub record ToolOutcome : Type 0 where
  pub is_ok : Bool
  pub content : String
  pub error_code : Option ToolErrorCode

abbrev pub tool_message : ToolCallRequest → String → Message
tool_message call content = record {
  role = Role.tool;
  content = content;
  tool_calls = [];
  tool_call_id = some call.call_id;
  name = some call.name;
}

abbrev pub max_tool_summary_chars : ℕ
max_tool_summary_chars = 200

abbrev code_text : Option ToolErrorCode → Option String
code_text none = none
code_text (some c) = some (code_as_str c)

abbrev code_of : Option ToolError → Option ToolErrorCode
code_of none = none
code_of (some e) = some e.code

-- The content of a failed call that has none.
abbrev content_or_error : ToolResult → String
content_or_error r = elim r.error [
  | none ↦ r.content
  | some e ↦
      if not r.is_ok && (r.content == "")
      then tool_error_content (code_as_str e.code) e.message
      else r.content
]

abbrev pub tool_context : RunContext → ToolContext
tool_context c = record {
  tenant_id = c.session.tenant_id;
  workspace_id = c.session.workspace_id;
  chat_id = c.session.chat_id;
  session_id = c.session.id;
  task_id = c.task.id;
  session_token = c.task.session_token;
  thread_id = c.session.anchor.thread_id;
  attachments_message_id = c.attachments_message_id;
}

module _ (p : Ports) where
  abbrev result_payload : String → String → Bool → Option ToolErrorCode → String → Members → Members
  result_payload call_id name is_ok code content rest = text_of "call_id" call_id (
      text_of "name" name (
        Members.member "ok" (Value.bool is_ok) (
          text_or_null "error" (code_text code) (
            text_of "content_hash" (p.sha256_hex content) (
              text_of "content_summary"
                (clip (redact_text p.is_alphanumeric content) max_tool_summary_chars) rest)))))

  unfoldable pub local_result :
      ToolCallRequest → Bool → String → Option ToolErrorCode → Run ToolOutcome
  local_result call is_ok content code = do
    record_event EvidenceKind.tool_result (
        result_payload call.call_id call.name is_ok code content
          (number_of "duration_ms" 0 Members.no_members))
    pure (record { is_ok = is_ok; content = content; error_code = code })

  abbrev pub call_payload : ToolCallRequest → Members
  call_payload call = text_of "call_id" call.call_id (
      text_of "name" call.name (
        Members.member "arguments" (Value.object (redact_args p.is_alphanumeric call.arguments))
          Members.no_members))

  -- The evidence of a call, which comes before it.
  unfoldable pub note_call : ToolCallRequest → Run Unit
  note_call call = record_event EvidenceKind.tool_call (call_payload call)

  abbrev external : ToolResult → Option ToolErrorCode → ToolOutcome
  external r code = record {
    is_ok = r.is_ok;
    content = wrap_external (content_or_error r);
    error_code = code;
  }

  abbrev gateway_call : ToolCallRequest → Run ToolOutcome
  gateway_call call = do
    ctx ← reads (λ d. tool_context d.ctx)
    note_sent (tool_called ctx call)
    result ← ask (λ n. p.tool n ctx call)
    sandbox_id ← ask (λ n. p.sandbox_id_of n ctx.task_id)
    record_event EvidenceKind.tool_result (
        result_payload result.call_id result.name result.is_ok (code_of result.error) result.content
          (text_or_null "sandbox_id" sandbox_id
            (number_of "duration_ms" result.duration_ms Members.no_members)))
    pure (external result (code_of result.error))

  unfoldable pub run_gateway_tool : ToolCallRequest → Run ToolOutcome
  run_gateway_tool call = do
    note_call call
    (if p.env.has_gateway
        then gateway_call call
        else local_result call false (tool_unavailable call.name) (some ToolErrorCode.not_found))
