-- ===== src/Worker/Frame/Tools.antt =====
-- What the tools of a run keep: none of them touches the count of steps or its limit.
use Prim.Native.Char.{code}
use aite.Base.{String, ◌≡◌, Bool, Option, none, some, List}
use aite.Contracts.Protocol.{ChecklistCard, ToolCallRequest, ToolErrorCode}
use aite.Contracts.Session.{ChecklistItem, Session, Task}
use aite.Control.Races.{steps}
use aite.Store.Calls.{call}
use aite.Worker.Card.{ensure_card, send_card}
use aite.Worker.Checklist.{
  add_texts, check_item, fail_item, fail_reason, note_text, run_checklist, run_local_tool, run_tool,
}
use aite.Worker.Desk.{Ports, RunContext, on_ctx, on_task, save}
use aite.Worker.Frame.{IsSteady, Keeps, about, keeps_rules, record_event-Keeps, save-Keeps}
use aite.Worker.Tools.{local_result, note_call, run_gateway_tool}

module _ {P : Task → Type 0} (q : IsSteady P) (p : Ports) where
  pub steady_task :
      (f : Task → Task)
      → ((t : Task) → t.steps ≡ (f t).steps)
      → ((t : Task) → t.max_steps ≡ (f t).max_steps)
      → Keeps P (on_task f)
  unfolding on_task
  steady_task f steps limit = record {
    at = λ d h. let t = d.ctx.task in q t (f t) (steps t) (limit t) h;
  }

  pub steady_ctx :
      (f : RunContext → RunContext)
      → ((c : RunContext) → c.task.steps ≡ (f c).task.steps)
      → ((c : RunContext) → c.task.max_steps ≡ (f c).task.max_steps)
      → Keeps P (on_ctx f)
  unfolding on_ctx
  steady_ctx f steps limit = record {
    at = λ d h. q d.ctx.task (f d.ctx).task (steps d.ctx) (limit d.ctx) h;
  }

  pub steady_save : Keeps P (save p)
  steady_save = save-Keeps (about P q) p

  pub ruleset steady_rules = (keeps_rules, steady_task, steady_ctx, steady_save, record_event-Keeps)

  send_card-Keeps : (s : Session) (card : ChecklistCard) → Keeps P (send_card p s card)
  unfolding send_card
  send_card-Keeps s card = search steady_rules depth 24

  pub ensure_card-Keeps : Keeps P (ensure_card p)
  unfolding ensure_card
  ensure_card-Keeps = search (steady_rules, send_card-Keeps) depth 24

  pub local_result-Keeps :
      (call : ToolCallRequest) (is_ok : Bool) (content : String) (code : Option ToolErrorCode)
      → Keeps P (local_result p call is_ok content code)
  unfolding local_result
  local_result-Keeps call is_ok content code = search steady_rules depth 24

  pub note_call-Keeps : (call : ToolCallRequest) → Keeps P (note_call p call)
  unfolding note_call
  note_call-Keeps call = search steady_rules depth 24

  pub ruleset tool_rules = (steady_rules, local_result-Keeps, note_call-Keeps)

  run_gateway_tool-Keeps : (call : ToolCallRequest) → Keeps P (run_gateway_tool p call)
  unfolding run_gateway_tool
  run_gateway_tool-Keeps call = search tool_rules depth 24

  add_texts-Keeps :
      (call : ToolCallRequest) (o : Option (List String)) → Keeps P (add_texts p call o)
  add_texts-Keeps call none = search tool_rules depth 24
  add_texts-Keeps call (some texts) = search tool_rules depth 24

  check_item-Keeps :
      (call : ToolCallRequest) (o : Option ChecklistItem) → Keeps P (check_item p call o)
  check_item-Keeps call none = search tool_rules depth 24
  check_item-Keeps call (some i) = search tool_rules depth 24

  fail_reason-Keeps :
      (call : ToolCallRequest) (i : ChecklistItem) (o : Option String)
      → Keeps P (fail_reason p call i o)
  fail_reason-Keeps call i none = search tool_rules depth 24
  fail_reason-Keeps call i (some reason) = search tool_rules depth 24

  fail_item-Keeps :
      (call : ToolCallRequest) (o : Option ChecklistItem) → Keeps P (fail_item p call o)
  fail_item-Keeps call none = search tool_rules depth 24
  fail_item-Keeps call (some i) = fail_reason-Keeps call i _

  note_text-Keeps : (call : ToolCallRequest) (o : Option String) → Keeps P (note_text p call o)
  note_text-Keeps call none = search tool_rules depth 24
  note_text-Keeps call (some text) = search tool_rules depth 24

  run_checklist-Keeps : (call : ToolCallRequest) → Keeps P (run_checklist p call)
  unfolding run_checklist
  run_checklist-Keeps call =
      search (tool_rules, add_texts-Keeps, check_item-Keeps, fail_item-Keeps, note_text-Keeps) depth
        24

  run_local_tool-Keeps : (call : ToolCallRequest) → Keeps P (run_local_tool p call)
  unfolding run_local_tool
  run_local_tool-Keeps call = search (tool_rules, run_checklist-Keeps) depth 24

  pub run_tool-Keeps : (call : ToolCallRequest) → Keeps P (run_tool p call)
  unfolding run_tool
  run_tool-Keeps call = search (keeps_rules, run_local_tool-Keeps, run_gateway_tool-Keeps)
