-- ===== src/Worker/OneCard/Parts.antt =====
-- The parts of a run that keep the room for its card.
use Prim.Native.Char.{code}
use aite.Base.{ℕ, zero, suc, String, Bool, Option, none, some, List, [], ◌∷◌}
use aite.Base.Exec.{Result, err, ok}
use aite.Contracts.Evidence.{Members}
use aite.Contracts.Protocol.{CardStatus, ChecklistCard, ToolCallRequest, ToolErrorCode}
use aite.Contracts.Session.{ChecklistItem, Session}
use aite.Store.Calls.{call}
use aite.Store.Statements.{StoreError}
use aite.Worker.Card.{close_card, flush, flush_pending, maybe_flush, refresh_card}
use aite.Worker.Checklist.{
  add_texts, check_item, fail_item, fail_reason, note_text, run_checklist, run_local_tool, run_tool,
}
use aite.Worker.Desk.{Ports, Run, RunError, save}
use aite.Worker.Finish.{
  append_assistant_turn, cancel, deliver, fail, fetch_artifact, file_of, finish_run, send_artifact,
  send_artifacts, turn_written, where_none, write_at,
}
use aite.Worker.OneCard.{Roomy, Roomy-bind, roomy_rules}
use aite.Worker.Tools.{local_result, note_call, run_gateway_tool}

module _ {n : ℕ} (p : Ports) where
  pub save-Roomy : Roomy n (save p)
  unfolding save
  save-Roomy = search roomy_rules depth 32

  pub flush_pending-Roomy : (o : Option ChecklistCard) → Roomy n (flush_pending p o)
  flush_pending-Roomy none = search roomy_rules
  flush_pending-Roomy (some card) = search roomy_rules depth 40

  pub flush-Roomy : Roomy n (flush p)
  unfolding flush
  flush-Roomy = search (roomy_rules, flush_pending-Roomy)

  pub maybe_flush-Roomy : Roomy n (maybe_flush p)
  unfolding maybe_flush
  maybe_flush-Roomy = search (roomy_rules, flush-Roomy) depth 32

  pub refresh_card-Roomy : (status : CardStatus) → Roomy n (refresh_card p status)
  unfolding refresh_card
  refresh_card-Roomy status = search (roomy_rules, maybe_flush-Roomy) depth 32

  pub close_card-Roomy : (status : CardStatus) → Roomy n (close_card p status)
  unfolding close_card
  close_card-Roomy status = search (roomy_rules, flush-Roomy) depth 32

  pub finish_run-Roomy : Roomy n (finish_run p)
  unfolding finish_run
  finish_run-Roomy = search (roomy_rules, save-Roomy) depth 32

  pub local_result-Roomy :
      (call : ToolCallRequest) (is_ok : Bool) (content : String) (code : Option ToolErrorCode)
      → Roomy n (local_result p call is_ok content code)
  unfolding local_result
  local_result-Roomy call is_ok content code = search roomy_rules depth 32

  pub note_call-Roomy : (call : ToolCallRequest) → Roomy n (note_call p call)
  unfolding note_call
  note_call-Roomy call = search roomy_rules

  pub run_gateway_tool-Roomy : (call : ToolCallRequest) → Roomy n (run_gateway_tool p call)
  unfolding run_gateway_tool
  run_gateway_tool-Roomy call = search (roomy_rules, local_result-Roomy, note_call-Roomy) depth 40

  pub add_texts-Roomy :
      (call : ToolCallRequest) (o : Option (List String)) → Roomy n (add_texts p call o)
  add_texts-Roomy call none = search (roomy_rules, local_result-Roomy)
  add_texts-Roomy call (some texts) = search (roomy_rules, local_result-Roomy) depth 32

  pub check_item-Roomy :
      (call : ToolCallRequest) (o : Option ChecklistItem) → Roomy n (check_item p call o)
  check_item-Roomy call none = search (roomy_rules, local_result-Roomy)
  check_item-Roomy call (some i) = search (roomy_rules, local_result-Roomy) depth 32

  pub fail_reason-Roomy :
      (call : ToolCallRequest) (i : ChecklistItem) (o : Option String)
      → Roomy n (fail_reason p call i o)
  fail_reason-Roomy call i none = search (roomy_rules, local_result-Roomy)
  fail_reason-Roomy call i (some reason) = search (roomy_rules, local_result-Roomy) depth 32

  pub fail_item-Roomy :
      (call : ToolCallRequest) (o : Option ChecklistItem) → Roomy n (fail_item p call o)
  fail_item-Roomy call none = search (roomy_rules, local_result-Roomy)
  fail_item-Roomy call (some i) = fail_reason-Roomy call i _

  pub note_text-Roomy : (call : ToolCallRequest) (o : Option String) → Roomy n (note_text p call o)
  note_text-Roomy call none = search (roomy_rules, local_result-Roomy)
  note_text-Roomy call (some text) = search (roomy_rules, local_result-Roomy) depth 32

  pub run_checklist-Roomy : (call : ToolCallRequest) → Roomy n (run_checklist p call)
  unfolding run_checklist
  run_checklist-Roomy call =
      search
        (
          roomy_rules, local_result-Roomy, add_texts-Roomy, check_item-Roomy, fail_item-Roomy,
          note_text-Roomy,
        )
        depth 32

  pub run_local_tool-Roomy : (call : ToolCallRequest) → Roomy n (run_local_tool p call)
  unfolding run_local_tool
  run_local_tool-Roomy call =
      search (roomy_rules, note_call-Roomy, run_checklist-Roomy, local_result-Roomy) depth 32

  pub run_tool-Roomy : (call : ToolCallRequest) → Roomy n (run_tool p call)
  unfolding run_tool
  run_tool-Roomy call = search (roomy_rules, run_local_tool-Roomy, run_gateway_tool-Roomy)

  pub turn_written-Roomy :
      (again : Run Unit) (r : Result {0, 0} RunError Unit)
      → Roomy n again
      → Roomy n (turn_written p again r)
  turn_written-Roomy again (ok done) k = search roomy_rules
  turn_written-Roomy again (err (RunError.store (StoreError.duplicate_turn id seq))) k = k
  turn_written-Roomy again (err (RunError.store StoreError.not_initialized)) k = search roomy_rules
  turn_written-Roomy again (err (RunError.store StoreError.sqlite)) k = search roomy_rules
  turn_written-Roomy again (err (RunError.store (StoreError.other e))) k = search roomy_rules
  turn_written-Roomy again (err (RunError.worker e)) k = search roomy_rules
  turn_written-Roomy again (err RunError.evidence) k = search roomy_rules
  turn_written-Roomy again (err RunError.platform) k = search roomy_rules

  pub write_at-Roomy :
      (again : Run Unit) (s : Session) (content : String) (r : Result RunError ℕ)
      → Roomy n again
      → Roomy n (write_at p again s content r)
  write_at-Roomy again s content (err e) k = search roomy_rules
  write_at-Roomy again s content (ok seq) k = search (roomy_rules, turn_written-Roomy) depth 24

  pub append_assistant_turn-Roomy :
      (m : ℕ) (s : Session) (content : String) → Roomy n (append_assistant_turn p m s content)
  unfolding append_assistant_turn
  append_assistant_turn-Roomy zero s content = search roomy_rules
  append_assistant_turn-Roomy (suc m) s content =
      Roomy-bind _ _ (search roomy_rules)
        (λ r. write_at-Roomy _ s content r (append_assistant_turn-Roomy m s content))

  pub where_none-Roomy : (m : Run Unit) (o : Option String) → Roomy n m → Roomy n (where_none p m o)
  where_none-Roomy m none k = k
  where_none-Roomy m (some id) k = search roomy_rules

  pub file_of-Roomy : (path : String) (o : Option String) → Roomy n (file_of p path o)
  file_of-Roomy path none = search roomy_rules
  file_of-Roomy path (some id) = search roomy_rules

  pub fetch_artifact-Roomy : (path : String) → Roomy n (fetch_artifact p path)
  unfolding fetch_artifact
  fetch_artifact-Roomy path = search (roomy_rules, where_none-Roomy, file_of-Roomy) depth 40

  pub send_artifact-Roomy :
      (others : Run (List String × List String)) (art : Members) (o : Option (List ℕ))
      → Roomy n others
      → Roomy n (send_artifact p others art o)
  send_artifact-Roomy others art none k = search roomy_rules
  send_artifact-Roomy others art (some content) k = search roomy_rules depth 32

  pub send_artifacts-Roomy : (artifacts : List Members) → Roomy n (send_artifacts p artifacts)
  unfolding send_artifacts
  send_artifacts-Roomy [] = search roomy_rules
  send_artifacts-Roomy (art ∷ artifacts) =
      Roomy-bind _ _ (fetch_artifact-Roomy _)
        (λ o. send_artifact-Roomy _ art o (send_artifacts-Roomy artifacts))

  pub ruleset end_rules = (
    roomy_rules, save-Roomy, close_card-Roomy, finish_run-Roomy, append_assistant_turn-Roomy,
    send_artifacts-Roomy,
  )

  pub fail-Roomy : (text : String) → Roomy n (fail p text)
  unfolding fail
  fail-Roomy text = search end_rules depth 40

  pub cancel-Roomy : Roomy n (cancel p)
  unfolding cancel
  cancel-Roomy = search end_rules depth 40

  pub deliver-Roomy :
      (text : String) (artifacts : List Members) (answering : Bool)
      → Roomy n (deliver p text artifacts answering)
  unfolding deliver
  deliver-Roomy text artifacts answering = search end_rules depth 48
