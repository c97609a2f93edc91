-- ===== src/Worker/Loop.antt =====
-- core/crates/worker/src/loop.rs: the rounds of a run, and `run`. Counters of tokens are unbounded;
-- the hooks of budget.rs are stubs that never stop a run. A run has `max_steps + 1` rounds at most.
use aite.Base.{
  leb, eqb, if◌then◌else◌, join, ℕ, zero, suc, ◌+◌, ◌*◌, String, Bool, true, false, not, ◌&&◌,
  Option, none, some, List, [], ◌∷◌, ◌++◌, map, ◌==◌,
}
use aite.Base.Exec.{Result, err, ok}
use aite.Contracts.Evidence.{EvidenceKind, Members, Value}
use aite.Contracts.Protocol.{
  CardStatus, Message, ModelError, ModelTurn, Role, ToolCallRequest, ToolErrorCode, Usage,
  final_name, is_local_tool, text_message,
}
use aite.Contracts.Session.{Session, Task, TaskStatus}
use aite.Control.Plane.{Act, World, drain_steer, gateway_registered, has, reply}
use aite.Control.Races.{step}
use aite.Control.Sessions.{filled_text, initiator_of, or_text}
use aite.Control.Words.{clip, max_title_chars, trim}
use aite.Store.Calls.{call}
use aite.Worker.Card.{ensure_card, is_sent, maybe_flush, refresh_card}
use aite.Worker.Checklist.{run_tool}
use aite.Worker.Context.{trim_to_budget}
use aite.Worker.Desk.{
  Desk, Ports, Run, RunContext, RunError, act, ask, attempted, number_of, on_ctx, on_task, pure,
  reads, record_event, save, text_of, without_live, ◌>>=◌, ◌>>◌,
}
use aite.Worker.Final.{parse_final}
use aite.Worker.Fingerprint.{call_signature}
use aite.Worker.Finish.{cancel, deliver, fail}
use aite.Worker.Messages.{build_messages, steer_messages}
use aite.Worker.Retry.{chat}
use aite.Worker.Texts.{
  invalid_args_failure, model_unavailable, nudge_text, repeat_failure, repeat_nudge, run_error,
  sandbox_failure, skipped_after_invalid_final, step_limit, wall_limit,
}
use aite.Worker.Tools.{ToolOutcome, local_result, note_call, tool_message}

abbrev pub max_consecutive_invalid_args : ℕ
max_consecutive_invalid_args = 3

abbrev pub max_consecutive_sandbox_errors : ℕ
max_consecutive_sandbox_errors = 2

abbrev pub repeat_nudge_at : ℕ
repeat_nudge_at = 3

abbrev pub max_consecutive_repeats : ℕ
max_consecutive_repeats = 5

-- A round ends the run, or the run goes on with these messages.
pub data Flow : Type 0 where
  ended : Task → Flow
  going : List Message → Flow

abbrev same_sig : Option String → String → Bool
same_sig none sig = false
same_sig (some old) sig = old == sig

abbrev count_repeat : ToolCallRequest → RunContext → RunContext
count_repeat call c =
    let sig = call_signature call in
    record c {
      repeats = if same_sig c.last_call_sig sig then c.repeats + 1 else 1;
      last_call_sig = some sig;
    }

abbrev is_invalid_args : Option ToolErrorCode → Bool
is_invalid_args (some ToolErrorCode.invalid_args) = true
is_invalid_args _ = false

abbrev is_sandbox : Option ToolErrorCode → Bool
is_sandbox (some ToolErrorCode.sandbox) = true
is_sandbox _ = false

-- How a counter of consecutive failures goes on.
abbrev count_failure : Bool → Bool → ℕ → ℕ
count_failure failed is_ok n = if failed then n + 1 else if is_ok then 0 else n

abbrev count_outcome : ToolOutcome → RunContext → RunContext
count_outcome o c = record c {
  invalid_args = count_failure (is_invalid_args o.error_code) o.is_ok c.invalid_args;
  sandbox_errors = count_failure (is_sandbox o.error_code) o.is_ok c.sandbox_errors;
}

-- The messages for the calls behind a `final` that was refused.
abbrev pub skipped : List ToolCallRequest → List Message
skipped calls = map (λ call. tool_message call skipped_after_invalid_final) calls

abbrev pub spins : ToolCallRequest → Bool
spins call = not (is_local_tool call.name)

abbrev pub nudges : ToolCallRequest → ℕ → List Message
nudges call repeats =
    if spins call && eqb repeats repeat_nudge_at
    then text_message Role.system (repeat_nudge repeats call.name) ∷ []
    else []

abbrev usage_value : Usage → Value
usage_value u = Value.object (
    number_of "input_tokens" u.input_tokens
      (number_of "output_tokens" u.output_tokens Members.no_members))

module _ (p : Ports) where
  abbrev pub ending : Run Task → Run Flow
  ending m = do task ← m; pure (Flow.ended task)

  abbrev task_no : Run String
  task_no = reads (λ d. d.ctx.task.task_no)

  -- The two limits on consecutive failures.
  abbrev pub sandbox_checked : Run Flow → RunContext → Run Flow
  sandbox_checked next c =
      if leb max_consecutive_sandbox_errors c.sandbox_errors
      then ending (fail p (sandbox_failure c.task.task_no max_consecutive_sandbox_errors))
      else next

  abbrev pub args_checked : Run Flow → RunContext → Run Flow
  args_checked next c =
      if leb max_consecutive_invalid_args c.invalid_args
      then ending (fail p (invalid_args_failure c.task.task_no max_consecutive_invalid_args))
      else next

  abbrev pub call_tool : (List Message → Run Flow) → ToolCallRequest → ℕ → List Message → Run Flow
  call_tool again call repeats messages = do
    ensure_card p
    outcome ← run_tool p call
    on_ctx (count_outcome outcome)
    c ← reads (λ d. d.ctx)
    args_checked
        (sandbox_checked
          (again (messages ++ tool_message call outcome.content ∷ nudges call repeats)) c)
        c

  abbrev count_invalid : RunContext → RunContext
  count_invalid c = record c { invalid_args = c.invalid_args + 1 }

  -- A refused `final` ends the batch: the calls behind it are answered and not run.
  abbrev pub final_parsed :
      ToolCallRequest
      → List ToolCallRequest
      → List Message
      → Result {0, 0} String (String × List Members)
      → Run Flow
  final_parsed call rest messages (err content) = do
    local_result p call false content (some ToolErrorCode.invalid_args)
    on_ctx count_invalid
    pure (Flow.going (messages ++ tool_message call content ∷ skipped rest))
  final_parsed call rest messages (ok (reply, artifacts)) = do
    sent ← reads (λ d. is_sent d.ctx.card)
    ending (deliver p reply artifacts (not sent))

  abbrev pub run_final : ToolCallRequest → List ToolCallRequest → List Message → Run Flow
  run_final call rest messages = do
    note_call p call
    final_parsed call rest messages (parse_final call)

  abbrev pub repeated : ToolCallRequest → RunContext → Run Flow
  repeated call c =
      ending (fail p (repeat_failure c.task.task_no max_consecutive_repeats call.name))

  -- The fifth call in a row that is the same is not run, unless it is local.
  unfoldable pub run_call :
      (List Message → Run Flow) → ToolCallRequest → List ToolCallRequest → List Message → Run Flow
  run_call again call rest messages = do
    on_ctx (count_repeat call)
    c ← reads (λ d. d.ctx)
    (if spins call && leb max_consecutive_repeats c.repeats
        then repeated call c
        else if call.name == final_name
        then run_final call rest messages
        else call_tool again call c.repeats messages)

  -- The calls of one turn, in their order.
  unfoldable pub run_calls : List ToolCallRequest → List Message → Run Flow
  run_calls [] messages = pure (Flow.going messages)
  run_calls (call ∷ rest) messages = run_call (run_calls rest) call rest messages

  -- Behind the calls of a round that did not end the run.
  abbrev pub round_off : List Message → Run Flow
  round_off messages = do refresh_card p CardStatus.working; save p; pure (Flow.going messages)

  abbrev pub batch_done : Flow → Run Flow
  batch_done (Flow.ended task) = pure (Flow.ended task)
  batch_done (Flow.going messages) = reads (λ d. d.ctx) >>= args_checked (round_off messages)

  abbrev model_payload : ℕ → List Message → ModelTurn → Members
  model_payload step messages turn = text_of "model" p.env.model_name (
      number_of "step" step (
        text_of "messages_hash" (p.sha256_hex (join "\n" (map p.write_message messages))) (
          Members.member "usage" (usage_value turn.usage)
            (text_of "finish_reason" turn.finish_reason Members.no_members))))

  abbrev pub book : Usage → Task → Task
  book u t = record t {
    steps = t.steps + 1;
    tokens_in = t.tokens_in + u.input_tokens;
    tokens_out = t.tokens_out + u.output_tokens;
    cost = p.add_price t.cost u.input_tokens u.output_tokens;
  }

  -- An answer without calls ends the run in its first step only, and when it is not blank.
  abbrev pub answered : ℕ → String → List Message → Run Flow
  answered step text messages =
      if eqb step 0 && not (text == "") then ending (deliver p text [] true) else (do
        maybe_flush p
        pure (Flow.going (messages ++ text_message Role.system nudge_text ∷ [])))

  abbrev pub acted_on : ℕ → Message → List Message → Run Flow
  acted_on step m messages = elim m.tool_calls [
    | [] ↦ answered step (trim m.content) messages
    | call ∷ calls ↦ run_calls (call ∷ calls) messages >>= batch_done
  ]

  abbrev pub turned : List Message → Result ModelError ModelTurn → Run Flow
  turned messages (err e) = do id ← task_no; ending (fail p (model_unavailable id))
  turned messages (ok turn) = do
    step ← reads (λ d. d.ctx.task.steps)
    on_task (book turn.usage)
    record_event EvidenceKind.model_call (model_payload step messages turn)
    acted_on step turn.message (messages ++ turn.message ∷ [])

  abbrev pub steered : List Message → Run Flow
  steered messages = do
    id ← reads (λ d. d.ctx.task.id)
    texts ← act (drain_steer id)
    steer ← steer_messages texts
    let trimmed = (trim_to_budget (messages ++ steer) p.context_max_tokens).0
    turn ← chat p trimmed
    turned trimmed turn

  abbrev pub timed : ℕ → List Message → ℕ → Task → Run Flow
  timed started messages time t =
      if leb (started + t.max_wall_sec * 1000000) time
      then ending (fail p (wall_limit t.task_no))
      else steered messages

  abbrev pub checked_task : ℕ → List Message → Task → Run Flow
  checked_task started messages t =
      if leb t.max_steps t.steps
      then ending (fail p (step_limit t.task_no))
      else (do time ← ask p.monotonic; timed started messages time t)

  -- One turn of the loop.
  unfoldable pub round : ℕ → List Message → Run Flow
  round started messages = do
    cancelled ← reads (λ d. has d.world.shared.cancelled d.ctx.task.id)
    t ← reads (λ d. d.ctx.task)
    if cancelled then ending (cancel p) else checked_task started messages t

  abbrev pub next_round : (List Message → Run (Option Task)) → Flow → Run (Option Task)
  next_round again (Flow.ended task) = pure (some task)
  next_round again (Flow.going messages) = again messages

  unfoldable pub rounds : ℕ → ℕ → List Message → Run (Option Task)
  rounds zero started messages = pure none
  rounds (suc fuel) started messages =
      let again = rounds fuel started in round started messages >>= next_round again

  abbrev raw_title : String → String
  raw_title last = if last == "" then "处理中" else last

  abbrev pub plan : RunContext → RunContext
  plan c = record c {
    task = record c.task {
      title =
          if c.task.title == ""
          then clip (raw_title c.last_user_turn) max_title_chars
          else c.task.title;
      status = TaskStatus.planning;
      model = p.env.model_name;
    };
  }

  unfoldable pub agent_loop : Run (Option Task)
  agent_loop = do
    messages ← build_messages p
    on_ctx plan
    save p
    started ← ask p.monotonic
    t ← reads (λ d. d.ctx.task)
    rounds (suc t.max_steps) started messages

  abbrev set_status : TaskStatus → Task → Task
  set_status s t = record t { status = s }

  -- The end of a run whose `fail` failed too.
  abbrev pub failed_anyway : Result RunError Task → Run (Option Task)
  failed_anyway (ok task) = pure (some task)
  failed_anyway (err e) = reads (λ d. some (set_status TaskStatus.failed d.ctx.task))

  abbrev pub caught : Result RunError (Option Task) → Run (Option Task)
  caught (ok task) = pure task
  caught (err e) = do
    id ← task_no
    r ← attempted (fail p (run_error id (p.error_text e)))
    failed_anyway r

  unfoldable pub run_caught : Run (Option Task)
  run_caught = do r ← attempted agent_loop; caught r

  abbrev pub context_of : Task → Session → Option String → RunContext
  context_of task session initiator = record {
    task = task;
    session = session;
    card = record { card_id = none; pending = none; last_flush = 0; pushes = 0; merged = 0 };
    initiator = or_text (filled_text initiator) session.created_by;
    note = none;
    invalid_args = 0;
    sandbox_errors = 0;
    repeats = 0;
    last_call_sig = none;
    attachments_message_id = none;
    names = [];
    claimed_turns = [];
    last_user_turn = "";
  }

  abbrev pub registered : Task → Session → World → World
  registered task session w = record w {
    outbox = if p.env.has_gateway then w.outbox ++ gateway_registered task.id ∷ [] else w.outbox;
    in_flight = (task.id, (task, session)) ∷ without_live task.id w.in_flight;
  }

  abbrev pub taken_down : String → Result RunError (Option Task) × Desk → Option Task × World
  taken_down id (err e, d) =
      (none, record d.world { in_flight = without_live id d.world.in_flight })
  taken_down id (ok task, d) =
      (task, record d.world { in_flight = without_live id d.world.in_flight })

  -- `TaskWorker::run`
  unfoldable pub run : Task → Session → Option String → World → Option Task × World
  run task session initiator w = taken_down task.id (
      run_caught
        (record { ctx = context_of task session initiator; world = registered task session w }))

  -- The worker that the dispatch runs.
  unfoldable pub as_worker : Task → Session → Act Unit
  as_worker task session w = (ok tt, (run task session (some (initiator_of session)) w).1)
