-- ===== src/Worker/Rounds.antt =====
-- Every run comes to an end: with enough rounds for its limit of steps it has a final status.
-- How a round answers: with a task that has ended, or after one step within the limit.
use aite.Base.{
  leb, eqb, if◌then◌else◌, ℕ, suc, ◌+◌, ◌*◌, ◌≤◌, ◌<◌, String, refl, true, not, ◌&&◌, List, [], ◌∷◌,
  ◌++◌, arith, ◌==◌,
}
use aite.Base.Exec.{Result, err, ok}
use aite.Contracts.Evidence.{Members}
use aite.Contracts.Protocol.{
  Message, ModelError, ModelTurn, Role, ToolCallRequest, final_name, text_message,
}
use aite.Contracts.Session.{Task}
use aite.Control.Races.{step}
use aite.Control.Words.{trim}
use aite.Store.Calls.{call}
use aite.Worker.Card.{maybe_flush}
use aite.Worker.Desk.{Ports, Run, RunContext, ask, pure, ◌>>=◌, ◌>>◌}
use aite.Worker.Ending.{
  At, At-IsSteady, At-Within, IsEnd, Within, cancel-IsEnd, deliver-IsEnd, fail-IsEnd,
}
use aite.Worker.Final.{parse_final}
use aite.Worker.Finish.{cancel, deliver, fail}
use aite.Worker.Frame.{
  IsSteady, Keeps-act, Keeps-ask, Keeps-reads, about, maybe_flush-Keeps, record_event-Keeps,
  refresh_card-Keeps, save-Keeps,
}
use aite.Worker.Frame.Ends.{chat-Keeps, steer_messages-Keeps}
use aite.Worker.Frame.Tools.{
  ensure_card-Keeps, local_result-Keeps, note_call-Keeps, run_tool-Keeps, steady_ctx,
}
use aite.Worker.Leads.{
  Leads, Leads-bind, Leads-if, Leads-on_task, Leads-pure, Leads-read, Leads-weaken, keep_bind,
  keep_then,
}
use aite.Worker.Loop.{
  Flow, acted_on, answered, args_checked, batch_done, call_tool, checked_task, ending, final_parsed,
  max_consecutive_invalid_args, max_consecutive_repeats, max_consecutive_sandbox_errors, repeated,
  round, round_off, run_call, run_calls, run_final, sandbox_checked, spins, steered, timed, turned,
}
use aite.Worker.Texts.{
  invalid_args_failure, nudge_text, repeat_failure, sandbox_failure, step_limit, wall_limit,
}

abbrev pub Went : ℕ → ℕ → ℕ → Flow → Task → Type 0
Went n k m (Flow.ended task) t = IsEnd n task
Went n k m (Flow.going messages) t = At (suc k) m t × (k < m)

-- The answer of a batch of calls: a batch that goes on leaves the count alone.
abbrev Stayed : ℕ → ℕ → ℕ → Flow → Task → Type 0
Stayed n k m (Flow.ended task) t = IsEnd n task
Stayed n k m (Flow.going messages) t = At k m t

module _ (p : Ports) (n k m : ℕ) (le : k ≤ n) where
  abbrev q : IsSteady (At k m)
  q = At-IsSteady k m

  ending-Stayed :
      (x : Run Task)
      → Leads (At k m) x (λ t _. IsEnd n t) (Within n)
      → Leads (At k m) (ending p x) (Stayed n k m) (Within n)
  ending-Stayed x h =
      Leads-bind (λ t _. IsEnd n t) x _ h (λ t. Leads-pure (Flow.ended t) (λ u i. i))

  failed_with : (text : String) → Leads (At k m) (ending p (fail p text)) (Stayed n k m) (Within n)
  failed_with text = ending-Stayed (fail p text) (fail-IsEnd p n k m le text)

  below_lem : (t : Task) → At k m t → Within n t
  below_lem = At-Within p n k m le

  args_checked-Stayed :
      (next : Run Flow) (c : RunContext)
      → Leads (At k m) next (Stayed n k m) (Within n)
      → Leads (At k m) (args_checked p next c) (Stayed n k m) (Within n)
  args_checked-Stayed next c h =
      let text = invalid_args_failure c.task.task_no max_consecutive_invalid_args in
      Leads-if (leb max_consecutive_invalid_args c.invalid_args) (ending p (fail p text)) next
        (λ _. failed_with text) (λ _. h)

  sandbox_checked-Stayed :
      (next : Run Flow) (c : RunContext)
      → Leads (At k m) next (Stayed n k m) (Within n)
      → Leads (At k m) (sandbox_checked p next c) (Stayed n k m) (Within n)
  sandbox_checked-Stayed next c h =
      let text = sandbox_failure c.task.task_no max_consecutive_sandbox_errors in
      Leads-if (leb max_consecutive_sandbox_errors c.sandbox_errors) (ending p (fail p text)) next
        (λ _. failed_with text) (λ _. h)

  module _ (again : List Message → Run Flow)
      (h : (messages : List Message)
        → Leads (At k m) (again messages) (Stayed n k m) (Within n)) where
    call_tool-Stayed :
        (call : ToolCallRequest) (repeats : ℕ) (messages : List Message)
        → Leads (At k m) (call_tool p again call repeats messages) (Stayed n k m) (Within n)
    call_tool-Stayed call repeats messages = keep_then _ _ below_lem (ensure_card-Keeps q p) (
        keep_bind _ _ below_lem (run_tool-Keeps q p call) (λ outcome.
          keep_then _ _ below_lem (steady_ctx q p _ (λ c. refl) (λ c. refl)) (
            keep_bind _ _ below_lem (Keeps-reads _)
              (λ c. args_checked-Stayed _ c (sandbox_checked-Stayed _ c (h _))))))

    final_parsed-Stayed :
        (call : ToolCallRequest) (rest : List ToolCallRequest) (messages : List Message)
        → (r : Result {0, 0} String (String × List Members))
        → Leads (At k m) (final_parsed p call rest messages r) (Stayed n k m) (Within n)
    final_parsed-Stayed call rest messages (err content) =
        keep_then _ _ below_lem (local_result-Keeps q p call _ _ _) (
          keep_then _ _ below_lem (steady_ctx q p _ (λ c. refl) (λ c. refl))
            (Leads-pure _ (λ t i. i)))
    final_parsed-Stayed call rest messages (ok (text, artifacts)) =
        keep_bind _ _ below_lem (Keeps-reads _)
          (λ sent. ending-Stayed _ (deliver-IsEnd p n k m le text artifacts _))

    unrepeated-Stayed :
        (call : ToolCallRequest) (rest : List ToolCallRequest) (repeats : ℕ)
        → (messages : List Message)
        → Leads
            (At k m)
            (if call.name == final_name
              then run_final p call rest messages
              else call_tool p again call repeats messages)
            (Stayed n k m)
            (Within n)
    unrepeated-Stayed call rest repeats messages =
        Leads-if (call.name == final_name) (run_final p call rest messages)
          (call_tool p again call repeats messages)
          (λ _.
            keep_then _ _ below_lem (note_call-Keeps q p call)
              (final_parsed-Stayed call rest messages (parse_final call)))
          (λ _. call_tool-Stayed call repeats messages)

    run_call-Stayed :
        (call : ToolCallRequest) (rest : List ToolCallRequest) (messages : List Message)
        → Leads (At k m) (run_call p again call rest messages) (Stayed n k m) (Within n)
    unfolding run_call
    run_call-Stayed call rest messages =
        keep_then _ _ below_lem (steady_ctx q p _ (λ c. refl) (λ c. refl)) (
          keep_bind _ _ below_lem (Keeps-reads _) (λ c.
            Leads-if (spins call && leb max_consecutive_repeats c.repeats) (repeated p call c)
              (if call.name == final_name
                then run_final p call rest messages
                else call_tool p again call c.repeats messages)
              (λ _. failed_with (repeat_failure c.task.task_no max_consecutive_repeats call.name))
              (λ _. unrepeated-Stayed call rest c.repeats messages)))

  run_calls-Stayed :
      (calls : List ToolCallRequest) (messages : List Message)
      → Leads (At k m) (run_calls p calls messages) (Stayed n k m) (Within n)
  unfolding run_calls
  run_calls-Stayed [] messages = Leads-pure _ (λ t i. i)
  run_calls-Stayed (call ∷ rest) messages =
      run_call-Stayed (run_calls p rest) (run_calls-Stayed rest) call rest messages

  round_off-Stayed :
      (messages : List Message) → Leads (At k m) (round_off p messages) (Stayed n k m) (Within n)
  round_off-Stayed messages =
      keep_then _ _ below_lem (refresh_card-Keeps (about _ q) p _)
        (keep_then _ _ below_lem (save-Keeps (about _ q) p) (Leads-pure _ (λ t i. i)))

  batch_done-Stayed :
      (flow : Flow) → Leads (Stayed n k m flow) (batch_done p flow) (Stayed n k m) (Within n)
  batch_done-Stayed (Flow.ended task) = Leads-pure _ (λ t i. i)
  batch_done-Stayed (Flow.going messages) =
      keep_bind _ _ below_lem (Keeps-reads _)
        (λ c. args_checked-Stayed _ c (round_off-Stayed messages))

  answered-Stayed :
      (step : ℕ) (text : String) (messages : List Message)
      → Leads (At k m) (answered p step text messages) (Stayed n k m) (Within n)
  answered-Stayed step text messages =
      Leads-if (eqb step 0 && not (text == "")) (ending p (deliver p text [] true))
        (maybe_flush p >> pure (Flow.going (messages ++ text_message Role.system nudge_text ∷ [])))
        (λ _. ending-Stayed _ (deliver-IsEnd p n k m le text [] true))
        (λ _. keep_then _ _ below_lem (maybe_flush-Keeps (about _ q) p) (Leads-pure _ (λ t i. i)))

  acted_on-Stayed :
      (step : ℕ) (a : Message) (messages : List Message)
      → Leads (At k m) (acted_on p step a messages) (Stayed n k m) (Within n)
  acted_on-Stayed step a messages = calls_lem a.tool_calls
    where
      calls_lem :
          (calls : List ToolCallRequest)
          → Leads
              (At k m)
              (elim calls [
                | [] ↦ answered p step (trim a.content) messages
                | call ∷ rest ↦ run_calls p (call ∷ rest) messages >>= batch_done p
              ])
              (Stayed n k m)
              (Within n)
      calls_lem [] = answered-Stayed step (trim a.content) messages
      calls_lem (call ∷ rest) =
          Leads-bind (Stayed n k m) _ _ (run_calls-Stayed (call ∷ rest) messages) batch_done-Stayed

-- One round, from `k` steps.
module _ (p : Ports) (n k m : ℕ) (le : k ≤ n) (top : m ≤ n) where
  ended_lem :
      (x : Run Task)
      → Leads (At k m) x (λ t _. IsEnd n t) (Within n)
      → Leads (At k m) (ending p x) (Went n k m) (Within n)
  ended_lem x h = Leads-bind (λ t _. IsEnd n t) x _ h (λ t. Leads-pure (Flow.ended t) (λ u i. i))

  failed_at : (text : String) → Leads (At k m) (ending p (fail p text)) (Went n k m) (Within n)
  failed_at text = ended_lem (fail p text) (fail-IsEnd p n k m le text)

  module _ (lt : k < m) where
    stepped_lem : (flow : Flow) (t : Task) → Stayed n (suc k) m flow t → Went n k m flow t
    stepped_lem (Flow.ended task) t h = h
    stepped_lem (Flow.going messages) t h = (h, lt)

    up : suc k ≤ n
    up = omega arith

    turned-Went :
        (messages : List Message) (r : Result ModelError ModelTurn)
        → Leads (At k m) (turned p messages r) (Went n k m) (Within n)
    turned-Went messages (err e) =
        keep_bind _ _ (At-Within p n k m le) (Keeps-reads _) (λ id. failed_at _)
    turned-Went messages (ok turn) = keep_bind _ _ (At-Within p n k m le) (Keeps-reads _) (λ step.
        Leads-on_task (At (suc k) m) _ _ (λ t h. (omega (arith, h.0), h.1))
          (keep_then _ _ (At-Within p n (suc k) m up) (record_event-Keeps _ _)
            (Leads-weaken stepped_lem (acted_on-Stayed p n (suc k) m up step turn.message _))))

    steered-Went :
        (messages : List Message) → Leads (At k m) (steered p messages) (Went n k m) (Within n)
    steered-Went messages =
        let w = At-Within p n k m le in
        keep_bind _ _ w (Keeps-reads _) (λ id. keep_bind _ _ w (Keeps-act _) (λ texts.
          keep_bind _ _ w (steer_messages-Keeps texts)
            (λ steer. keep_bind _ _ w (chat-Keeps p _) (λ turn. turned-Went _ turn))))

    timed-Went :
        (started : ℕ) (messages : List Message) (time : ℕ) (t : Task)
        → Leads (At k m) (timed p started messages time t) (Went n k m) (Within n)
    timed-Went started messages time t =
        Leads-if (leb (started + t.max_wall_sec * 1000000) time)
          (ending p (fail p (wall_limit t.task_no))) (steered p messages)
          (λ _. failed_at (wall_limit t.task_no)) (λ _. steered-Went messages)

  checked_task-Went :
      (started : ℕ) (messages : List Message) (t : Task)
      → At k m t
      → Leads (At k m) (checked_task p started messages t) (Went n k m) (Within n)
  checked_task-Went started messages t h =
      Leads-if (leb t.max_steps t.steps) (ending p (fail p (step_limit t.task_no)))
        (ask p.monotonic >>= λ time. timed p started messages time t)
        (λ _. failed_at (step_limit t.task_no))
        (λ below.
          keep_bind _ _ (At-Within p n k m le) (Keeps-ask _)
            (λ time. timed-Went (ground (arith, h.0, h.1)) started messages time t))

  pub round-Went :
      (started : ℕ) (messages : List Message)
      → Leads (At k m) (round p started messages) (Went n k m) (Within n)
  unfolding round
  round-Went started messages = keep_bind _ _ (At-Within p n k m le) (Keeps-reads _) (λ cancelled.
      Leads-read _ _ (λ d h.
        Leads-if cancelled (ending p (cancel p)) (checked_task p started messages d.ctx.task)
          (λ _. ended_lem (cancel p) (cancel-IsEnd p n k m le))
          (λ _. checked_task-Went started messages d.ctx.task h)))
