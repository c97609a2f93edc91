-- ===== src/Worker/Closed.antt =====
-- A run that ends has closed its evidence (core/crates/worker/src/loop.rs).
use aite.Base.{
  leb, eqb, if◌then◌else◌, get_last?, ℕ, zero, suc, ◌+◌, ◌*◌, String, ◌≡◌, subst, true, not, ◌&&◌,
  Option, none, some, List, [], ◌∷◌, ◌++◌, ◌==◌,
}
use aite.Base.Exec.{Result, err, ok}
use aite.Contracts.Evidence.{Members}
use aite.Contracts.Protocol.{
  Message, ModelError, ModelTurn, Role, ToolCallRequest, final_name, text_message,
}
use aite.Contracts.Session.{Task}
use aite.Control.Plane.{Entry, World}
use aite.Control.Races.{step}
use aite.Control.Words.{trim}
use aite.Store.Calls.{call}
use aite.Worker.Card.{maybe_flush}
use aite.Worker.Closing.{
  Answered, IsClosed, Yields, Yields-bind, Yields-chain, Yields-if, Yields-then, cancel-Closes,
  deliver-Closes, fail-Closes, is_closing,
}
use aite.Worker.Desk.{Desk, Ports, Run, RunContext, ask, pure, ◌>>=◌, ◌>>◌}
use aite.Worker.Final.{parse_final}
use aite.Worker.Finish.{cancel, deliver, fail}
use aite.Worker.Loop.{
  Flow, acted_on, agent_loop, answered, args_checked, batch_done, call_tool, checked_task, ending,
  final_parsed, max_consecutive_invalid_args, max_consecutive_repeats,
  max_consecutive_sandbox_errors, next_round, repeated, round, rounds, run_call, run_calls,
  run_final, sandbox_checked, spins, steered, timed, turned,
}
use aite.Worker.Texts.{invalid_args_failure, nudge_text, sandbox_failure, step_limit, wall_limit}

abbrev Left : Flow → World → Type 0
Left (Flow.ended task) w = IsClosed w
Left (Flow.going messages) w = Unit

module _ (p : Ports) where
  ending_leaves : (m : Run Task) → Yields (λ _. IsClosed) m → Yields Left (ending p m)
  unfolding pure
  ending_leaves m h = Yields-chain (λ _. IsClosed) m _ h (λ task d i. i)

  going_leaves : (messages : List Message) → Yields Left (pure (Flow.going messages))
  unfolding pure
  going_leaves messages = record { at = λ d. tt }

  failing_leaves : (text : String) → Yields Left (ending p (fail p text))
  failing_leaves text = ending_leaves (fail p text) (fail-Closes p text)

  limits_leave :
      (next : Run Flow) (c : RunContext)
      → Yields Left next
      → Yields Left (args_checked p (sandbox_checked p next c) c)
  limits_leave next c h =
      let a = invalid_args_failure c.task.task_no max_consecutive_invalid_args in
      let b = sandbox_failure c.task.task_no max_consecutive_sandbox_errors in
      Yields-if (leb max_consecutive_invalid_args c.invalid_args) (ending p (fail p a)) _
        (failing_leaves a)
        (Yields-if (leb max_consecutive_sandbox_errors c.sandbox_errors) (ending p (fail p b)) next
          (failing_leaves b) h)

  module _ (again : List Message → Run Flow) (call : ToolCallRequest) (rest : List ToolCallRequest)
      (h : (messages : List Message) → Yields Left (again messages)) (messages : List Message) where
    call_tool_leaves : (repeats : ℕ) → Yields Left (call_tool p again call repeats messages)
    call_tool_leaves repeats = Yields-then _ _ (
        Yields-bind _ _
          (λ outcome. Yields-then _ _ (Yields-bind _ _ (λ c. limits_leave _ c (h _)))))

    final_parsed_leaves :
        (r : Result {0, 0} String (String × List Members))
        → Yields Left (final_parsed p call rest messages r)
    final_parsed_leaves (err content) = Yields-then _ _ (Yields-then _ _ (going_leaves _))
    final_parsed_leaves (ok (text, artifacts)) =
        Yields-bind _ _ (λ sent. ending_leaves _ (deliver-Closes p text artifacts (not sent)))

    run_call_leaves : Yields Left (run_call p again call rest messages)
    unfolding run_call
    run_call_leaves = Yields-then _ _ (
        Yields-bind _ _ (λ c.
          Yields-if (spins call && leb max_consecutive_repeats c.repeats) (repeated p call c)
            (if call.name == final_name
              then run_final p call rest messages
              else call_tool p again call c.repeats messages)
            (failing_leaves _)
            (Yields-if (call.name == final_name) (run_final p call rest messages)
              (call_tool p again call c.repeats messages)
              (Yields-then _ _ (final_parsed_leaves (parse_final call)))
              (call_tool_leaves c.repeats))))

  run_calls_leave :
      (calls : List ToolCallRequest) (messages : List Message)
      → Yields Left (run_calls p calls messages)
  unfolding run_calls
  run_calls_leave [] messages = going_leaves messages
  run_calls_leave (call ∷ rest) messages =
      run_call_leaves (run_calls p rest) call rest (run_calls_leave rest) messages

  batch_done_leaves :
      (flow : Flow) (d : Desk) → Left flow d.world → Answered Left (batch_done p flow d)
  unfolding pure
  batch_done_leaves (Flow.ended task) d h = h
  batch_done_leaves (Flow.going messages) d h = checked.at d
    where
      checked : Yields Left (batch_done p (Flow.going messages))
      checked = Yields-bind _ _ (λ c.
          let a = invalid_args_failure c.task.task_no max_consecutive_invalid_args in
          Yields-if (leb max_consecutive_invalid_args c.invalid_args) (ending p (fail p a)) _
            (failing_leaves a) (Yields-then _ _ (Yields-then _ _ (going_leaves messages))))

  acted_on_leaves :
      (step : ℕ) (a : Message) (messages : List Message) → Yields Left (acted_on p step a messages)
  acted_on_leaves step a messages = calls_lem a.tool_calls
    where
      text : String
      text = trim a.content

      calls_lem :
          (calls : List ToolCallRequest)
          → Yields Left (elim calls [
            | [] ↦ answered p step (trim a.content) messages
            | call ∷ rest ↦ run_calls p (call ∷ rest) messages >>= batch_done p
          ])
      calls_lem [] =
          Yields-if (eqb step 0 && not (trim a.content == ""))
            (ending p (deliver p (trim a.content) [] true))
            (maybe_flush p
              >> pure (Flow.going (messages ++ text_message Role.system nudge_text ∷ [])))
            (ending_leaves _ (deliver-Closes p (trim a.content) [] true))
            (Yields-then _ _ (going_leaves _))
      calls_lem (call ∷ rest) =
          Yields-chain Left _ _ (run_calls_leave (call ∷ rest) messages) batch_done_leaves

  turned_leaves :
      (messages : List Message) (r : Result ModelError ModelTurn)
      → Yields Left (turned p messages r)
  turned_leaves messages (err e) = Yields-bind _ _ (λ id. failing_leaves _)
  turned_leaves messages (ok turn) =
      Yields-bind _ _
        (λ step. Yields-then _ _ (Yields-then _ _ (acted_on_leaves step turn.message _)))

  steered_leaves : (messages : List Message) → Yields Left (steered p messages)
  steered_leaves messages = Yields-bind _ _ (λ id.
      Yields-bind _ _
        (λ texts. Yields-bind _ _ (λ steer. Yields-bind _ _ (λ turn. turned_leaves _ turn))))

  checked_task_leaves :
      (started : ℕ) (messages : List Message) (t : Task)
      → Yields Left (checked_task p started messages t)
  checked_task_leaves started messages t =
      Yields-if (leb t.max_steps t.steps) (ending p (fail p (step_limit t.task_no)))
        (ask p.monotonic >>= λ time. timed p started messages time t)
        (failing_leaves (step_limit t.task_no))
        (Yields-bind _ _ (λ time.
          Yields-if (leb (started + t.max_wall_sec * 1000000) time)
            (ending p (fail p (wall_limit t.task_no))) (steered p messages)
            (failing_leaves (wall_limit t.task_no)) (steered_leaves messages)))

  round_leaves : (started : ℕ) (messages : List Message) → Yields Left (round p started messages)
  unfolding round
  round_leaves started messages = Yields-bind _ _ (λ cancelled. Yields-bind _ _ (λ t.
      Yields-if cancelled (ending p (cancel p)) (checked_task p started messages t)
        (ending_leaves (cancel p) (cancel-Closes p)) (checked_task_leaves started messages t)))

  abbrev Over : Option Task → World → Type 0
  Over none w = Unit
  Over (some task) w = IsClosed w

  next_round_closes :
      (again : List Message → Run (Option Task)) (flow : Flow) (d : Desk)
      → ((messages : List Message) → Yields Over (again messages))
      → Left flow d.world
      → Answered Over (next_round p again flow d)
  unfolding pure
  next_round_closes again (Flow.ended task) d h i = i
  next_round_closes again (Flow.going messages) d h i = (h messages).at d

  rounds_close :
      (fuel started : ℕ) (messages : List Message) → Yields Over (rounds p fuel started messages)
  unfolding rounds pure
  rounds_close zero started messages = record { at = λ d. tt }
  rounds_close (suc fuel) started messages =
      Yields-chain Left _ _ (round_leaves started messages)
        (λ flow d i. next_round_closes (rounds p fuel started) flow d (rounds_close fuel started) i)

  agent_loop-Yields : Yields Over (agent_loop p)
  unfolding agent_loop
  agent_loop-Yields = Yields-bind _ _ (λ messages. Yields-then _ _ (
      Yields-then _ _ (
        Yields-bind _ _
          (λ started. Yields-bind _ _ (λ t. rounds_close (suc t.max_steps) started messages)))))

-- When the loop returns a task, whether delivered, failed or cancelled, the last entry of evidence
-- written by then is one of a kind that closes a chain: delivered, failed or cancelled. In
-- particular no update of the card is recorded behind it.
pub agent_loop-IsClosed :
    (p : Ports) (d : Desk) (t : Task)
    → (agent_loop p d).0 ≡ ok (some t)
    → (e : Entry) × ((get_last? (agent_loop p d).1.world.entries ≡ some e)
        × (is_closing e.kind ≡ true))
agent_loop-IsClosed p d t h =
    subst (λ r. Answered (Over p) (r, (agent_loop p d).1)) h ((agent_loop-Yields p).at d)
