-- ===== src/Worker/OneCard/Rounds.antt =====
-- The rounds of a run keep the room for its card, and so a run sends one card at most.
use aite.Base.{
  if◌then◌else◌, length, keep, ℕ, zero, suc, ◌+◌, ◌≤◌, String, ◌≡◌, refl, Bool, true, false, Option,
  none, some, List, [], ◌∷◌, ◌++◌, arith,
}
use aite.Base.Exec.{Result, err, ok}
use aite.Contracts.Evidence.{Members}
use aite.Contracts.Protocol.{
  CardStatus, ChecklistCard, Message, ModelError, ModelTurn, ToolCallRequest,
}
use aite.Contracts.Session.{Session, Task, TaskStatus}
use aite.Control.Plane.{World, card_sent, gateway_registered, send}
use aite.Control.Races.{step}
use aite.Control.Words.{trim}
use aite.Store.Calls.{call}
use aite.Worker.Card.{ensure_card, first_card, send_card, shown_card}
use aite.Worker.Desk.{
  Desk, Ports, Run, RunError, act, ask, on_ctx, on_task, pure, reads, save, thread_root, ◌>>=◌,
  ◌>>◌,
}
use aite.Worker.Loop.{
  Flow, acted_on, agent_loop, answered, batch_done, caught, context_of, failed_anyway, final_parsed,
  next_round, registered, round, rounds, run, run_call, run_calls, run_caught, taken_down, turned,
}
use aite.Worker.OneCard.{
  Room, Roomy, Roomy-bind, Roomy-on_ctx, Roomy-record, Roomy-then, cards, cards_append,
  followed_lem, is_card, roomy_rules,
}
use aite.Worker.OneCard.Asking.{build_messages-Roomy, chat-Roomy, steer_messages-Roomy}
use aite.Worker.OneCard.Parts.{
  cancel-Roomy, deliver-Roomy, fail-Roomy, local_result-Roomy, maybe_flush-Roomy, note_call-Roomy,
  refresh_card-Roomy, run_tool-Roomy, save-Roomy,
}

abbrev carded : Option String → Desk → Desk
carded o d = record d { ctx = record d.ctx { card = record d.ctx.card { card_id = o } } }

module _ {n : ℕ} (p : Ports) where
  -- A card that was not sent before is sent, and the run knows it.
  send_lem :
      (faults : List Bool) (s : Session) (card : ChecklistCard) (d : Desk)
      → cards d.world + 1 ≤ n
      → d.ctx.card.card_id ≡ none
      → Room n (send_card p s card (record d { world = record d.world { faults = faults } })).1
  unfolding send_card send ◌>>=◌ ◌>>◌ act ask on_ctx
  send_lem [] s card d h e =
      (Roomy-record _ _).at _
        (omega (arith, cards_append d.world.outbox (card_sent s.chat_id (thread_root s) card)))
  send_lem (true ∷ faults) s card d h e = rw e h
  send_lem (false ∷ faults) s card d h e =
      (Roomy-record _ _).at _
        (omega (arith, cards_append d.world.outbox (card_sent s.chat_id (thread_root s) card)))

  and_then : (m l : Run Unit) (d : Desk) → Room n (m d).1 → Roomy n l → Room n ((m >> l) d).1
  unfolding ◌>>◌
  and_then m l d h k = followed_lem (m d) (λ _. l) h (λ _. k)

  first_card_lem :
      (d : Desk) → cards d.world + 1 ≤ n → d.ctx.card.card_id ≡ none → Room n (first_card p d).1
  unfolding ◌>>=◌ ◌>>◌ on_task reads
  first_card_lem d h e =
      let t : Task = record d.ctx.task { status = TaskStatus.working } in
      let v : Desk = record d { ctx = record d.ctx { task = t } } in
      let card = shown_card p CardStatus.working v.ctx in
      let put = on_ctx (λ c. record c { task = record c.task { card_id = c.card.card_id } }) in
      and_then (send_card p d.ctx.session card) (put >> save p) v
        (send_lem d.world.faults d.ctx.session card v h e)
        (Roomy-then put (save p) (Roomy-on_ctx _ (λ c. refl)) (save-Roomy p))

  card_lem :
      (o : Option String) (d : Desk) → Room n (carded o d) → Room n (ensure_card p (carded o d)).1
  unfolding ensure_card ◌>>=◌ reads pure
  card_lem none d h = first_card_lem (carded none d) h refl
  card_lem (some id) d h = h

  ensure_card-Roomy : Roomy n (ensure_card p)
  ensure_card-Roomy = record { at = λ d h. card_lem d.ctx.card.card_id d h }

  ruleset flow_rules = (
    roomy_rules, ensure_card-Roomy, run_tool-Roomy, local_result-Roomy, note_call-Roomy,
    deliver-Roomy, fail-Roomy, cancel-Roomy, save-Roomy, refresh_card-Roomy, maybe_flush-Roomy,
    chat-Roomy, steer_messages-Roomy,
  )

  final_parsed-Roomy :
      (call : ToolCallRequest) (rest : List ToolCallRequest) (messages : List Message)
      → (r : Result {0, 0} String (String × List Members))
      → Roomy n (final_parsed p call rest messages r)
  final_parsed-Roomy call rest messages (err content) = search flow_rules depth 24
  final_parsed-Roomy call rest messages (ok (text, artifacts)) = search flow_rules depth 24

  run_call-Roomy :
      (again : List Message → Run Flow) (call : ToolCallRequest) (rest : List ToolCallRequest)
      → (messages : List Message) → ((ms : List Message) → Roomy n (again ms))
      → Roomy n (run_call p again call rest messages)
  unfolding run_call
  run_call-Roomy again call rest messages h = search (flow_rules, final_parsed-Roomy, h) depth 40

  run_calls-Roomy :
      (calls : List ToolCallRequest) (messages : List Message)
      → Roomy n (run_calls p calls messages)
  unfolding run_calls
  run_calls-Roomy [] messages = search roomy_rules
  run_calls-Roomy (call ∷ rest) messages =
      run_call-Roomy (run_calls p rest) call rest messages (run_calls-Roomy rest)

  batch_done-Roomy : (flow : Flow) → Roomy n (batch_done p flow)
  batch_done-Roomy (Flow.ended task) = search flow_rules
  batch_done-Roomy (Flow.going messages) = search flow_rules depth 32

  acted_on-Roomy :
      (step : ℕ) (a : Message) (messages : List Message) → Roomy n (acted_on p step a messages)
  acted_on-Roomy step a messages = calls_lem a.tool_calls
    where
      calls_lem :
          (calls : List ToolCallRequest)
          → Roomy n (elim calls [
            | [] ↦ answered p step (trim a.content) messages
            | call ∷ rest ↦ run_calls p (call ∷ rest) messages >>= batch_done p
          ])
      calls_lem [] = search flow_rules depth 32
      calls_lem (call ∷ rest) =
          Roomy-bind _ _ (run_calls-Roomy (call ∷ rest) messages) batch_done-Roomy

  turned-Roomy :
      (messages : List Message) (r : Result ModelError ModelTurn) → Roomy n (turned p messages r)
  turned-Roomy messages (err e) = search flow_rules depth 24
  turned-Roomy messages (ok turn) = search (flow_rules, acted_on-Roomy) depth 24

  round-Roomy : (started : ℕ) (messages : List Message) → Roomy n (round p started messages)
  unfolding round
  round-Roomy started messages = search (flow_rules, turned-Roomy) depth 48

  next_round-Roomy :
      (again : List Message → Run (Option Task)) (flow : Flow)
      → ((ms : List Message) → Roomy n (again ms))
      → Roomy n (next_round p again flow)
  next_round-Roomy again (Flow.ended task) h = search roomy_rules
  next_round-Roomy again (Flow.going messages) h = h messages

  rounds-Roomy :
      (fuel started : ℕ) (messages : List Message) → Roomy n (rounds p fuel started messages)
  unfolding rounds
  rounds-Roomy zero started messages = search roomy_rules
  rounds-Roomy (suc fuel) started messages =
      Roomy-bind _ _ (round-Roomy started messages)
        (λ flow. next_round-Roomy _ flow (rounds-Roomy fuel started))

  agent_loop-Roomy : Roomy n (agent_loop p)
  unfolding agent_loop
  agent_loop-Roomy = search (flow_rules, build_messages-Roomy, rounds-Roomy) depth 40

  failed_anyway-Roomy : (r : Result RunError Task) → Roomy n (failed_anyway p r)
  failed_anyway-Roomy (ok task) = search roomy_rules
  failed_anyway-Roomy (err e) = search roomy_rules

  caught-Roomy : (r : Result RunError (Option Task)) → Roomy n (caught p r)
  caught-Roomy (ok o) = search roomy_rules
  caught-Roomy (err e) = search (flow_rules, failed_anyway-Roomy) depth 24

  run_caught-Roomy : Roomy n (run_caught p)
  unfolding run_caught
  run_caught-Roomy = search (roomy_rules, agent_loop-Roomy, caught-Roomy)

taken_lem :
    (p : Ports) (n : ℕ) (id : String) (r : Result RunError (Option Task) × Desk)
    → Room n r.1
    → cards (taken_down p id r).1 ≤ n
taken_lem p n id (ok o, d) h = omega arith
taken_lem p n id (err e, d) h = omega arith

registered_lem :
    (p : Ports) (task : Task) (session : Session) (b : Bool) (w : World)
    → length (keep is_card (if b then w.outbox ++ gateway_registered task.id ∷ [] else w.outbox))
      ≡ cards w
registered_lem p task session true w =
    omega (arith, cards_append w.outbox (gateway_registered task.id))
registered_lem p task session false w = refl

-- However a run goes, and whatever is answered to it, it sends one card at most.
pub cards-run :
    (p : Ports) (task : Task) (session : Session) (initiator : Option String) (w : World)
    → cards (run p task session initiator w).1 ≤ cards w + 1
unfolding run
cards-run p task session initiator w =
    let d : Desk = record {
      ctx = context_of p task session initiator;
      world = registered p task session w;
    } in
    taken_lem p (cards w + 1) task.id (run_caught p d)
      ((run_caught-Roomy p).at d (omega (arith, registered_lem p task session p.env.has_gateway w)))
