-- ===== src/Tests/OfWorker.antt =====
-- Runs of the worker and of its theorems.
use aite.Base.{
  leb, if◌then◌else◌, get_last?, any, ℕ, zero, suc, ◌+◌, ◌*◌, ◌≤◌, ◌≡◌, refl, true, Option, none,
  some, List, [], ◌∷◌, map, arith,
}
use aite.Base.Exec.{Result, ok}
use aite.Contracts.Evidence.{Elements, Members, Value, canonical_json}
use aite.Contracts.Protocol.{
  Message, ModelError, ModelTurn, Role, ToolCallRequest, get_member, is_local_tool,
}
use aite.Contracts.Session.{Task, TaskStatus, Turn, is_terminal}
use aite.Control.Dispatch.{finalize_port}
use aite.Control.Plane.{Entry, append_evidence, drain_steer, now, on_db, send}
use aite.Control.Words.{is_whitespace, trim}
use aite.Gateway.Results.{clip}
use aite.Store.{with_conn}
use aite.Store.Statements.{insert_turn, next_seq, select_next_seq, select_turns, write_task}
use aite.Tests.Data.{env, session, turn, working_task, world}
use aite.Worker.Card.{close_card, ensure_card, flush, maybe_flush, refresh_card, send_card}
use aite.Worker.Checklist.{run_tool}
use aite.Worker.Closed.{agent_loop-IsClosed}
use aite.Worker.Closing.{is_closing}
use aite.Worker.Context.{
  assemble, attributed_turns, estimate_tokens, is_tool, transcript_messages, trim_from,
  trim_to_budget,
}
use aite.Worker.Desk.{Desk, Ports, act, ask, attempted, on_ctx, on_task, reads, record_event, save}
use aite.Worker.Ended.{run-IsTerminal, run_max_steps}
use aite.Worker.Final.{parse_final}
use aite.Worker.Fingerprint.{call_signature}
use aite.Worker.Finish.{append_assistant_turn, cancel, deliver, finish_run, send_artifacts}
use aite.Worker.Loop.{agent_loop, context_of, round, rounds, run_call, run_calls, run_caught}
use aite.Worker.Masked.{Notes, note_call-Notes}
use aite.Worker.Messages.{build_messages, display_name, steer_messages, steer_speaker}
use aite.Worker.OneCard.{cards}
use aite.Worker.OneCard.Rounds.{cards-run}
use aite.Worker.Pairing.{answered_ids, run_calls-answered_ids}
use aite.Worker.Redact.{is_latin}
use aite.Worker.Retry.{chat, chat_with}
use aite.Worker.Retrying.{chat-model_calls, model_calls}
use aite.Worker.Texts.{
  final_reply_required, skipped_after_invalid_final, tool_result_trimmed, wrap_external,
}
use aite.Worker.Tools.{local_result, note_call, run_gateway_tool, tool_message}
use aite.Worker.Transcript.{Transcribes, transcript_messages-Transcribes}
use aite.Worker.Trimming.{bare, trim_to_budget-bare, trim_to_budget-estimate_tokens}

abbrev arguments : Members
arguments =
    Members.member "Token" (Value.text "t0k")
      (Members.member "note" (Value.text "a") Members.no_members)

abbrev search_call : ToolCallRequest
search_call = record { call_id = "c1"; name = "search"; arguments = arguments }

abbrev final_call : ToolCallRequest
final_call = record {
  call_id = "c2";
  name = "final";
  arguments = Members.member "reply" (Value.text "done") Members.no_members;
}

abbrev bad_final : ToolCallRequest
bad_final = record { call_id = "c3"; name = "final"; arguments = Members.no_members }

abbrev turn_with : List ToolCallRequest → ModelTurn
turn_with calls = record {
  message = record {
    role = Role.assistant;
    content = "";
    tool_calls = calls;
    tool_call_id = none;
    name = none;
  };
  usage = record { input_tokens = 7; output_tokens = 3 };
  finish_reason = "tool_calls";
}

-- The model calls a tool until it has seen a result, and then gives its answer.
abbrev answer_to : List Message → Result {0, 0} ModelError ModelTurn
answer_to messages =
    if any (λ m. is_tool m.role) messages
    then ok (turn_with (final_call ∷ []))
    else ok (turn_with (search_call ∷ []))

abbrev ports : Ports
ports = record {
  env = env;
  monotonic = λ n. 1000 * n;
  answer = λ n. answer_to;
  tool = λ n ctx call. record {
    call_id = call.call_id;
    name = call.name;
    is_ok = true;
    content = "found";
    error = none;
    duration_ms = 1;
  };
  sandbox_id_of = λ n id. none;
  acquire = λ n id. none;
  get_file = λ n id path. none;
  send_result = λ n. record { message_id = "card"; card_id = none };
  read_history = λ n s. none;
  system_prompt = λ n. ok "You are Aite.";
  sha256_hex = λ s. s;
  sha256_bytes = λ bytes. "";
  write_message = λ m. m.content;
  add_price = λ cost a b. cost + a + b;
  error_text = λ e. "error";
  is_alphanumeric = is_latin;
  context_max_tokens = 1000;
  interval = 500000;
}

abbrev desk : Desk
desk = record { ctx = context_of ports working_task session none; world = world }

run-IsTerminal_example :
    (t : Task) × (((aite.Worker.Loop.run ports working_task session none world).0 ≡ some t)
      × (is_terminal t.status ≡ true))
run-IsTerminal_example = run-IsTerminal ports working_task session none world

run_max_steps_example :
    (t : Task) × (((aite.Worker.Loop.run ports working_task session none world).0 ≡ some t)
      × (t.steps ≤ 10))
run_max_steps_example = run_max_steps ports working_task session none world (omega arith)

refused_messages : List Message
refused_messages =
    tool_message bad_final final_reply_required
    ∷ tool_message search_call skipped_after_invalid_final
    ∷ []

run_calls-answered_ids_example : answered_ids refused_messages ≡ some "c3" ∷ some "c1" ∷ []
unfolding refused_messages run_calls run_call aite.Worker.Desk.◌>>◌ on_ctx aite.Worker.Desk.◌>>=◌
    reads is_local_tool note_call record_event act append_evidence parse_final local_result
    aite.Worker.Desk.pure answered_ids
run_calls-answered_ids_example =
    run_calls-answered_ids ports (bad_final ∷ search_call ∷ []) [] refused_messages desk refl

long_result : Message
long_result =
    tool_message search_call "0123456789012345678901234567890123456789012345678901234567890"

trim_to_budget-bare_example :
    map bare (trim_to_budget (long_result ∷ []) 20).0 ≡ map bare (long_result ∷ [])
trim_to_budget-bare_example = trim_to_budget-bare (long_result ∷ []) 20

trim_to_budget-estimate_tokens_example :
    (trim_to_budget (long_result ∷ []) 20).1
    ≡ leb (estimate_tokens (trim_to_budget (long_result ∷ []) 20).0) 20
trim_to_budget-estimate_tokens_example = trim_to_budget-estimate_tokens (long_result ∷ []) 20

chat-model_calls_example : model_calls (chat ports [] desk).1.world ≤ 3
chat-model_calls_example = chat-model_calls ports [] desk

-- Secrets in a list of objects, under keys in any case, and other keys.
abbrev secret_call : ToolCallRequest
secret_call = record {
  call_id = "c4";
  name = "search";
  arguments = Members.member "Token" (Value.text "t0k") (
      Members.member "list"
        (Value.array (
          Elements.element
            (Value.object (
              Members.member "passWORD" (Value.number "1")
                (Members.member "url_or_token" (Value.text "u") Members.no_members)))
            Elements.no_elements))
        Members.no_members);
}

note_call-Notes_example : Notes ports secret_call desk (note_call ports secret_call desk)
note_call-Notes_example = note_call-Notes ports secret_call desk

abbrev turns_below : ℕ → List Turn
turns_below zero = []
turns_below (suc n) = turn n ∷ turns_below n

transcript_messages-Transcribes_example :
    Transcribes (turns_below 50) (transcript_messages (turns_below 50))
transcript_messages-Transcribes_example = transcript_messages-Transcribes (turns_below 50)

abbrev status_of : Option Task → Option (TaskStatus × ℕ)
status_of none = none
status_of (some t) = some (t.status, t.steps)

-- The run of a task that the model answers in its second step.
delivered_run :
    status_of (aite.Worker.Loop.run ports working_task session none world).0
    ≡ some (TaskStatus.delivered, 2)
unfolding aite.Worker.Loop.run run_caught agent_loop build_messages save rounds round run_calls
    run_call aite.Worker.Desk.◌>>◌ aite.Worker.Desk.◌>>=◌ on_ctx on_task aite.Worker.Desk.on_world
    reads act ask attempted aite.Worker.Desk.pure is_local_tool note_call record_event
    append_evidence parse_final local_result run_tool run_gateway_tool ensure_card send_card flush
    maybe_flush refresh_card close_card deliver send_artifacts append_assistant_turn finish_run chat
    chat_with steer_messages steer_speaker trim_to_budget trim_from estimate_tokens call_signature
    drain_steer on_db with_conn finalize_port now send get_member aite.Worker.Final.filled trim clip
    assemble attributed_turns transcript_messages tool_result_trimmed canonical_json select_turns
    insert_turn write_task select_next_seq display_name wrap_external is_whitespace next_seq
delivered_run = refl

-- A run that was cancelled before its first step.
abbrev cancelled_desk : Desk
cancelled_desk = record {
  ctx = context_of ports working_task session none;
  world = record world { shared = record world.shared { cancelled = "t1" ∷ [] } };
}

abbrev cancelled_task : Task
cancelled_task = record working_task {
  status = TaskStatus.cancelled;
  model = "Model";
  evidence_root_hash = some "t1";
  updated_at = 104;
}

agent_loop-IsClosed_example :
    (e : Entry) × ((get_last? (agent_loop ports cancelled_desk).1.world.entries ≡ some e)
      × (is_closing e.kind ≡ true))
unfolding agent_loop build_messages save rounds round aite.Worker.Desk.◌>>◌ aite.Worker.Desk.◌>>=◌
    on_ctx on_task aite.Worker.Desk.on_world reads act ask aite.Worker.Desk.pure record_event
    append_evidence close_card cancel finish_run on_db with_conn finalize_port now select_turns
    write_task
agent_loop-IsClosed_example = agent_loop-IsClosed ports cancelled_desk cancelled_task refl

cards-run_example : cards (aite.Worker.Loop.run ports working_task session none world).1 ≤ 1
cards-run_example = cards-run ports working_task session none world
