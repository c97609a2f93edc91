-- ===== src/Worker/Pairing.antt =====
-- Every call of a turn is answered (core/crates/worker/src/loop.rs).
use mathlib.Core.List.{append-nil, append_assoc}
use aite.Base.{
  leb, eqb, if◌then◌else◌, ℕ, String, ◌≡◌, refl, sym, ap, subst, ◌∙◌, Bool, true, false, ◌&&◌,
  Option, some, List, [], ◌∷◌, ◌++◌, map, ◌==◌,
}
use aite.Base.Exec.{Result, err, ok}
use aite.Contracts.Evidence.{Members}
use aite.Contracts.Protocol.{Message, Role, ToolCallRequest, final_name, text_message}
use aite.Contracts.Session.{Task}
use aite.Store.Calls.{call}
use aite.Worker.Context.{is_tool}
use aite.Worker.Desk.{Desk, Ports, Run, RunContext}
use aite.Worker.Final.{parse_final}
use aite.Worker.Finish.{fail}
use aite.Worker.Frame.{Keeps}
use aite.Worker.Leads.{Leads, Leads-if, Leads-pure, Leads-weaken, Reached, keep_bind, keep_then}
use aite.Worker.Loop.{
  Flow, args_checked, call_tool, ending, final_parsed, max_consecutive_invalid_args,
  max_consecutive_repeats, max_consecutive_sandbox_errors, nudges, repeat_nudge_at, repeated,
  run_call, run_calls, run_final, sandbox_checked, skipped, spins,
}
use aite.Worker.Texts.{invalid_args_failure, repeat_nudge, sandbox_failure}
use aite.Worker.Tools.{tool_message}

abbrev call_ids : List ToolCallRequest → List (Option String)
call_ids calls = map (λ c. some c.call_id) calls

-- The calls that the tool messages answer, in their order.
unfoldable pub answered_ids : List Message → List (Option String)
answered_ids [] = []
answered_ids (m ∷ messages) =
    let rest = answered_ids messages in if is_tool m.role then m.tool_call_id ∷ rest else rest

if_append :
    (b : Bool) (x : Option String) (r s t : List (Option String))
    → r ≡ s ++ t
    → (if b then x ∷ r else r) ≡ (if b then x ∷ s else s) ++ t
if_append true x r s t h = ap (λ ids. x ∷ ids) h
if_append false x r s t h = h

answered_ids-append :
    (xs ys : List Message) → answered_ids (xs ++ ys) ≡ answered_ids xs ++ answered_ids ys
unfolding answered_ids
answered_ids-append [] ys = refl
answered_ids-append (m ∷ xs) ys =
    if_append (is_tool m.role) m.tool_call_id (answered_ids (xs ++ ys)) (answered_ids xs)
      (answered_ids ys) (answered_ids-append xs ys)

answered_ids-skipped :
    (calls : List ToolCallRequest) → answered_ids (skipped calls) ≡ call_ids calls
unfolding answered_ids
answered_ids-skipped [] = refl
answered_ids-skipped (call ∷ calls) =
    ap (λ ids. some call.call_id ∷ ids) (answered_ids-skipped calls)

answered_ids-nudges : (call : ToolCallRequest) (n : ℕ) → answered_ids (nudges call n) ≡ []
unfolding answered_ids
answered_ids-nudges call n = if_lem (spins call && eqb n repeat_nudge_at)
  where
    if_lem :
        (b : Bool)
        → answered_ids (if b then text_message Role.system (repeat_nudge n call.name) ∷ [] else [])
          ≡ []
    if_lem true = refl
    if_lem false = refl

-- A batch that goes on has answered the calls `calls` behind `messages`.
abbrev Answers : List Message → List ToolCallRequest → Flow → Task → Type 0
Answers messages calls (Flow.ended task) t = Unit
Answers messages calls (Flow.going later_ones) t =
    answered_ids later_ones ≡ answered_ids messages ++ call_ids calls

abbrev Any : Task → Type 0
Any t = Unit

module _ (p : Ports) where
  Keeps-Any : {A : Type 0} (m : Run A) → Keeps Any m
  Keeps-Any m = record { at = λ d h. tt }

  ending-Answers :
      (messages : List Message) (calls : List ToolCallRequest) (m : Run Task)
      → Leads Any (ending p m) (Answers messages calls) Any
  ending-Answers messages calls m =
      keep_bind m _ (λ t h. tt) (Keeps-Any m) (λ task. Leads-pure _ (λ t h. tt))

  module _ (again : List Message → Run Flow) (call : ToolCallRequest) (rest : List ToolCallRequest)
      (h : (messages : List Message) → Leads Any (again messages) (Answers messages rest) Any)
      (messages : List Message) where
    told_lem :
        (content : String) (n : ℕ)
        → answered_ids (messages ++ tool_message call content ∷ nudges call n) ++ call_ids rest
          ≡ answered_ids messages ++ call_ids (call ∷ rest)
    unfolding answered_ids
    told_lem content n =
        ap (λ ids. ids ++ call_ids rest)
          (answered_ids-append messages (tool_message call content ∷ nudges call n))
        ∙ (append_assoc (answered_ids messages) (some call.call_id ∷ answered_ids (nudges call n))
              (call_ids rest)
            ∙ ap (λ ids. answered_ids messages ++ (some call.call_id ∷ (ids ++ call_ids rest)))
                (answered_ids-nudges call n))

    weaker :
        (content : String) (n : ℕ) (flow : Flow) (t : Task)
        → Answers (messages ++ tool_message call content ∷ nudges call n) rest flow t
        → Answers messages (call ∷ rest) flow t
    weaker content n (Flow.ended task) t i = tt
    weaker content n (Flow.going later_ones) t i = i ∙ told_lem content n

    limits_lem :
        (next : Run Flow) (c : RunContext)
        → Leads Any next (Answers messages (call ∷ rest)) Any
        → Leads Any
            (args_checked p (sandbox_checked p next c) c)
            (Answers messages (call ∷ rest))
            Any
    limits_lem next c k =
        Leads-if (leb max_consecutive_invalid_args c.invalid_args)
          (ending p (fail p (invalid_args_failure c.task.task_no max_consecutive_invalid_args)))
          (sandbox_checked p next c) (λ _. ending-Answers messages (call ∷ rest) _)
          (λ _.
            Leads-if (leb max_consecutive_sandbox_errors c.sandbox_errors)
              (ending p (fail p (sandbox_failure c.task.task_no max_consecutive_sandbox_errors)))
              next (λ _. ending-Answers messages (call ∷ rest) _) (λ _. k))

    call_tool-Answers :
        (repeats : ℕ)
        → Leads Any (call_tool p again call repeats messages) (Answers messages (call ∷ rest)) Any
    call_tool-Answers repeats =
        keep_then _ _ (λ t i. tt) (Keeps-Any _)
          (keep_bind _ _ (λ t i. tt) (Keeps-Any _)
            (λ outcome.
              keep_then _ _ (λ t i. tt) (Keeps-Any _)
                (keep_bind _ _ (λ t i. tt) (Keeps-Any _)
                  (λ c. limits_lem _ c (Leads-weaken (weaker outcome.content repeats) (h _))))))

    refused_lem :
        (content : String)
        → answered_ids (messages ++ tool_message call content ∷ skipped rest)
          ≡ answered_ids messages ++ call_ids (call ∷ rest)
    unfolding answered_ids
    refused_lem content =
        answered_ids-append messages (tool_message call content ∷ skipped rest)
        ∙ ap (λ ids. answered_ids messages ++ (some call.call_id ∷ ids)) (answered_ids-skipped rest)

    final_parsed-Answers :
        (r : Result {0, 0} String (String × List Members))
        → Leads Any (final_parsed p call rest messages r) (Answers messages (call ∷ rest)) Any
    final_parsed-Answers (err content) =
        keep_then _ _ (λ t i. tt) (Keeps-Any _)
          (keep_then _ _ (λ t i. tt) (Keeps-Any _) (Leads-pure _ (λ t i. refused_lem content)))
    final_parsed-Answers (ok (text, artifacts)) =
        keep_bind _ _ (λ t i. tt) (Keeps-Any _) (λ sent. ending-Answers messages (call ∷ rest) _)

    run_call-Answers :
        Leads Any (run_call p again call rest messages) (Answers messages (call ∷ rest)) Any
    unfolding run_call
    run_call-Answers =
        keep_then _ _ (λ t i. tt) (Keeps-Any _)
          (keep_bind _ _ (λ t i. tt) (Keeps-Any _)
            (λ c.
              Leads-if (spins call && leb max_consecutive_repeats c.repeats) (repeated p call c)
                (if call.name == final_name
                  then run_final p call rest messages
                  else call_tool p again call c.repeats messages)
                (λ _. ending-Answers messages (call ∷ rest) _)
                (λ _.
                  Leads-if (call.name == final_name) (run_final p call rest messages)
                    (call_tool p again call c.repeats messages)
                    (λ _.
                      keep_then _ _ (λ t i. tt) (Keeps-Any _)
                        (final_parsed-Answers (parse_final call)))
                    (λ _. call_tool-Answers c.repeats))))

  nothing_lem : (messages : List Message) → answered_ids messages ≡ answered_ids messages ++ []
  nothing_lem messages = sym (append-nil (answered_ids messages))

  batch-Answers :
      (calls : List ToolCallRequest) (messages : List Message)
      → Leads Any (run_calls p calls messages) (Answers messages calls) Any
  unfolding run_calls
  batch-Answers [] messages = Leads-pure _ (λ t i. nothing_lem messages)
  batch-Answers (call ∷ rest) messages =
      run_call-Answers (run_calls p rest) call rest (batch-Answers rest) messages

-- A turn's calls that do not end the run are all answered: the tool messages that are put behind
-- the others carry the ids of the calls, each once and in the order of the calls, whether a call
-- was run, failed, or was skipped behind a `final` that was refused.
pub run_calls-answered_ids :
    (p : Ports) (calls : List ToolCallRequest) (messages later_ones : List Message) (d : Desk)
    → (run_calls p calls messages d).0 ≡ ok (Flow.going later_ones)
    → answered_ids later_ones ≡ answered_ids messages ++ map (λ c. some c.call_id) calls
run_calls-answered_ids p calls messages later_ones d e =
    subst (λ r. Reached (Answers messages calls) Any (r, (run_calls p calls messages d).1)) e
      ((batch-Answers p calls messages).at d tt)
