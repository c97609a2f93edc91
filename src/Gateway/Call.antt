-- ===== src/Gateway/Call.antt =====
-- core/crates/gateway/src/gateway.rs: `P0ToolGateway`. The bytes of a text, the times in seconds,
-- the printing by `{:?}` and what `validate_arguments` takes are parameters. Predicates of tools do
-- not panic; a resolver, a policy, a tool and a budget that is no time may. Arguments are
-- validated and a tool is looked up at one state of the tokens.
use aite.Base.{
  if◌then◌else◌, keep, find, render, ℕ, String, Bool, not, Option, none, some, List, [], ◌∷◌, ◌++◌,
  map, ◌==◌,
}
use aite.Base.Exec.{Result, after, err, ok}
use aite.Contracts.Evidence.{Members, Value}
use aite.Contracts.Protocol.{
  ToolCallRequest, ToolContext, ToolErrorCode, ToolResult, ToolSpec, get_member,
}
use aite.Gateway.Registry.{
  GatewayTool, Inner, PolicyDecision, Ran, ToolEnv, ToolImpl, ToolOutcome, ToolPolicy, ToolRegistry,
  default_deny_message, for_task,
}
use aite.Gateway.Results.{Stop, result_of, stop}
use aite.Gateway.Sandboxes.{SandboxPort, current_sandbox_id, release_account}
use aite.Gateway.Schema.{Validating, validate_arguments}
use aite.Gateway.Shapes.{sorted_texts}
use aite.Gateway.Tokens.{constant_time_eq}

-- What a resolver of tokens answers.
pub data Resolved : Type 0 where
  found : Option String → Resolved
  failed : String → Resolved
  panics : Option String → Resolved

pub record Seconds : Type 1 where
  pub Time : Type 0
  pub plus : Time → Time → Time
  pub as_f64 : Value → Option Time
  pub two_minutes : Time
  pub is_span : Time → Bool
  pub trim_float : Time → String
  pub span_panic : Time → Option String

pub record Printing : Type 0 where
  pub validating : Validating
  pub as_bytes : String → List ℕ
  pub debug : String → String
  pub debug_list : List String → String
  pub blank_reason : String → Bool

infixl 5 ◌>>=◌ ◌>>◌
abbrev pub ◌>>=◌ : {A B : Type 0} → Result Stop A → (A → Result Stop B) → Result Stop B
(ok a) >>= f = f a
(err e) >>= f = err e

abbrev pub ◌>>◌ : {B : Type 0} → Result Stop (Unit {0}) → Result Stop B → Result Stop B
m >> k = m >>= λ _. k

abbrev pub option_bind : {A B : Type 0} → Option A → (A → Option B) → Option B
option_bind none f = none
option_bind (some a) f = f a

module _ (sec : Seconds) (W : Type 0) (pr : Printing) where
  pub data Visible : Type 0 where
    builtin : ToolSpec → Visible
    registered : GatewayTool sec.Time W → Visible

  abbrev pub spec_of : Visible → ToolSpec
  spec_of (builtin spec) = spec
  spec_of (registered tool) = tool.spec

  pub record P0ToolGateway : Type 0 where
    pub specs : List ToolSpec
    pub impls : List (String × ToolImpl sec.Time W)
    pub builtin_enabled : String → ToolContext → Bool
    pub registry : ToolRegistry sec.Time W
    pub policy : ToolPolicy
    pub tokens : List (String × String)
    pub token_resolver : Option (String → Resolved)
    pub default_timeout_sec : sec.Time
    pub run_python_grace_sec : sec.Time

  abbrev pub text_at : {A : Type 0} → String → List (String × A) → Option A
  text_at key [] = none
  text_at key ((k, v) ∷ rest) = if k == key then some v else text_at key rest

  unfoldable pub resolver_answer : Resolved → Result Stop (Option String)
  resolver_answer (Resolved.found t) = ok t
  resolver_answer (Resolved.failed e) =
      stop ToolErrorCode.upstream (render ("取 session_token 失败：" ∷ e ∷ []))
  resolver_answer (Resolved.panics p) = err (Stop.panic p)

  unfoldable pub expected_of :
      Option (String → Resolved) → List (String × String) → String → Result Stop (Option String)
  unfolding resolver_answer
  expected_of none tokens task_id = ok (text_at task_id tokens)
  expected_of (some resolve) tokens task_id = resolver_answer (resolve task_id)

  abbrev pub nonempty : Option String → Option String
  nonempty none = none
  nonempty (some t) = if t == "" then none else some t

  unfoldable pub compare_token : ToolContext → Option String → Result Stop (Unit {0})
  unfolding constant_time_eq
  compare_token ctx none =
      stop ToolErrorCode.denied (render ("task " ∷ ctx.task_id ∷ " 没有登记 session_token" ∷ []))
  compare_token ctx (some expected) =
      if ctx.session_token == ""
      then stop ToolErrorCode.denied "调用没带 session_token"
      else if not (constant_time_eq (pr.as_bytes expected) (pr.as_bytes ctx.session_token))
      then stop ToolErrorCode.denied (render ("session_token 与 task " ∷ ctx.task_id ∷ " 不匹配" ∷ []))
      else ok tt

  unfoldable pub check_token : P0ToolGateway → ToolContext → Result Stop (Unit {0})
  unfolding expected_of compare_token
  check_token g ctx =
      expected_of g.token_resolver g.tokens ctx.task_id >>= λ t. compare_token ctx (nonempty t)

  -- `run_python` has the time of its arguments and a rest, any other tool the same.
  unfoldable pub budget : P0ToolGateway → String → Members → sec.Time
  budget g name args =
      if name == "run_python"
      then sec.plus
          (elim (option_bind (get_member "timeout_sec" args) sec.as_f64) [
            | some t ↦ t
            | none ↦ sec.two_minutes
          ])
          g.run_python_grace_sec
      else g.default_timeout_sec

  unfoldable pub visible : P0ToolGateway → ToolContext → List Visible
  visible g ctx =
      map (λ s. builtin s) (keep (λ s. g.builtin_enabled s.name ctx) g.specs)
      ++ map (λ t. registered t) (keep (λ t. t.enabled ctx) g.registry)

  unfoldable pub catalog : P0ToolGateway → ToolContext → List ToolSpec
  unfolding visible
  catalog g ctx = map (λ v. spec_of v) (visible g ctx)

  unfoldable pub found_or :
      P0ToolGateway → ToolContext → ToolCallRequest → Option Visible → Result Stop Visible
  unfolding catalog
  found_or g ctx req (some v) = ok v
  found_or g ctx req none = stop ToolErrorCode.not_found (
      render (
        "没有名为 "
        ∷ pr.debug req.name
        ∷ " 的工具；可用的是 "
        ∷ pr.debug_list (sorted_texts (map (λ s. s.name) (catalog g ctx)))
        ∷ []))

  unfoldable pub find_tool : P0ToolGateway → ToolContext → ToolCallRequest → Result Stop Visible
  unfolding visible found_or
  find_tool g ctx req =
      found_or g ctx req (find (λ v. (spec_of v).name == req.name) (visible g ctx))

  unfoldable pub runner :
      P0ToolGateway → ToolCallRequest → Visible → Result Stop (ToolImpl sec.Time W)
  runner g req (registered tool) = ok tool.call
  runner g req (builtin spec) = elim (text_at req.name g.impls) [
    | some run ↦ ok run
    | none ↦ stop ToolErrorCode.not_found (render ("工具 " ∷ pr.debug req.name ∷ " 在本次运行里没有实现" ∷ []))
  ]

  unfoldable pub ask_policy : Result (Option String) PolicyDecision → Result Stop (Unit {0})
  ask_policy (ok PolicyDecision.allow) = ok tt
  ask_policy (ok (PolicyDecision.deny reason)) =
      stop ToolErrorCode.denied (if pr.blank_reason reason then default_deny_message else reason)
  ask_policy (err p) = err (Stop.panic p)

  unfoldable pub validated : Result String Members → Result Stop Members
  validated (ok args) = ok args
  validated (err message) = stop ToolErrorCode.invalid_args message

  unfoldable pub within_span : sec.Time → Result Stop sec.Time
  within_span b = if sec.is_span b then ok b else err (Stop.panic (sec.span_panic b))

  -- The part of `dispatch` before a tool runs: what is run, on what, and how long it may take.
  unfoldable pub prepare :
      P0ToolGateway
      → ToolContext
      → ToolCallRequest
      → Result Stop (ToolImpl sec.Time W × Members × sec.Time)
  unfolding check_token find_tool runner ask_policy validated validate_arguments budget within_span
  prepare g ctx req = do
    check_token g ctx
    tool ← find_tool g ctx req
    run ← runner g req tool
    ask_policy (g.policy ctx req)
    args ← validated (validate_arguments pr.validating (spec_of tool).parameters req.arguments)
    time ← within_span (budget g req.name args)
    ok (run, args, time)

  unfoldable pub panic_text : Option String → String
  panic_text (some s) = render ("panic: " ∷ s ∷ [])
  panic_text none = "panic: （payload 不是字符串）"

  unfoldable pub outcome_of : String → sec.Time → Ran → Result Stop ToolOutcome
  unfolding panic_text
  outcome_of name time (Ran.returned (ok outcome)) = ok outcome
  outcome_of name time (Ran.returned (err failed_with)) = err (Stop.fails failed_with)
  outcome_of name time Ran.elapsed =
      stop ToolErrorCode.timeout
        (render ("工具 " ∷ name ∷ " 超过 " ∷ sec.trim_float time ∷ "s 没返回" ∷ []))
  outcome_of name time (Ran.panicked p) =
      stop ToolErrorCode.upstream (render ("工具 " ∷ name ∷ " 内部错误：" ∷ panic_text p ∷ []))

  unfoldable pub started :
      ToolContext
      → ToolCallRequest
      → Inner W
      → Result Stop (ToolImpl sec.Time W × Members × sec.Time)
      → Result Stop ToolOutcome × Inner W
  unfolding for_task outcome_of
  started ctx req inner (err e) = (err e, inner)
  started ctx req inner (ok (run, args, time)) =
      let env : ToolEnv = record { key = for_task ctx.task_id; task_id = ctx.task_id } in
      let (ran, after) = run time env ctx args inner in (outcome_of req.name time ran, after)

  unfoldable pub dispatch :
      P0ToolGateway → ToolContext → ToolCallRequest → Inner W → Result Stop ToolOutcome × Inner W
  unfolding prepare started
  dispatch g ctx req inner = started ctx req inner (prepare g ctx req)

  -- `ms` is the time that went by.
  unfoldable pub call :
      P0ToolGateway → ToolContext → ToolCallRequest → ℕ → Inner W → ToolResult × Inner W
  unfolding dispatch result_of
  call g ctx req ms inner =
      let (outcome, after) = dispatch g ctx req inner in (result_of req ms outcome, after)

  abbrev pub without_text : String → List (String × String) → List (String × String)
  without_text key [] = []
  without_text key ((k, v) ∷ rest) =
      let others = without_text key rest in if k == key then others else (k, v) ∷ others

  unfoldable pub register_task : String → String → P0ToolGateway → P0ToolGateway
  register_task task_id session_token g =
      if session_token == ""
      then g
      else record g { tokens = (task_id, session_token) ∷ without_text task_id g.tokens }

  unfoldable pub unregister_task : String → P0ToolGateway → P0ToolGateway
  unregister_task task_id g = record g { tokens = without_text task_id g.tokens }

  unfoldable pub sandbox_id_of : String → Inner W → Option String
  unfolding current_sandbox_id for_task
  sandbox_id_of task_id inner = current_sandbox_id (for_task task_id) inner

  unfoldable pub release_task :
      Option (SandboxPort W) → String → P0ToolGateway → Inner W → P0ToolGateway × Inner W
  unfolding unregister_task release_account for_task
  release_task port task_id g inner =
      (unregister_task task_id g, release_account port (for_task task_id) inner)
