-- ===== src/Gateway/Registry.antt =====
-- core/crates/gateway/src: registry.rs, policy.rs, sandbox_key.rs, and the base of the tools
-- (tools/mod.rs). `W` is what the tools can reach besides the gateway's account of sandboxes, `S`
-- the type of times in seconds. A tool is a function that says what came of it within the time it
-- was given. `data` and `artifacts` of an outcome are left out, as in `ToolResult`.
use Prim.Native.Char.{code}
use aite.Base.{
  if◌then◌else◌, contains, any, render, String, Bool, Option, List, [], ◌∷◌, ◌++◌, map, ◌==◌,
}
use aite.Base.Exec.{Result, err, ok}
use aite.Contracts.Evidence.{Members}
use aite.Contracts.Protocol.{ToolCallRequest, ToolContext, ToolErrorCode, ToolSpec}

pub record ToolFailure : Type 0 where
  pub code : ToolErrorCode
  pub message : String

pub record ToolOutcome : Type 0 where
  pub content : String

abbrev pub failure : ToolErrorCode → String → ToolFailure
failure code message = record { code = code; message = message }

-- What came of a tool under its timeout and the guard against panics.
pub data Ran : Type 0 where
  returned : Result ToolFailure ToolOutcome → Ran
  panicked : Option String → Ran
  elapsed : Ran

pub data SandboxKey : Type 0 where
  task_key : String → SandboxKey

unfoldable pub for_task : String → SandboxKey
for_task task_id = SandboxKey.task_key task_id

unfoldable pub is_same_key : SandboxKey → SandboxKey → Bool
is_same_key (SandboxKey.task_key a) (SandboxKey.task_key b) = a == b

pub data PolicyDecision : Type 0 where
  allow : PolicyDecision
  deny : String → PolicyDecision

abbrev pub default_deny_message : String
default_deny_message = "这次工具调用被策略拒绝了"

-- A policy that panics has no decision.
abbrev pub ToolPolicy : Type 0
ToolPolicy = ToolContext → ToolCallRequest → Result (Option String) PolicyDecision

unfoldable pub allow_all : ToolPolicy
allow_all ctx req = ok PolicyDecision.allow

pub record ToolEnv : Type 0 where
  pub key : SandboxKey
  pub task_id : String

-- The sandboxes that are accounted for, and the keys that have a lock.
pub record Inner (W : Type 0) : Type 0 where
  pub sandbox_ids : List (SandboxKey × String)
  pub acquire_locks : List SandboxKey
  pub outside : W

module _ (S W : Type 0) where
  abbrev pub ToolImpl : Type 0
  ToolImpl = S → ToolEnv → ToolContext → Members → Inner W → Ran × Inner W

  pub record GatewayTool : Type 0 where
    pub spec : ToolSpec
    pub enabled : ToolContext → Bool
    pub call : ToolImpl

  abbrev pub ToolRegistry : Type 0
  ToolRegistry = List GatewayTool

  -- `debug` prints a name by `{:?}`; the names of `all_model_tools()` come with it.
  unfoldable pub register :
      (String → String) → List String → GatewayTool → ToolRegistry → Result String ToolRegistry
  register debug model_tools tool tools =
      let name = tool.spec.name in
      if contains model_tools name
      then err (render ("工具 " ∷ debug name ∷ " 登记失败：与内建工具重名（all_model_tools() 里已经有这个名字）" ∷ []))
      else if any (λ t. t.spec.name == name) tools
      then err (render ("工具 " ∷ debug name ∷ " 登记失败：已经有一个同名的工具登记过了" ∷ []))
      else ok (tools ++ tool ∷ [])

  unfoldable pub tool_names : ToolRegistry → List String
  tool_names tools = map (λ t. t.spec.name) tools
