-- ===== src/Tests/OfGateway.antt =====
-- Runs of the tool gateway of core/crates/gateway.
use aite.Gateway.Call
use aite.Base.{
  All, sort_by, key_leb, lex_leb, code_points, join, render, decimal, ℕ, ◌+◌, ◌%◌, String, ◌≡◌,
  refl, inl, true, false, not, none, some, List, [], ◌∷◌, arith, ◌==◌,
}
use aite.Base.Exec.{err, ok}
use aite.Contracts.Evidence.{Elements, Members, Value}
use aite.Contracts.Protocol.{ToolCallRequest, ToolContext, get_member}
use aite.Gateway.Answers.{Answers, call-Answers}
use aite.Gateway.Call.{P0ToolGateway, Printing, Seconds}
use aite.Gateway.Defaults.{Filled, validate_arguments-Filled}
use aite.Gateway.Permitted.{IsPermitted, call-IsPermitted}
use aite.Gateway.Registry.{GatewayTool, Inner, PolicyDecision, Ran}
use aite.Gateway.Schema.{Validating, properties_of, validate_arguments}
use aite.Gateway.Tokens.Equality.{IsByte}

abbrev lenient : Validating
lenient = record {
  show = λ v. "?";
  is_integral = λ n. not (n == "50.0");
  first_error = λ s v. ok none;
}

abbrev pair : String → Value → Members → Members
pair k v rest = Members.member k v rest

abbrev one_pair : String → Value → Value
one_pair k v = Value.object (pair k v Members.no_members)

-- `limit` is an integer with a default, `name` a text that is required.
abbrev limit_schema : Value
limit_schema =
    Value.object
      (pair "type" (Value.text "integer") (pair "default" (Value.number "50") Members.no_members))

abbrev list_schema : Value
list_schema = Value.object (
    pair "type" (Value.text "object") (
      pair "properties"
        (Value.object (
          pair "limit" limit_schema
            (pair "name" (one_pair "type" (Value.text "string")) Members.no_members)))
        (pair "required" (Value.array (Elements.element (Value.text "name") Elements.no_elements))
          Members.no_members)))

abbrev named : Members
named = pair "name" (Value.text "a") Members.no_members

abbrev named_and_limited : Members
named_and_limited =
    pair "name" (Value.text "a") (pair "limit" (Value.number "50") Members.no_members)

validates :
    (validate_arguments lenient list_schema named ≡ ok named_and_limited)
    × (validate_arguments lenient list_schema (pair "nam" Value.null Members.no_members)
        ≡ err "不认识的参数 [\"nam\"]；可用的是 [\"limit\", \"name\"]")
    × (validate_arguments lenient list_schema Members.no_members ≡ err "缺少必填参数 [\"name\"]")
    × (validate_arguments lenient list_schema
          (pair "name" (Value.text "a") (pair "limit" (Value.number "50.0") Members.no_members))
        ≡ err "limit 应该是 integer，收到 number(?)")
unfolding validate_arguments get_member render join sort_by key_leb lex_leb
validates = (refl, refl, refl, refl)

validate_arguments-Filled_example :
    Filled lenient "limit"
      (get_member "limit" (properties_of lenient list_schema))
      (get_member "limit" named)
      (get_member "limit" named_and_limited)
unfolding validate_arguments get_member render join sort_by key_leb lex_leb
validate_arguments-Filled_example =
    validate_arguments-Filled lenient list_schema named named_and_limited "limit" (refl, (refl, tt))
      refl

abbrev counting : Seconds
counting = record {
  Time = ℕ;
  plus = λ a b. a + b;
  as_f64 = λ v. some 30;
  two_minutes = 120;
  is_span = λ t. true;
  trim_float = λ t. decimal t;
  span_panic = λ t. none;
}

abbrev low_bytes : List ℕ → List ℕ
low_bytes [] = []
low_bytes (c ∷ cs) = (c % 256) ∷ low_bytes cs

low_bytes-IsByte : (cs : List ℕ) → All IsByte (low_bytes cs)
low_bytes-IsByte [] = tt
low_bytes-IsByte (c ∷ cs) = (omega arith, low_bytes-IsByte cs)

abbrev printing : Printing
printing = record {
  validating = lenient;
  as_bytes = λ s. low_bytes (code_points s);
  debug = λ s. s;
  debug_list = λ ss. "[]";
  blank_reason = λ s. s == "";
}

-- A tool that counts its calls.
abbrev counting_tool : GatewayTool ℕ ℕ
counting_tool = record {
  spec = record { name = "count"; description = ""; parameters = list_schema };
  enabled = λ ctx. true;
  call = λ time env ctx args inner. (
    Ran.returned (ok (record { content = "counted" })),
    record inner { outside = inner.outside + 1 },
  );
}

abbrev gateway : P0ToolGateway counting ℕ printing
gateway = record {
  specs = [];
  impls = [];
  builtin_enabled = λ name ctx. true;
  registry = counting_tool ∷ [];
  policy = λ ctx req. ok PolicyDecision.allow;
  tokens = ("t1", "secret") ∷ [];
  token_resolver = none;
  default_timeout_sec = 60;
  run_python_grace_sec = 5;
}

abbrev with_token : String → ToolContext
with_token token = record {
  tenant_id = "";
  workspace_id = "";
  chat_id = "";
  session_id = "";
  task_id = "t1";
  session_token = token;
  thread_id = none;
  attachments_message_id = none;
}

abbrev asked : ToolCallRequest
asked = record { call_id = "c1"; name = "count"; arguments = named }

abbrev nothing_yet : Inner ℕ
nothing_yet = record { sandbox_ids = []; acquire_locks = []; outside = 0 }

calls :
    ((Call.call counting ℕ printing gateway (with_token "secret") asked 3 nothing_yet).0.content
      ≡ "counted")
    × ((Call.call counting ℕ printing gateway (with_token "secret") asked 3 nothing_yet).1.outside
        ≡ 1)
    × ((Call.call counting ℕ printing gateway (with_token "secreT") asked 3 nothing_yet).1.outside
        ≡ 0)
    × ((Call.call counting ℕ printing gateway (with_token "secreT") asked 3 nothing_yet).0.is_ok
        ≡ false)
unfolding Call.call get_member render join sort_by key_leb lex_leb decimal
calls = (refl, refl, refl, refl)

call-IsPermitted_example : IsPermitted counting ℕ printing gateway (with_token "secret") asked
unfolding Call.call get_member render join sort_by key_leb lex_leb decimal
call-IsPermitted_example =
    call-IsPermitted counting ℕ printing gateway (with_token "secret") asked 3 nothing_yet
      (λ s. low_bytes-IsByte (code_points s)) (inl refl)

call-Answers_example :
    Answers asked
      (Call.call counting ℕ printing gateway (with_token "secreT") asked 3 nothing_yet).0
call-Answers_example =
    call-Answers counting ℕ printing gateway (with_token "secreT") asked 3 nothing_yet
