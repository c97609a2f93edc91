-- ===== src/Gateway/Results.antt =====
-- core/crates/gateway/src/gateway.rs: how a dispatch ends, and the tool result that is made of it.
use Prim.Native.Char.{code}
use aite.Base.{
  leb, if◌then◌else◌, render, char_count, take_chars, ℕ, ◌-◌, String, true, false, Option, none,
  some, [], ◌∷◌,
}
use aite.Base.Exec.{Result, err, ok}
use aite.Contracts.Protocol.{ToolCallRequest, ToolErrorCode, ToolResult}
use aite.Gateway.Registry.{ToolFailure, ToolOutcome, failure}

-- Why a dispatch stops: with a failure, or with a panic and its text, if it is one.
pub data Stop : Type 0 where
  fails : ToolFailure → Stop
  panic : Option String → Stop

abbrev pub stop : {A : Type 0} → ToolErrorCode → String → Result Stop A
stop code message = err (Stop.fails (failure code message))

abbrev pub max_tool_content_chars : ℕ
max_tool_content_chars = 12000

abbrev pub clip_marker : String
clip_marker = "\n…[内容已截断]"

unfoldable pub clip : String → ℕ → String
unfolding render
clip text limit =
    if leb (char_count text) limit
    then text
    else render (take_chars (limit - char_count clip_marker) text ∷ clip_marker ∷ [])

unfoldable pub ok_result : ToolCallRequest → ToolOutcome → ℕ → ToolResult
unfolding clip
ok_result req outcome ms = record {
  call_id = req.call_id;
  name = req.name;
  is_ok = true;
  content = clip outcome.content max_tool_content_chars;
  error = none;
  duration_ms = ms;
}

unfoldable pub failed_result : ToolCallRequest → ToolFailure → ℕ → ToolResult
unfolding clip
failed_result req failed_with ms = record {
  call_id = req.call_id;
  name = req.name;
  is_ok = false;
  content = clip failed_with.message max_tool_content_chars;
  error = some (record { code = failed_with.code; message = failed_with.message });
  duration_ms = ms;
}

unfoldable pub panic_failure : Option String → ToolFailure
panic_failure (some detail) = failure ToolErrorCode.upstream (render ("工具网关内部出错：" ∷ detail ∷ []))
panic_failure none = failure ToolErrorCode.upstream (render ("工具网关内部出错：" ∷ "（panic 载荷不是字符串）" ∷ []))

unfoldable pub result_of : ToolCallRequest → ℕ → Result Stop ToolOutcome → ToolResult
unfolding ok_result failed_result panic_failure
result_of req ms (ok outcome) = ok_result req outcome ms
result_of req ms (err (Stop.fails failed_with)) = failed_result req failed_with ms
result_of req ms (err (Stop.panic p)) = failed_result req (panic_failure p) ms
