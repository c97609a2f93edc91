-- ===== src/Gateway/Answers.antt =====
-- core/crates/gateway/src/gateway.rs: the shape of every answer of `call`.
use text.Mathlib.TextLemmas as Text
use aite.Base.{
  leb→le, Bool-cases, leb, render, char_count, take_chars, ℕ, zero, suc, ◌-◌, ◌≤◌, String, ◌≡◌,
  refl, inl, inr, true, false, none, some, arith,
}
use aite.Base.Exec.{Result, err, ok}
use aite.Contracts.Protocol.{ToolCallRequest, ToolContext, ToolError, ToolResult}
use aite.Gateway.Call.{P0ToolGateway, Printing, Seconds, call, dispatch}
use aite.Gateway.Registry.{Inner, ToolFailure, ToolOutcome}
use aite.Gateway.Results.{
  Stop, clip, clip_marker, failed_result, max_tool_content_chars, ok_result, panic_failure,
  result_of,
}

count-take_chars : (n : ℕ) (s : String) → char_count (take_chars n s) ≤ n
count-take_chars zero s = omega arith
count-take_chars (suc n) String.[] = omega arith
count-take_chars (suc n) (String.◌∷◌ c s) =
    omega (arith, Text.length-cons c (take_chars n s), count-take_chars n s)

-- A clipped text has at most as many characters as the limit, if the marker fits into it.
count-clip : (text : String) (limit : ℕ) → 9 ≤ limit → char_count (clip text limit) ≤ limit
unfolding clip render
count-clip text limit h = elim (Bool-cases (leb (char_count text) limit)) [
  | inl short ↦ rw short (leb→le (char_count text) limit short)
  | inr long ↦ rw long (
      omega (
        arith,
        Text.length-append (take_chars (limit - 9) text) clip_marker,
        count-take_chars (limit - 9) text,
      ))
]

-- The call and the name are the request's, the content is clipped, and there is an error exactly
-- if the call failed.
pub record Answers (req : ToolCallRequest) (r : ToolResult) : Type 0 where
  pub same_call : r.call_id ≡ req.call_id
  pub same_name : r.name ≡ req.name
  pub within : char_count r.content ≤ max_tool_content_chars
  pub no_error : r.is_ok ≡ true → r.error ≡ none
  pub an_error : r.is_ok ≡ false → (e : ToolError) × (r.error ≡ some e)

failed_result-Answers :
    (req : ToolCallRequest) (f : ToolFailure) (ms : ℕ) → Answers req (failed_result req f ms)
unfolding failed_result
failed_result-Answers req f ms = record {
  same_call = refl;
  same_name = refl;
  within = count-clip f.message 12000 (omega arith);
  no_error = λ h. cc;
  an_error = λ _. (record { code = f.code; message = f.message }, refl);
}

result_of-Answers :
    (req : ToolCallRequest) (ms : ℕ) (o : Result Stop ToolOutcome)
    → Answers req (result_of req ms o)
unfolding result_of ok_result
result_of-Answers req ms (ok outcome) = record {
  same_call = refl;
  same_name = refl;
  within = count-clip outcome.content 12000 (omega arith);
  no_error = λ _. refl;
  an_error = λ h. cc;
}
result_of-Answers req ms (err (Stop.fails f)) = failed_result-Answers req f ms
result_of-Answers req ms (err (Stop.panic p)) = failed_result-Answers req (panic_failure p) ms

module _ (sec : Seconds) (W : Type 0) (pr : Printing) where
  -- Whatever a call comes to, also a panic, its answer has the request's id and name, at most
  -- 12000 characters of content, and an error exactly if it is not ok.
  pub call-Answers :
      (g : P0ToolGateway sec W pr) (ctx : ToolContext) (req : ToolCallRequest) (ms : ℕ)
      (inner : Inner W)
      → Answers req (call sec W pr g ctx req ms inner).0
  unfolding call
  call-Answers g ctx req ms inner = result_of-Answers req ms (dispatch sec W pr g ctx req inner).0
