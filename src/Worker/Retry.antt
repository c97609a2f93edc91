-- ===== src/Worker/Retry.antt =====
-- core/crates/worker/src/loop.rs: which errors of a model call are tried again, and how often, and
-- the calls of a step. Times are in milliseconds; the number that follows `retry-after-ms=` is read as a `u64`.
use Prim.Native.Char.{Char, code}
use aite.Base.{
  ltb, leb, eqb, if◌then◌else◌, char_count, ℕ, ◌+◌, ◌-◌, ◌*◌, ◌^◌, String, Bool, false, ◌&&◌, ◌||◌,
  Option, none, some, List, [], ◌∷◌, ◌==◌,
}
use aite.Base.Exec.{Result, err, ok}
use aite.Contracts.Protocol.{Message, ModelError, ModelTurn}
use aite.Contracts.TaskNo.{digits}
use aite.Control.Plane.{model_called, waited}
use aite.Control.Words.{trim_start}
use aite.Worker.Desk.{Ports, Run, ask, note_sent, pure, ◌>>=◌, ◌>>◌}
use aite.Worker.Scan.{drop_chars, head_char, split_once, starts_with, strip_prefix, take_while}

abbrev pub model_retry_delays : List ℕ
model_retry_delays = 2000 ∷ 5000 ∷ []

abbrev pub retry_after_cap : ℕ
retry_after_cap = 60000

pub data RetryClass : Type 0 where
  never : RetryClass
  retry_after : ℕ → RetryClass
  default : RetryClass

abbrev is_ascii_digit : Char → Bool
is_ascii_digit c = leb 48 (code c) && leb (code c) 57

-- `parse` of a text of digits, most significant first.
abbrev number_from : ℕ → String → ℕ
number_from n String.[] = n
number_from n (String.◌∷◌ c s) = number_from (n * 10 + (code c - 48)) s

abbrev parse_number : ℕ → String → Option ℕ
parse_number width digits =
    let n = number_from 0 digits in
    if digits == "" then none else if ltb n (2 ^ width) then some n else none

abbrev ends_status : Option Char → Bool
ends_status none = false
ends_status (some c) = eqb (code c) 58 || eqb (code c) 65306

abbrev status_of : String → Option ℕ
status_of rest =
    let digits = take_while is_ascii_digit rest in
    if eqb (char_count digits) 3 && ends_status (head_char (drop_chars 3 rest))
    then parse_number 16 digits
    else none

unfoldable pub http_status : String → Option ℕ
unfolding trim_start starts_with
http_status text = elim (strip_prefix "HTTP " (trim_start text)) [
  | none ↦ none
  | some rest ↦ status_of rest
]

unfoldable pub retry_after_ms : String → Option ℕ
unfolding split_once
retry_after_ms text = elim (split_once "retry-after-ms=" text) [
  | none ↦ none
  | some tail ↦ parse_number 64 (take_while is_ascii_digit tail)
]

abbrev min : ℕ → ℕ → ℕ
min a b = if leb a b then a else b

abbrev too_many_requests : Option ℕ → RetryClass
too_many_requests none = RetryClass.default
too_many_requests (some ms) = RetryClass.retry_after (min ms retry_after_cap)

abbrev class_of_status : String → Option ℕ → RetryClass
class_of_status text none = RetryClass.default
class_of_status text (some status) =
    if eqb status 429
    then too_many_requests (retry_after_ms text)
    else if leb 400 status && leb status 499
    then RetryClass.never
    else RetryClass.default

unfoldable pub retry_class : ModelError → RetryClass
unfolding http_status retry_after_ms
retry_class (ModelError.config text) = RetryClass.never
retry_class (ModelError.bad_response text) = RetryClass.default
retry_class (ModelError.upstream_error text) = class_of_status text (http_status text)

-- The time to wait before the next call, where one is to come; `d` is the usual one.
abbrev pub delay_of : RetryClass → ℕ → Option ℕ
delay_of RetryClass.never d = none
delay_of (RetryClass.retry_after ms) d = some ms
delay_of RetryClass.default d = some d

module _ (p : Ports) (messages : List Message) where
  abbrev model_call : Run (Result ModelError ModelTurn)
  model_call = do note_sent (model_called messages); ask (λ n. p.answer n messages)

  abbrev pub wait_and :
      Run (Result ModelError ModelTurn) → ModelError → Option ℕ → Run (Result ModelError ModelTurn)
  wait_and again e none = pure (err e)
  wait_and again e (some ms) = do note_sent (waited ms); again

  abbrev pub chat_again :
      Run (Result ModelError ModelTurn)
      → ℕ
      → Result ModelError ModelTurn
      → Run (Result ModelError ModelTurn)
  chat_again again d (ok turn) = pure (ok turn)
  chat_again again d (err e) = wait_and again e (delay_of (retry_class e) d)

  -- `delays` are those that were not used yet.
  unfoldable pub chat_with : List ℕ → Run (Result ModelError ModelTurn)
  chat_with [] = model_call
  chat_with (d ∷ delays) = let again = chat_with delays in model_call >>= chat_again again d

-- `AgentWorker::chat`
unfoldable pub chat : Ports → List Message → Run (Result ModelError ModelTurn)
chat p messages = chat_with p messages model_retry_delays
