-- ===== src/Worker/Desk.antt =====
-- core/crates/worker/src: the state of one run, the calls that it makes, and what it asks of the
-- model, the tools, the sandbox and the platform (parameters, since they answer from outside).
-- Times of the monotonic clock are whole microseconds.
use Prim.Native.Char.{Char}
use aite.Base.{
  if◌then◌else◌, decimal, ℕ, ◌+◌, String, Bool, Option, none, some, List, [], ◌∷◌, ◌++◌, ◌==◌,
}
use aite.Base.Exec.{Exec, Result, err, ok}
use aite.Contracts.Evidence.{Elements, EvidenceKind, Members, Value}
use aite.Contracts.Protocol.{
  ChecklistCard, Message, ModelError, ModelTurn, SendResult, ToolCallRequest, ToolContext,
  ToolResult,
}
use aite.Contracts.Session.{Session, Task}
use aite.Control.Plane.{Act, Env, IngressError, Sent, World, append_evidence, now, on_db}
use aite.Control.Sessions.{HistoryMessage, or_text}
use aite.Store.{update_task}
use aite.Store.Statements.{StoreError}

pub data RunError : Type 0 where
  worker : String → RunError
  store : StoreError → RunError
  evidence platform : RunError

-- `n` is how often anything was read before.
pub record Ports : Type 0 where
  pub env : Env
  pub monotonic : ℕ → ℕ
  pub answer : ℕ → List Message → Result {0, 0} ModelError ModelTurn
  pub tool : ℕ → ToolContext → ToolCallRequest → ToolResult
  pub sandbox_id_of : ℕ → String → Option String
  pub acquire : ℕ → String → Option String
  pub get_file : ℕ → String → String → Option (List ℕ)
  pub send_result : ℕ → SendResult
  -- none for an error
  pub read_history : ℕ → Session → Option (List HistoryMessage)
  pub system_prompt : ℕ → Result {0, 0} String String
  pub sha256_hex : String → String
  pub sha256_bytes : List ℕ → String
  -- `serde_json::to_string` of a message
  pub write_message : Message → String
  -- the cost, in the bits of an `f64`, with the price of these input and output tokens added
  pub add_price : ℕ → ℕ → ℕ → ℕ
  pub error_text : RunError → String
  pub is_alphanumeric : Char → Bool
  pub context_max_tokens : ℕ
  -- `card_update_min_interval_ms`, in microseconds
  pub interval : ℕ

-- `CardCoalescer`
pub record Coalescer : Type 0 where
  pub card_id : Option String
  pub pending : Option ChecklistCard
  pub last_flush : ℕ
  pub pushes : ℕ
  pub merged : ℕ

-- `RunContext`
pub record RunContext : Type 0 where
  pub task : Task
  pub session : Session
  pub card : Coalescer
  pub initiator : String
  pub note : Option String
  pub invalid_args : ℕ
  pub sandbox_errors : ℕ
  pub repeats : ℕ
  pub last_call_sig : Option String
  pub attachments_message_id : Option String
  pub names : List (String × String)
  pub claimed_turns : List ℕ
  pub last_user_turn : String

pub record Desk : Type 0 where
  pub ctx : RunContext
  pub world : World

abbrev pub Run : Type 0 → Type 0
Run A = Exec Desk RunError A

abbrev pub run_error_of : IngressError → RunError
run_error_of (IngressError.store e) = RunError.store e
run_error_of IngressError.evidence = RunError.evidence
run_error_of IngressError.platform = RunError.platform

module _ {A B : Type 0} where
  abbrev pub followed : Result RunError A × Desk → (A → Run B) → Result RunError B × Desk
  followed (ok a, d) f = f a d
  followed (err e, d) f = (err e, d)

  infixl 5 ◌>>=◌ ◌>>◌
  unfoldable pub ◌>>=◌ : Run A → (A → Run B) → Run B
  ◌>>=◌ m f d = followed (m d) f

  unfoldable pub ◌>>◌ : Run A → Run B → Run B
  ◌>>◌ m n d = followed (m d) (λ _. n)

module _ {A : Type 0} where
  unfoldable pub pure : A → Run A
  pure a d = (ok a, d)

  unfoldable pub raise : RunError → Run A
  raise e d = (err e, d)

  abbrev pub acted : Desk → Result IngressError A × World → Result RunError A × Desk
  acted d (ok a, w) = (ok a, record d { world = w })
  acted d (err e, w) = (err (run_error_of e), record d { world = w })

  -- A call of a port.
  unfoldable pub act : Act A → Run A
  act m d = acted d (m d.world)

  -- A call whose failure is looked at, or only logged.
  unfoldable pub attempted : Run A → Run (Result RunError A)
  attempted m d = let (r, d') = m d in (ok r, d')

  -- A reading of the state.
  unfoldable pub reads : (Desk → A) → Run A
  reads f d = (ok (f d), d)

  -- An answer from outside.
  unfoldable pub ask : (ℕ → A) → Run A
  ask f d =
      (ok (f d.world.draws), record d { world = record d.world { draws = d.world.draws + 1 } })

unfoldable pub on_ctx : (RunContext → RunContext) → Run Unit
on_ctx f d = (ok tt, record d { ctx = f d.ctx })

unfoldable pub on_world : (World → World) → Run Unit
on_world f d = (ok tt, record d { world = f d.world })

unfoldable pub on_task : (Task → Task) → Run Unit
on_task f d = (ok tt, record d { ctx = record d.ctx { task = f d.ctx.task } })

abbrev pub on_coalescer : (Coalescer → Coalescer) → Run Unit
on_coalescer f = on_ctx (λ c. record c { card = f c.card })

-- What is asked of a port that cannot fail is noted.
abbrev pub note_sent : Sent → Run Unit
note_sent s = on_world (λ w. record w { outbox = w.outbox ++ s ∷ [] })

abbrev pub without_live :
    String → List (String × (Task × Session)) → List (String × (Task × Session))
without_live id [] = []
without_live id ((k, v) ∷ rest) =
    let others = without_live id rest in if k == id then others else (k, v) ∷ others

abbrev refreshed : Task → List (String × (Task × Session)) → List (String × (Task × Session))
refreshed task [] = []
refreshed task ((k, (t, s)) ∷ rest) =
    (k, if k == task.id then (task, s) else (t, s)) ∷ refreshed task rest

abbrev pub refresh_live : Task → World → World
refresh_live task w = record w { in_flight = refreshed task w.in_flight }

unfoldable pub record_event : EvidenceKind → Members → Run Unit
record_event kind payload = do
  id ← reads (λ d. d.ctx.task.id)
  act (append_evidence id kind payload)

-- `AgentWorker::save`
unfoldable pub save : Ports → Run Unit
save p = do
  time ← act (now p.env)
  on_task (λ t. record t { updated_at = time })
  task ← reads (λ d. d.ctx.task)
  act (on_db (update_task task))
  on_world (refresh_live task)

abbrev pub thread_root : Session → String
thread_root session = or_text session.anchor.thread_id session.anchor.message_id

-- Members of an evidence payload.
abbrev pub text_of : String → String → Members → Members
text_of key s rest = Members.member key (Value.text s) rest

abbrev pub number_of : String → ℕ → Members → Members
number_of key n rest = Members.member key (Value.number (decimal n)) rest

abbrev pub text_or_null : String → Option String → Members → Members
text_or_null key none rest = Members.member key Value.null rest
text_or_null key (some s) rest = Members.member key (Value.text s) rest

abbrev pub texts_value : List String → Elements
texts_value [] = Elements.no_elements
texts_value (s ∷ texts) = Elements.element (Value.text s) (texts_value texts)
