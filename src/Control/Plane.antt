-- ===== src/Control/Plane.antt =====
-- core/crates/control/src/plane.rs: the state of InProcessControlPlane with the ports that it
-- calls. Calls of the platform and of the evidence writer are recorded in order; `faults` says
-- which of the coming ones fail. Every mutex is held for one step, and the model runs one handler
-- at a time (Control/Races has the steps of two handlers in turn).
-- `Invalid` and `Other` are made by nothing modelled here.
use aite.Base.{
  if◌then◌else◌, contains, without, ℕ, ◌+◌, String, Bool, true, false, Option, some, List, [], ◌∷◌,
  ◌++◌, ◌==◌,
}
use aite.Base.Exec.{Exec, Result, err, ok, pure, ◌>>◌}
use aite.Contracts.Events.{NormalizedEvent}
use aite.Contracts.Evidence.{EvidenceKind, Members}
use aite.Contracts.Protocol.{ChecklistCard, Message, ToolCallRequest, ToolContext}
use aite.Contracts.Session.{Session, Task}
use aite.Control.Queue.{DispatchQueue}
use aite.Store.{Db}
use aite.Store.Statements.{StoreError, count_in}

pub data IngressError : Type 0 where
  store : StoreError → IngressError
  evidence platform : IngressError

pub record Shared : Type 0 where
  pub queue : DispatchQueue
  pub steer : List (String × List String)
  pub cancelled : List String
  pub running : List String
  pub owned : List String
  pub counters : List (String × ℕ)

-- One event of the evidence port.
pub record Entry : Type 0 where
  pub task_id : String
  pub kind : EvidenceKind
  pub payload : Members

-- `OutboundFile`
pub record OutboundFile : Type 0 where
  pub chat_id : String
  pub reply_to : Option String
  pub name : String
  pub mime : String
  pub content : List ℕ

-- What is sent to the platform, the sandbox port, the gateway and the model, and the times waited
-- for between two calls of the model.
pub data Sent : Type 0 where
  text_sent : String → String → Option String → Sent
  acked : String → Sent
  card_sent : String → String → ChecklistCard → Sent
  card_updated : String → ChecklistCard → Sent
  file_sent : OutboundFile → Sent
  sandbox_released gateway_registered gateway_released : String → Sent
  tool_called : ToolContext → ToolCallRequest → Sent
  model_called : List Message → Sent
  waited : ℕ → Sent

pub record World : Type 0 where
  pub db : Db
  pub shared : Shared
  pub entries : List Entry
  pub manifests : List (String × String)
  pub outbox : List Sent
  pub faults : List Bool
  -- the tasks that a worker runs
  pub in_flight : List (String × (Task × Session))
  -- how many times the clock, the random sources and the ports were read
  pub draws : ℕ

-- The clock, the random sources, the digest and the platform (crates chrono, uuid, rand, sha2; the
-- edge process): parameters. `history` is what `read_history` answers, none for an error.
pub record Env : Type 0 where
  pub clock : ℕ → ℕ
  pub uuid : ℕ → String
  pub token_hex_16 : ℕ → String
  pub root_hash : String → List Entry → String
  pub supports_thread : Bool
  pub supports_history : Bool
  pub model : String
  pub model_name : String
  pub max_steps : ℕ
  pub max_wall_sec : ℕ
  pub stuck_after : ℕ
  pub has_worker : Bool
  pub has_sandbox : Bool
  pub has_gateway : Bool
  pub task_dir : String → String
  -- `{:.2}` of the bits of an `f64`
  pub cost_text : ℕ → String

abbrev pub Act : Type 0 → Type 0
Act A = Exec World IngressError A

abbrev pub stored : {A : Type 0} → Result StoreError A × Db → World → Result IngressError A × World
stored (ok a, db) w = (ok a, record w { db = db })
stored (err e, db) w = (err (IngressError.store e), record w { db = db })

-- A call of the store.
unfoldable pub on_db : {A : Type 0} → Exec Db StoreError A → Act A
on_db m w = stored (m w.db) w

-- A call whose failure the caller looks at (or only logs).
unfoldable pub attempt : {A : Type 0} → Act A → Act (Result IngressError A)
attempt m w = let (r, w') = m w in (ok r, w')

abbrev bump_in_counters : String → List (String × ℕ) → List (String × ℕ)
bump_in_counters key [] = (key, 1) ∷ []
bump_in_counters key ((k, n) ∷ rest) =
    let others = bump_in_counters key rest in
    if k == key then (k, n + 1) ∷ rest else (k, n) ∷ others

abbrev pub on_shared : (Shared → Shared) → Act Unit
on_shared f w = (ok tt, record w { shared = f w.shared })

abbrev pub on_world : (World → World) → Act Unit
on_world f w = (ok tt, f w)

unfoldable pub bump : String → Act Unit
bump key = on_shared (λ s. record s { counters = bump_in_counters key s.counters })

unfoldable pub counter : String → Shared → ℕ
counter key s = count_in key s.counters

unfoldable pub now : Env → Act ℕ
now env w = (ok (env.clock w.draws), record w { draws = w.draws + 1 })

unfoldable pub fresh_uuid : Env → Act String
fresh_uuid env w = (ok (env.uuid w.draws), record w { draws = w.draws + 1 })

unfoldable pub fresh_token : Env → Act String
fresh_token env w = (ok (env.token_hex_16 w.draws), record w { draws = w.draws + 1 })

-- A call of a port: it fails, and nothing is recorded, or it is recorded.
abbrev pub port : List Bool → IngressError → (World → World) → Act Unit
port [] e record_call w = (ok tt, record_call w)
port (true ∷ rest) e record_call w = (err e, record w { faults = rest })
port (false ∷ rest) e record_call w = (ok tt, record_call (record w { faults = rest }))

unfoldable pub send : Sent → Act Unit
send s w = port w.faults IngressError.platform (λ v. record v { outbox = v.outbox ++ s ∷ [] }) w

unfoldable pub append_evidence : String → EvidenceKind → Members → Act Unit
append_evidence task_id kind payload w =
    port w.faults IngressError.evidence
      (λ v. record v {
        entries = v.entries ++ record { task_id = task_id; kind = kind; payload = payload } ∷ [];
      })
      w

-- `ack`: a failure is only logged.
unfoldable pub ack : NormalizedEvent → Act Unit
unfolding send attempt
ack ev = do attempt (send (acked ev.anchor.message_id)); pure tt

-- `reply`: into the thread of the event's message.
unfoldable pub reply : NormalizedEvent → String → Act Unit
unfolding send
reply ev text = send (text_sent ev.chat_id text (some ev.anchor.message_id))

abbrev pub has : List String → String → Bool
has ids id = contains ids id

abbrev pub insert_id : String → List String → List String
insert_id id ids = if has ids id then ids else ids ++ id ∷ []

abbrev pub without_steer : String → List (String × List String) → List (String × List String)
without_steer id [] = []
without_steer id ((k, texts) ∷ rest) =
    let others = without_steer id rest in if k == id then others else (k, texts) ∷ others

abbrev pub steer_of : String → List (String × List String) → List String
steer_of id [] = []
steer_of id ((k, texts) ∷ rest) = if k == id then texts else steer_of id rest

-- `entry(id).or_default().push(text)`
abbrev pub push_steer : String → String → List (String × List String) → List (String × List String)
push_steer id text [] = (id, text ∷ []) ∷ []
push_steer id text ((k, texts) ∷ rest) =
    let others = push_steer id text rest in
    if k == id then (k, texts ++ text ∷ []) ∷ rest else (k, texts) ∷ others

-- `drain_steer`
unfoldable pub drain_steer : String → Act (List String)
drain_steer id w = (
  ok (steer_of id w.shared.steer),
  record w { shared = record w.shared { steer = without_steer id w.shared.steer } },
)

-- The drop of `FinishGuard`: no steer of the task is left, and it is no longer owned.
unfoldable pub finish : String → Shared → Shared
finish id s = record s { steer = without_steer id s.steer; owned = without s.owned id }
