-- ===== src/Control/Dispatch.antt =====
-- core/crates/control/src/dispatch.rs: the dispatch of a task to the worker, its cancellation, and
-- the choice of the task that a follow-up is steered to.
use aite.Base.{
  if◌then◌else◌, keep, without, latest, render, decimal, ℕ, zero, suc, String, Bool, true, false,
  Option, none, some, List, [], ◌∷◌, ◌++◌, ◌==◌,
}
use aite.Base.Exec.{Result, err, ok, pure, ◌>>=◌, ◌>>◌}
use aite.Contracts.Evidence.{EvidenceKind, Members, Value}
use aite.Contracts.Protocol.{CardStatus}
use aite.Contracts.Session.{Session, Task, TaskStatus, is_terminal}
use aite.Control.Card.{render_card}
use aite.Control.Plane.{
  Act, Entry, Env, IngressError, World, append_evidence, attempt, bump, card_updated, finish,
  gateway_released, has, insert_id, now, on_db, port, sandbox_released, send, text_sent,
  without_steer,
}
use aite.Control.Queue.{task_done, try_pop}
use aite.Control.Sessions.{filled_text, initiator_of, or_text}
use aite.Store.{get_session, get_task, update_task}

abbrev pub steer_key : Task → ℕ × String
steer_key t = (t.created_at, t.id)

abbrev pub pool_of : List Task → List Task → List Task
pool_of owned_tasks [] = owned_tasks
pool_of owned_tasks (t ∷ under_way) = t ∷ under_way

unfoldable pub steer_target : List Task → List String → List String → Option Task
steer_target active owned running =
    let owned_tasks = keep (λ t. has owned t.id) active in
    latest steer_key (pool_of owned_tasks (keep (λ t. has running t.id) owned_tasks))

abbrev pub chat_of : Option Session → String
chat_of none = ""
chat_of (some s) = s.chat_id

-- A failure to send is only logged.
unfoldable pub notify_cancelled : Task → Option Session → Option String → Option String → Act Unit
unfolding attempt send
notify_cancelled task session reply_to chat_id = do
  attempt (
      send (
        text_sent (or_text chat_id (chat_of session)) (render ("任务 " ∷ task.task_no ∷ " 已停止。" ∷ []))
          reply_to))
  pure tt

abbrev is_finalized : Task → Bool
is_finalized task = elim (filled_text task.evidence_root_hash) [ none ↦ false | some h ↦ true ]

abbrev pub of_task : String → List Entry → List Entry
of_task id entries = keep (λ e. e.task_id == id) entries

-- `EvidenceWriter::finalize` of the port: the root hash of the task's events so far.
unfoldable pub finalize_port : Env → String → Act String
finalize_port env id w =
    let root = env.root_hash id (of_task id w.entries) in
    let (r, w') =
      port w.faults IngressError.evidence
        (λ v. record v { manifests = v.manifests ++ (id, root) ∷ [] }) w in
    elim r [ ok done ↦ (ok root, w') | err e ↦ (err e, w') ]

abbrev with_root : Env → Task → Result IngressError String → Act Task
with_root env task (err e) = pure task
with_root env task (ok root) = do
  time ← now env
  let rooted = record task { evidence_root_hash = some root; updated_at = time }
  attempt (on_db (update_task rooted))
  pure rooted

-- A task that has a root hash is not finalized again.
unfoldable pub finalize_evidence : Env → Task → Act Task
unfolding finalize_port attempt on_db now
finalize_evidence env task =
    if is_finalized task
    then pure task
    else do root ← attempt (finalize_port env task.id); with_root env task root

abbrev cancelled_payload : Task → Option String → Members
cancelled_payload task issuer = Members.member "by" (Value.text "stop") (
    Members.member "steps" (Value.number (decimal task.steps)) (elim issuer [
      | none ↦ Members.no_members
      | some id ↦ Members.member "stopped_by" (Value.text id) Members.no_members
    ]))

abbrev update_card : Env → Task → Option Session → Act Unit
update_card env task none = pure tt
update_card env task (some session) = elim (filled_text task.card_id) [
  | none ↦ pure tt
  | some card_id ↦ (do
    attempt (
        send (
          card_updated card_id
            (render_card env task session (initiator_of session) CardStatus.cancelled none)))
    pure tt)
]

-- `ToolGateway::release_task` has no error.
unfoldable pub gateway_release : String → Act Unit
gateway_release id w = (ok tt, record w { outbox = w.outbox ++ gateway_released id ∷ [] })

-- A failure is only logged.
abbrev pub release_id : Env → Option String → Act Unit
release_id env none = pure tt
release_id env (some id) =
    if env.has_sandbox then (do attempt (send (sandbox_released id)); pure tt) else pure tt

unfoldable pub release_sandbox : Env → Task → Act Unit
unfolding attempt send
release_sandbox env task = release_id env (filled_text task.sandbox_id)

-- The end of a task that no worker holds.
unfoldable pub settle : Env → Task → Option Session → Option String → Act Task
unfolding append_evidence attempt send gateway_release finalize_evidence decimal
settle env task session issuer = do
  if env.has_gateway then gateway_release task.id else pure tt
  attempt (append_evidence task.id EvidenceKind.cancelled (cancelled_payload task issuer))
  update_card env task session
  finalize_evidence env task

abbrev pub or_none : Result IngressError (Option Session) → Option Session
or_none (ok s) = s
or_none (err e) = none

-- What `get_task` says of the task that is to be cancelled: its stored form, if that is terminal.
abbrev pub settled_task : Result IngressError (Option Task) → Option Task
settled_task (err e) = none
settled_task (ok none) = none
settled_task (ok (some fresh)) = if is_terminal fresh.status then some fresh else none

-- A task that has already ended is not rewritten; the user is told, if asked for.
unfoldable pub leave_settled : Task → Option String → Option String → Bool → Act Task
unfolding attempt on_db notify_cancelled
leave_settled task reply_to chat_id notify =
    if notify
    then (do
      session ← attempt (on_db (get_session task.session_id))
      notify_cancelled task (or_none session) reply_to chat_id
      pure task)
    else pure task

-- Behind the UPDATE of the status.
unfoldable pub wind_up :
    Env → Task → Bool → Option String → Option String → Bool → Option String → Act Task
unfolding attempt on_db release_sandbox settle notify_cancelled
wind_up env task running reply_to chat_id notify issuer = do
  release_sandbox env task
  session ← attempt (on_db (get_session task.session_id))
  ended ← if running then pure task else settle env task (or_none session) issuer
  if notify then notify_cancelled ended (or_none session) reply_to chat_id else pure tt
  pure ended

-- A task whose UPDATE failed is only counted.
abbrev pub wind_up_saved :
    Env
    → Task
    → Bool
    → Option String
    → Option String
    → Bool
    → Option String
    → Result {0, 0} IngressError Unit
    → Act Task
wind_up_saved env ended running reply_to chat_id notify issuer (err e) = do
  bump "control.cancel_save_failed"
  pure ended
wind_up_saved env ended running reply_to chat_id notify issuer (ok done) =
    wind_up env ended running reply_to chat_id notify issuer

unfoldable pub cancel_unsettled :
    Env → Task → Bool → Option String → Option String → Bool → Option String → Act Task
unfolding attempt on_db now bump wind_up
cancel_unsettled env task running reply_to chat_id notify issuer = do
  time ← now env
  let ended = record task { status = TaskStatus.cancelled; updated_at = time }
  saved ← attempt (on_db (update_task ended))
  wind_up_saved env ended running reply_to chat_id notify issuer saved

-- The critical section: note whether the task runs, and mark it cancelled.
unfoldable pub mark_cancelled : String → Act Bool
mark_cancelled id w = (
  ok (has w.shared.running id),
  record w { shared = record w.shared { cancelled = insert_id id w.shared.cancelled } },
)

abbrev pub cancel_read :
    Env
    → Task
    → Bool
    → Option String
    → Option String
    → Bool
    → Option String
    → Option Task
    → Act Task
cancel_read env task running reply_to chat_id notify issuer (some fresh) =
    leave_settled fresh reply_to chat_id notify
cancel_read env task running reply_to chat_id notify issuer none =
    cancel_unsettled env task running reply_to chat_id notify issuer

unfoldable pub cancel_task_by :
    Env → Task → Option String → Option String → Bool → Option String → Act Task
unfolding mark_cancelled attempt on_db leave_settled cancel_unsettled
cancel_task_by env task reply_to chat_id notify issuer = do
  running ← mark_cancelled task.id
  stored_task ← attempt (on_db (get_task task.id))
  cancel_read env task running reply_to chat_id notify issuer (settled_task stored_task)

-- The critical section of `dispatch_task`: a task that is cancelled is not admitted, any other is
-- marked running.
unfoldable pub admit : String → Act Bool
admit id w = if has w.shared.cancelled id then (ok false, w) else (
  ok true,
  record w { shared = record w.shared { running = insert_id id w.shared.running } },
)

-- The steer queued before a task runs is in its transcript, and is dropped.
abbrev pub clear_steer : String → World → World
clear_steer id w = record w { shared = record w.shared { steer = without_steer id w.shared.steer } }

-- `worker` is what the worker does with the task; the drop of `RunningGuard` comes at its end.
abbrev run_admitted : (Task → Session → Act Unit) → Task → Session → Bool → Act Unit
run_admitted worker task session false w = (ok tt, w)
run_admitted worker task session true w =
    let (r, w') = worker task session (clear_steer task.id w) in
    (r, record w' { shared = record w'.shared { running = without w'.shared.running task.id } })

abbrev dispatch_found : (Task → Session → Act Unit) → Bool → Task → Option Session → Act Unit
dispatch_found worker has_worker task none = pure tt
dispatch_found worker false task (some session) = pure tt
dispatch_found worker true task (some session) = do
  admitted ← admit task.id
  run_admitted worker task session admitted

abbrev dispatch_read : (Task → Session → Act Unit) → Bool → Option Task → Act Unit
dispatch_read worker has_worker none = pure tt
dispatch_read worker has_worker (some task) = do
  session ← on_db (get_session task.session_id)
  dispatch_found worker has_worker task session

unfoldable pub dispatch_task : Env → (Task → Session → Act Unit) → String → Act Unit
unfolding on_db admit
dispatch_task env worker id = do
  task ← on_db (get_task id)
  dispatch_read worker env.has_worker task

-- `run_one`: whatever the outcome, the drops of `FinishGuard` and `TaskDoneGuard` come last.
unfoldable pub run_one : Env → (Task → Session → Act Unit) → String → World → World
unfolding dispatch_task finish task_done
run_one env worker id w =
    let w' = (dispatch_task env worker id w).1 in
    let ended = finish id w'.shared in
    record w' { shared = record ended { queue = task_done ended.queue } }

-- `run_pending`, for as many tasks as `fuel` says.
unfoldable pub run_pending : ℕ → Env → (Task → Session → Act Unit) → World → World
unfolding run_one try_pop
run_pending zero env worker w = w
run_pending (suc fuel) env worker w =
    let (popped, queue) = try_pop w.shared.queue in
    elim popped [
      | none ↦ w
      | some id ↦
          run_pending fuel env worker
            (run_one env worker id (record w { shared = record w.shared { queue = queue } }))
    ]
