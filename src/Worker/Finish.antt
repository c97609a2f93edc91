-- ===== src/Worker/Finish.antt =====
-- core/crates/worker/src/deliver.rs: the three ends of a run.
use Prim.Native.Char.{code}
use aite.Base.{
  eqb, if◌then◌else◌, keep, get_last?, length, join, render, ℕ, zero, suc, ◌-◌, String, ◌≡◌, refl,
  Bool, not, ◌&&◌, ◌||◌, Option, none, some, List, [], ◌∷◌, map, ◌==◌,
}
use aite.Base.Exec.{Result, err, ok}
use aite.Contracts.Evidence.{EvidenceKind, Members, Value}
use aite.Contracts.Protocol.{CardStatus, get_member}
use aite.Contracts.Session.{Session, Task, TaskStatus, Turn, TurnRole}
use aite.Control.Dispatch.{finalize_port}
use aite.Control.Plane.{
  OutboundFile, file_sent, gateway_released, now, on_db, reply, send, text_sent,
}
use aite.Control.Races.{steps}
use aite.Control.Sessions.{or_text}
use aite.Control.Words.{clip, trim}
use aite.Store.{append_turn, next_turn_seq}
use aite.Store.Statements.{StoreError}
use aite.Worker.Card.{close_card}
use aite.Worker.Desk.{
  Ports, Run, RunError, act, ask, attempted, note_sent, number_of, on_task, pure, reads,
  record_event, save, text_of, texts_value, thread_root, ◌>>=◌, ◌>>◌,
}
use aite.Worker.Final.{has_truthy, plain_string}
use aite.Worker.Mime.{guess}
use aite.Worker.Scan.{starts_with}
use aite.Worker.Texts.{artifact_missing, assistant_turn_content}

abbrev pub assistant_turn_attempts : ℕ
assistant_turn_attempts = 3

abbrev split_at_slash : String → String × List String
split_at_slash String.[] = ("", [])
split_at_slash (String.◌∷◌ c s) =
    let (head, rest) = split_at_slash s in
    if eqb (code c) 47 then ("", head ∷ rest) else (String.◌∷◌ c head, rest)

abbrev is_named : String → Bool
is_named s = not ((s == "") || (s == "."))

abbrev not_parent : Option String → Option String
not_parent none = none
not_parent (some s) = if s == ".." then none else some s

-- `Path::file_name` of an absolute path.
unfoldable pub file_name : String → Option String
file_name path =
    let (head, rest) = split_at_slash path in not_parent (get_last? (keep is_named (head ∷ rest)))

file_name_dot : file_name "/work/a/b.csv/." ≡ some "b.csv"
unfolding file_name
file_name_dot = refl

abbrev delivered_payload : ℕ → List String → ℕ → Members
delivered_payload n missing steps = number_of "artifacts" n (
    Members.member "missing" (Value.array (texts_value missing))
      (number_of "steps" steps Members.no_members))

module _ (p : Ports) where
  abbrev assistant_turn : Session → ℕ → String → ℕ → Turn
  assistant_turn session seq content time = record {
    session_id = session.id;
    seq = seq;
    role = TurnRole.assistant;
    platform_user_id = none;
    content = content;
    attachments = [];
    created_at = time;
  }

  -- A number that was taken is read again, while attempts are left; other errors are logged.
  abbrev pub turn_written : Run Unit → Result {0, 0} RunError Unit → Run Unit
  turn_written again (ok done) = pure tt
  turn_written again (err (RunError.store (StoreError.duplicate_turn id seq))) = again
  turn_written again (err e) = pure tt

  abbrev pub write_at : Run Unit → Session → String → Result RunError ℕ → Run Unit
  write_at again session content (err e) = pure tt
  write_at again session content (ok seq) = do
    time ← act (now p.env)
    r ← attempted (act (on_db (append_turn (assistant_turn session seq content time))))
    turn_written again r

  unfoldable pub append_assistant_turn : ℕ → Session → String → Run Unit
  append_assistant_turn zero session content = pure tt
  append_assistant_turn (suc attempts) session content =
      let again = append_assistant_turn attempts session content in
      attempted (act (on_db (next_turn_seq session.id))) >>= write_at again session content

  abbrev set_sandbox : Option String → Run Unit
  set_sandbox id = on_task (λ t. record t { sandbox_id = id })

  abbrev task_id : Run String
  task_id = reads (λ d. d.ctx.task.id)

  abbrev sandbox_now : Run (Option String)
  sandbox_now = reads (λ d. d.ctx.task.sandbox_id)

  abbrev ask_gateway : Run Unit
  ask_gateway = do id ← task_id; sandbox ← ask (λ n. p.sandbox_id_of n id); set_sandbox sandbox

  -- A failed acquisition leaves none.
  abbrev acquire_sandbox : Run Unit
  acquire_sandbox = do id ← task_id; sandbox ← ask (λ n. p.acquire n id); set_sandbox sandbox

  abbrev pub where_none : Run Unit → Option String → Run Unit
  where_none m none = m
  where_none m (some id) = pure tt

  abbrev pub file_of : String → Option String → Run (Option (List ℕ))
  file_of path none = pure none
  file_of path (some id) = ask (λ n. p.get_file n id path)

  abbrev read_file : String → Run (Option (List ℕ))
  read_file path = do
    held ← sandbox_now
    where_none (if p.env.has_gateway then ask_gateway else pure tt) held
    told ← sandbox_now
    where_none acquire_sandbox told
    id ← sandbox_now
    file_of path id

  unfoldable pub fetch_artifact : String → Run (Option (List ℕ))
  unfolding starts_with
  fetch_artifact path =
      if starts_with "/work/" path && p.env.has_sandbox then read_file path else pure none

  abbrev path_of : Members → String
  path_of art = plain_string (get_member "path" art)

  abbrev title_of : Members → String
  title_of art =
      if has_truthy "title" art then plain_string (get_member "title" art) else path_of art

  abbrev mime_of : Members → String
  mime_of art =
      if has_truthy "mime" art
      then plain_string (get_member "mime" art)
      else or_text (guess (path_of art)) "application/octet-stream"

  abbrev outbound_file : Session → Members → List ℕ → OutboundFile
  outbound_file session art content = record {
    chat_id = session.chat_id;
    reply_to = some (thread_root session);
    name = or_text (file_name (path_of art)) (title_of art);
    mime = mime_of art;
    content = content;
  }

  abbrev artifact_payload : Members → List ℕ → Members
  artifact_payload art content = text_of "title" (title_of art) (
      text_of "mime" (mime_of art) (
        text_of "sha256" (p.sha256_bytes content)
          (number_of "size" (length content) Members.no_members)))

  -- The titles of the artifacts that are missing, and of those sent.
  abbrev add_missing : String → List String × List String → List String × List String
  add_missing title (missing, sent) = (title ∷ missing, sent)

  abbrev add_title : String → List String × List String → List String × List String
  add_title title (missing, sent) = (missing, title ∷ sent)

  abbrev missing_name : Members → String
  missing_name art = if title_of art == "" then path_of art else title_of art

  abbrev pub send_artifact :
      Run (List String × List String) → Members → Option (List ℕ) → Run (List String × List String)
  send_artifact others art none = do rest ← others; pure (add_missing (missing_name art) rest)
  send_artifact others art (some content) = do
    session ← reads (λ d. d.ctx.session)
    act (send (file_sent (outbound_file session art content)))
    record_event EvidenceKind.artifact (artifact_payload art content)
    rest ← others
    pure (add_title (title_of art) rest)

  unfoldable pub send_artifacts : List Members → Run (List String × List String)
  unfolding file_name
  send_artifacts [] = pure ([], [])
  send_artifacts (art ∷ artifacts) =
      let others = send_artifacts artifacts in
      fetch_artifact (path_of art) >>= send_artifact others art

  abbrev manifest_model : Task → String
  manifest_model task = if task.model == "" then p.env.model_name else task.model

  unfoldable pub finish_run : Run Unit
  finish_run = do
    id ← task_id
    root ← act (finalize_port p.env id)
    on_task (λ t. record t { evidence_root_hash = some root })
    if p.env.has_gateway then note_sent (gateway_released id) else pure tt
    save p

  -- The end of every run: the card, the last entry of the evidence, and `finish_run`.
  abbrev pub end_with : CardStatus → EvidenceKind → (Task → Members) → Run Task
  end_with status kind payload = do
    close_card p status
    task ← reads (λ d. d.ctx.task)
    record_event kind (payload task)
    finish_run
    reads (λ d. d.ctx.task)

  abbrev missing_lines : List String → String
  missing_lines [] = ""
  missing_lines (m ∷ missing) = render ("\n" ∷ join "\n" (map artifact_missing (m ∷ missing)) ∷ [])

  abbrev pub put_end : TaskStatus → String → Task → Task
  put_end status summary t = record t { status = status; result_summary = clip summary 200 }

  unfoldable pub deliver : String → List Members → Bool → Run Task
  deliver reply artifacts answering = do
    on_task
        (λ t. record t { status = if answering then TaskStatus.answering else TaskStatus.working })
    save p
    (missing, sent) ← send_artifacts artifacts
    let text = render (trim reply ∷ missing_lines missing ∷ [])
    session ← reads (λ d. d.ctx.session)
    act (send (text_sent session.chat_id text (some (thread_root session))))
    append_assistant_turn assistant_turn_attempts session (assistant_turn_content text sent)
    on_task (put_end TaskStatus.delivered reply)
    end_with CardStatus.delivered EvidenceKind.delivered
        (λ t. delivered_payload (length artifacts - length missing) missing t.steps)

  unfoldable pub fail : String → Run Task
  fail text = do
    on_task (put_end TaskStatus.failed text)
    session ← reads (λ d. d.ctx.session)
    attempted (act (send (text_sent session.chat_id text (some (thread_root session)))))
    end_with CardStatus.failed EvidenceKind.failed
        (λ t. text_of "reason" text (number_of "steps" t.steps Members.no_members))

  unfoldable pub cancel : Run Task
  cancel = do
    on_task (λ t. record t { status = TaskStatus.cancelled })
    end_with CardStatus.cancelled EvidenceKind.cancelled
        (λ t. number_of "steps" t.steps Members.no_members)
