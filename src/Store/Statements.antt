-- ===== src/Store/Statements.antt =====
-- The statements of core/crates/store/src/lib.rs on the tables of migrate.rs. A row of `sessions`
-- or `tasks` is its `data` (the JSON text, which serde reads back as it was written) with the
-- column `created_at`, which only the INSERT writes; each statement writes the other columns
-- together with `data`, from it.
use Prim.Native.Nat.{max}
use aite.Base.{
  ltb, leb, eqb, if◌then◌else◌, take, keep, length, find, any, latest, sort_by, ℕ, ◌+◌, String,
  Bool, true, false, ◌&&◌, Option, none, some, List, [], ◌∷◌, ◌++◌, map, reverse, ◌==◌,
}
use aite.Base.Exec.{Exec, Result, err, ok}
use aite.Contracts.Session.{Session, SessionStatus, Task, TaskStatus, Turn, is_active}
use aite.Contracts.TaskNo.{TaskNoError, encode_task_no}

pub record SessionRow : Type 0 where
  pub session : Session
  pub created_at : ℕ

pub record TaskRow : Type 0 where
  pub task : Task
  pub created_at : ℕ

pub record IndexedMessage : Type 0 where
  pub chat_id : String
  pub message_id : String
  pub session_id : String
  pub task_id : Option String
  pub outbound : Bool
  pub created_at : ℕ

pub record Tables : Type 0 where
  pub sessions : List SessionRow
  pub turns : List Turn
  pub tasks : List TaskRow
  pub task_counters : List (String × ℕ)
  pub seen_events : List (String × ℕ)
  pub message_index : List IndexedMessage

-- `Serde` is left out: rows are read back as they were written.
pub data StoreError : Type 0 where
  duplicate_turn : String → ℕ → StoreError
  not_initialized : StoreError
  sqlite : StoreError
  other : String → StoreError

-- A statement that only reads.
abbrev pub read : {A : Type 0} → (Tables → A) → Exec Tables StoreError A
read f t = (ok (f t), t)

abbrev pub session_of : Option SessionRow → Option Session
session_of none = none
session_of (some r) = some r.session

abbrev pub task_of : Option TaskRow → Option Task
task_of none = none
task_of (some r) = some r.task

-- SELECT data FROM sessions WHERE id = ?1
unfoldable pub select_session : String → Exec Tables StoreError (Option Session)
select_session id = read (λ t. session_of (find (λ r. r.session.id == id) t.sessions))

abbrev pub not_archived : SessionStatus → Bool
not_archived SessionStatus.archived = false
not_archived _ = true

-- A NULL thread_id equals nothing.
abbrev pub same_text : Option String → String → Bool
same_text none s = false
same_text (some r) s = r == s

abbrev pub in_thread : String → String → SessionRow → Bool
in_thread chat_id thread_id r =
    (r.session.chat_id == chat_id)
    && (same_text r.session.anchor.thread_id thread_id && not_archived r.session.status)

abbrev pub session_key : SessionRow → ℕ × String
session_key r = (r.created_at, r.session.id)

-- … WHERE chat_id = ?1 AND thread_id = ?2 AND status != 'archived'
-- ORDER BY created_at DESC, id DESC LIMIT 1
unfoldable pub select_thread : String → String → Exec Tables StoreError (Option Session)
select_thread chat_id thread_id =
    read (λ t. session_of (latest session_key (keep (in_thread chat_id thread_id) t.sessions)))

-- `id` is the primary key.
unfoldable pub insert_session : Session → Exec Tables StoreError Unit
insert_session s t = if any (λ r. r.session.id == s.id) t.sessions then (err sqlite, t) else (
  ok tt,
  record t { sessions = t.sessions ++ record { session = s; created_at = s.created_at } ∷ [] },
)

abbrev pub put_session : Session → SessionRow → SessionRow
put_session s r = if r.session.id == s.id then record r { session = s } else r

-- UPDATE sessions SET … WHERE id = ?6
unfoldable pub write_session : Session → Exec Tables StoreError Unit
write_session s t = (ok tt, record t { sessions = map (put_session s) t.sessions })

abbrev pub is_turn : String → ℕ → Turn → Bool
is_turn session_id seq u = (u.session_id == session_id) && eqb u.seq seq

-- (session_id, seq) is the primary key, and its violation is `DuplicateTurn`.
unfoldable pub insert_turn : Turn → Exec Tables StoreError Unit
insert_turn u t =
    if any (is_turn u.session_id u.seq) t.turns
    then (err (duplicate_turn u.session_id u.seq), t)
    else (ok tt, record t { turns = t.turns ++ u ∷ [] })

abbrev pub of_session : String → List Turn → List Turn
of_session session_id turns = keep (λ u. u.session_id == session_id) turns

abbrev pub turn_key : Turn → ℕ × String
turn_key u = (u.seq, "")

-- … WHERE session_id = ?1 ORDER BY seq DESC LIMIT ?2, and `rows.reverse()`.
unfoldable pub select_turns : String → ℕ → Exec Tables StoreError (List Turn)
select_turns session_id limit =
    read (λ t. reverse (take limit (reverse (sort_by turn_key (of_session session_id t.turns)))))

-- COALESCE(MAX(seq), -1) + 1
unfoldable pub next_seq : List Turn → ℕ
next_seq [] = 0
next_seq (u ∷ turns) = max (u.seq + 1) (next_seq turns)

unfoldable pub select_next_seq : String → Exec Tables StoreError ℕ
select_next_seq session_id = read (λ t. next_seq (of_session session_id t.turns))

unfoldable pub insert_task : Task → Exec Tables StoreError Unit
insert_task k t = if any (λ r. r.task.id == k.id) t.tasks then (err sqlite, t) else (
  ok tt,
  record t { tasks = t.tasks ++ record { task = k; created_at = k.created_at } ∷ [] },
)

abbrev pub put_task : Task → TaskRow → TaskRow
put_task k r = if r.task.id == k.id then record r { task = k } else r

unfoldable pub write_task : Task → Exec Tables StoreError Unit
write_task k t = (ok tt, record t { tasks = map (put_task k) t.tasks })

unfoldable pub select_task : String → Exec Tables StoreError (Option Task)
select_task id = read (λ t. task_of (find (λ r. r.task.id == id) t.tasks))

-- JOIN sessions s ON s.id = t.session_id WHERE s.chat_id = ?1
abbrev pub in_chat : List SessionRow → String → TaskRow → Bool
in_chat sessions chat_id r =
    any (λ s. (s.session.id == r.task.session_id) && (s.session.chat_id == chat_id)) sessions

abbrev pub task_key : TaskRow → ℕ × String
task_key r = (r.created_at, r.task.id)

abbrev pub active_in : Tables → String → TaskRow → Bool
active_in t chat_id r = is_active r.task.status && in_chat t.sessions chat_id r

unfoldable pub select_active : String → Exec Tables StoreError (List Task)
select_active chat_id =
    read (λ t. map (λ r. r.task) (sort_by task_key (keep (active_in t chat_id) t.tasks)))

abbrev pub count_in : String → List (String × ℕ) → ℕ
count_in tenant_id [] = 0
count_in tenant_id ((id, n) ∷ rest) = if id == tenant_id then n else count_in tenant_id rest

-- INSERT … (?1, 1) ON CONFLICT DO UPDATE SET n = n + 1
unfoldable pub bump_in : String → List (String × ℕ) → List (String × ℕ)
bump_in tenant_id [] = (tenant_id, 1) ∷ []
bump_in tenant_id ((id, n) ∷ rest) =
    let others = bump_in tenant_id rest in
    if id == tenant_id then (id, n + 1) ∷ rest else (id, n) ∷ others

abbrev pub task_no_of : Result TaskNoError String → Result StoreError String
task_no_of (ok s) = ok s
task_no_of (err e) = err (other "task_no")

-- RETURNING n, then `encode_task_no`.
unfoldable pub upsert_counter : String → Exec Tables StoreError String
unfolding bump_in
upsert_counter tenant_id t =
    let counters = bump_in tenant_id t.task_counters in
    (
      task_no_of (encode_task_no (count_in tenant_id counters)),
      record t { task_counters = counters },
    )

abbrev pub is_seen : String → List (String × ℕ) → Bool
is_seen event_id seen = any (λ e. e.0 == event_id) seen

unfoldable pub insert_seen : String → ℕ → Exec Tables StoreError Bool
insert_seen event_id now t =
    if is_seen event_id t.seen_events
    then (ok true, t)
    else (ok false, record t { seen_events = t.seen_events ++ (event_id, now) ∷ [] })

unfoldable pub delete_seen : ℕ → Exec Tables StoreError ℕ
delete_seen cutoff t = (
  ok (length (keep (λ e. ltb e.1 cutoff) t.seen_events)),
  record t { seen_events = keep (λ e. leb cutoff e.1) t.seen_events },
)

-- `ORPHAN_TASK_STATUSES`
unfoldable pub is_orphan : TaskStatus → Bool
is_orphan TaskStatus.created = true
is_orphan TaskStatus.planning = true
is_orphan TaskStatus.answering = true
is_orphan TaskStatus.working = true
is_orphan _ = false

abbrev pub orphan_result_summary : String
orphan_result_summary = "进程重启前该任务仍在执行，已终止。请重新发起。"

abbrev pub failed_orphan : ℕ → Task → Task
failed_orphan now k = record k {
  status = TaskStatus.failed;
  result_summary = orphan_result_summary;
  updated_at = now;
}

abbrev pub orphan_row : TaskRow → Bool
orphan_row r = is_orphan r.task.status

-- UPDATE … WHERE id = ?3 of each orphan: ids are unique, so each row is rewritten in its place.
unfoldable pub fail_orphans : ℕ → Exec Tables StoreError (List Task)
fail_orphans now t = (
  ok (map (λ r. failed_orphan now r.task) (sort_by task_key (keep orphan_row t.tasks))),
  record t {
    tasks =
        map (λ r. if orphan_row r then record r { task = failed_orphan now r.task } else r) t.tasks;
  },
)

abbrev pub same_message : String → String → IndexedMessage → Bool
same_message chat_id message_id m = (m.chat_id == chat_id) && (m.message_id == message_id)

-- ON CONFLICT (chat_id, message_id) DO NOTHING
unfoldable pub insert_index : IndexedMessage → Exec Tables StoreError Unit
insert_index m t = (
  ok tt,
  if any (same_message m.chat_id m.message_id) t.message_index
      then t
      else record t { message_index = t.message_index ++ m ∷ [] },
)

unfoldable pub select_index : String → String → Exec Tables StoreError (Option IndexedMessage)
select_index chat_id message_id = read (λ t. find (same_message chat_id message_id) t.message_index)
