-- ===== src/Store.antt =====
-- core/crates/store/src/lib.rs: SqliteSessionStore. Each method is one `with_conn`: a statement (or
-- one transaction) on the tables, under the lock, on a connection that `close` takes away. SQLite
-- is not modelled but for the statements in the source: `faults` says which of the coming calls
-- fail in SQLite, and a statement that fails changes nothing.
pub mod Statements
pub mod Calls
pub mod Keys
pub mod Numbers
pub mod Seen
pub mod Orphans
pub mod Threads
pub mod Turns
use aite.Base.{ℕ, String, Bool, true, false, Option, none, some, List, [], ◌∷◌}
use aite.Base.Exec.{Exec, Result, err, ok}
use aite.Contracts.Session.{Session, Task, Turn}
use aite.Store.Statements.{
  IndexedMessage, StoreError, Tables, delete_seen, fail_orphans, insert_index, insert_seen,
  insert_session, insert_task, insert_turn, not_initialized, select_active, select_index,
  select_next_seq, select_session, select_task, select_thread, select_turns, sqlite, upsert_counter,
  write_session, write_task,
}

pub record Db : Type 0 where
  pub conn : Option Tables
  pub faults : List Bool

abbrev pub on_conn :
    {A : Type 0} → Exec Tables StoreError A → List Bool → Tables → Result StoreError A × Db
on_conn f [] t = let (r, t') = f t in (r, record { conn = some t'; faults = [] })
on_conn f (true ∷ rest) t = (err sqlite, record { conn = some t; faults = rest })
on_conn f (false ∷ rest) t = let (r, t') = f t in (r, record { conn = some t'; faults = rest })

abbrev pub on_opened :
    {A : Type 0} → Exec Tables StoreError A → List Bool → Option Tables → Result StoreError A × Db
on_opened f faults none = (err not_initialized, record { conn = none; faults = faults })
on_opened f faults (some t) = on_conn f faults t

unfoldable pub with_conn : {A : Type 0} → Exec Tables StoreError A → Exec Db StoreError A
with_conn f db = on_opened f db.faults db.conn

-- Idempotent.
pub close : Exec Db StoreError Unit
close db = (ok tt, record db { conn = none })

abbrev pub get_session : String → Exec Db StoreError (Option Session)
get_session id = with_conn (select_session id)

abbrev pub find_session_by_thread : String → String → Exec Db StoreError (Option Session)
find_session_by_thread chat_id thread_id = with_conn (select_thread chat_id thread_id)

abbrev pub create_session : Session → Exec Db StoreError Unit
create_session s = with_conn (insert_session s)

abbrev pub update_session : Session → Exec Db StoreError Unit
update_session s = with_conn (write_session s)

abbrev pub append_turn : Turn → Exec Db StoreError Unit
append_turn t = with_conn (insert_turn t)

abbrev pub list_turns : String → ℕ → Exec Db StoreError (List Turn)
list_turns session_id limit = with_conn (select_turns session_id limit)

abbrev pub next_turn_seq : String → Exec Db StoreError ℕ
next_turn_seq session_id = with_conn (select_next_seq session_id)

abbrev pub create_task : Task → Exec Db StoreError Unit
create_task t = with_conn (insert_task t)

abbrev pub update_task : Task → Exec Db StoreError Unit
update_task t = with_conn (write_task t)

abbrev pub get_task : String → Exec Db StoreError (Option Task)
get_task id = with_conn (select_task id)

abbrev pub list_active_tasks : String → Exec Db StoreError (List Task)
list_active_tasks chat_id = with_conn (select_active chat_id)

abbrev pub next_task_no : String → Exec Db StoreError String
next_task_no tenant_id = with_conn (upsert_counter tenant_id)

abbrev pub seen_event : String → ℕ → Exec Db StoreError Bool
seen_event event_id now = with_conn (insert_seen event_id now)

abbrev pub recover_orphan_tasks : ℕ → Exec Db StoreError (List Task)
recover_orphan_tasks now = with_conn (fail_orphans now)

abbrev pub prune_seen_events_before : ℕ → Exec Db StoreError ℕ
prune_seen_events_before cutoff = with_conn (delete_seen cutoff)

abbrev pub index_message : IndexedMessage → Exec Db StoreError Unit
index_message m = with_conn (insert_index m)

abbrev pub find_session_by_message : String → String → Exec Db StoreError (Option IndexedMessage)
find_session_by_message chat_id message_id = with_conn (select_index chat_id message_id)
