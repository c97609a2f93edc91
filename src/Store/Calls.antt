-- ===== src/Store/Calls.antt =====
-- Any sequence of calls of the store, in the order in which they get the lock.
use aite.Base.{
  all, ℕ, String, ◌≡◌, refl, Bool, true, false, Option, none, some, List, [], ◌∷◌, arith,
}
use aite.Base.Exec.{Exec}
use aite.Contracts.Session.{Session, Task, Turn}
use aite.Store.{
  Db, append_turn, close, create_session, create_task, index_message, next_task_no, on_conn,
  on_opened, prune_seen_events_before, recover_orphan_tasks, seen_event, update_session,
  update_task, with_conn,
}
use aite.Store.Statements.{
  IndexedMessage, StoreError, Tables, delete_seen, fail_orphans, insert_index, insert_seen,
  insert_session, insert_task, insert_turn, upsert_counter, write_session, write_task,
}

pub data Call : Type 0 where
  creates_session updates_session : Session → Call
  appends_turn : Turn → Call
  creates_task updates_task : Task → Call
  numbers_task : String → Call
  sees : String → ℕ → Call
  recovers : ℕ → Call
  prunes : ℕ → Call
  indexes : IndexedMessage → Call
  closes : Call

-- The calls that only read leave the tables as they are, and take one entry of `faults`.
abbrev pub statement : Call → Tables → Tables
statement (creates_session s) t = (insert_session s t).1
statement (updates_session s) t = (write_session s t).1
statement (appends_turn u) t = (insert_turn u t).1
statement (creates_task k) t = (insert_task k t).1
statement (updates_task k) t = (write_task k t).1
statement (numbers_task tenant_id) t = (upsert_counter tenant_id t).1
statement (sees event_id now) t = (insert_seen event_id now t).1
statement (recovers now) t = (fail_orphans now t).1
statement (prunes cutoff) t = (delete_seen cutoff t).1
statement (indexes m) t = (insert_index m t).1
statement closes t = t

unfoldable pub call : Call → Db → Db
call (creates_session s) db = (create_session s db).1
call (updates_session s) db = (update_session s db).1
call (appends_turn u) db = (append_turn u db).1
call (creates_task k) db = (create_task k db).1
call (updates_task k) db = (update_task k db).1
call (numbers_task tenant_id) db = (next_task_no tenant_id db).1
call (sees event_id now) db = (seen_event event_id now db).1
call (recovers now) db = (recover_orphan_tasks now db).1
call (prunes cutoff) db = (prune_seen_events_before cutoff db).1
call (indexes m) db = (index_message m db).1
call closes db = (close db).1

unfoldable pub run : List Call → Db → Db
run [] db = db
run (c ∷ calls) db = run calls (call c db)

-- A predicate of the tables, of an open database or of any.
abbrev pub OfTables : (Tables → Type 0) → Option Tables → Type 0
OfTables P none = Unit
OfTables P (some t) = P t

on_conn-keeps :
    {A : Type 0} (P : Tables → Type 0) (f : Exec Tables StoreError A) (faults : List Bool)
    (t : Tables)
    → P t
    → P (f t).1
    → OfTables P (on_conn f faults t).1.conn
on_conn-keeps P f [] t p q = q
on_conn-keeps P f (true ∷ faults) t p q = p
on_conn-keeps P f (false ∷ faults) t p q = q

on_opened-keeps :
    {A : Type 0} (P : Tables → Type 0) (f : Exec Tables StoreError A) (faults : List Bool)
    (o : Option Tables)
    → ((t : Tables) → P t → P (f t).1)
    → OfTables P o
    → OfTables P (on_opened f faults o).1.conn
on_opened-keeps P f faults none step p = tt
on_opened-keeps P f faults (some t) step p = on_conn-keeps P f faults t p (step t p)

pub with_conn-keeps :
    {A : Type 0} (P : Tables → Type 0) (f : Exec Tables StoreError A) (db : Db)
    → ((t : Tables) → P t → P (f t).1)
    → OfTables P db.conn
    → OfTables P (with_conn f db).1.conn
unfolding with_conn
with_conn-keeps P f db step p = on_opened-keeps P f db.faults db.conn step p

-- A predicate that the statements of some calls keep is kept by those calls, failing or not.
module _ (P : Tables → Type 0) (allowed : Call → Bool)
    (step : (c : Call) (t : Tables) → allowed c ≡ true → P t → P (statement c t)) where
  call-keeps :
      (c : Call) (db : Db) → allowed c ≡ true → OfTables P db.conn → OfTables P (call c db).conn
  unfolding call close
  call-keeps (creates_session s) db a p =
      with_conn-keeps P (insert_session s) db (λ t. step (creates_session s) t a) p
  call-keeps (updates_session s) db a p =
      with_conn-keeps P (write_session s) db (λ t. step (updates_session s) t a) p
  call-keeps (appends_turn u) db a p =
      with_conn-keeps P (insert_turn u) db (λ t. step (appends_turn u) t a) p
  call-keeps (creates_task k) db a p =
      with_conn-keeps P (insert_task k) db (λ t. step (creates_task k) t a) p
  call-keeps (updates_task k) db a p =
      with_conn-keeps P (write_task k) db (λ t. step (updates_task k) t a) p
  call-keeps (numbers_task i) db a p =
      with_conn-keeps P (upsert_counter i) db (λ t. step (numbers_task i) t a) p
  call-keeps (sees i now) db a p =
      with_conn-keeps P (insert_seen i now) db (λ t. step (sees i now) t a) p
  call-keeps (recovers now) db a p =
      with_conn-keeps P (fail_orphans now) db (λ t. step (recovers now) t a) p
  call-keeps (prunes c) db a p = with_conn-keeps P (delete_seen c) db (λ t. step (prunes c) t a) p
  call-keeps (indexes m) db a p =
      with_conn-keeps P (insert_index m) db (λ t. step (indexes m) t a) p
  call-keeps closes db a p = tt

  pub run-keeps_where :
      (calls : List Call) (db : Db)
      → all allowed calls ≡ true
      → OfTables P db.conn
      → OfTables P (run calls db).conn
  unfolding run
  run-keeps_where [] db a p = p
  run-keeps_where (c ∷ calls) db a p =
      run-keeps_where calls (call c db) (ground arith) (call-keeps c db (ground arith) p)

all-true : (calls : List Call) → all (λ c. true) calls ≡ true
all-true [] = refl
all-true (c ∷ calls) = all-true calls

-- A predicate that every statement keeps is kept by every call.
pub run-keeps :
    (P : Tables → Type 0)
    → ((c : Call) (t : Tables) → P t → P (statement c t))
    → (calls : List Call) (db : Db) → OfTables P db.conn
    → OfTables P (run calls db).conn
run-keeps P step calls db p =
    run-keeps_where P (λ c. true) (λ c t a. step c t) calls db (all-true calls) p
