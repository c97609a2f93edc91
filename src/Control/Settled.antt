-- ===== src/Control/Settled.antt =====
-- The cancellation of a task that has already ended.
use aite.Base.{
  find, String, ◌≡◌, refl, sym, ap, subst, ◌∙◌, Bool, true, false, Option, none, some, List, [],
  ◌∷◌, ◌++◌, ◌==◌,
}
use aite.Base.Exec.{Exec, Result, err, ok}
use aite.Contracts.Session.{Task, is_terminal}
use aite.Control.Dispatch.{
  cancel_read, cancel_task_by, leave_settled, mark_cancelled, notify_cancelled, settled_task,
}
use aite.Control.Plane.{Env, IngressError, Sent, World, attempt, has, on_db, port, send, stored}
use aite.Store.{Db, get_session, get_task, on_opened, with_conn}
use aite.Store.Statements.{
  StoreError, Tables, read, select_session, select_task, session_of, task_of,
}

on_opened-read :
    {A : Type 0} (f : Tables → A) (faults : List Bool) (o : Option Tables)
    → (on_opened (read f) faults o).1.conn ≡ o
on_opened-read f faults none = refl
on_opened-read f [] (some t) = refl
on_opened-read f (true ∷ faults) (some t) = refl
on_opened-read f (false ∷ faults) (some t) = refl

get_session-conn : (id : String) (db : Db) → (get_session id db).1.conn ≡ db.conn
unfolding with_conn select_session
get_session-conn id db =
    on_opened-read (λ t. session_of (find (λ r. r.session.id == id) t.sessions)) db.faults db.conn

get_task-conn : (id : String) (db : Db) → (get_task id db).1.conn ≡ db.conn
unfolding with_conn select_task
get_task-conn id db =
    on_opened-read (λ t. task_of (find (λ r. r.task.id == id) t.tasks)) db.faults db.conn

stored-db :
    {A : Type 0} (r : Result StoreError A) (db : Db) (w : World) → (stored (r, db) w).1.db ≡ db
stored-db (ok a) db w = refl
stored-db (err e) db w = refl

on_db-db : {A : Type 0} (m : Exec Db StoreError A) (w : World) → (on_db m w).1.db ≡ (m w.db).1
unfolding on_db
on_db-db m w = stored-db (m w.db).0 (m w.db).1 w

port-db :
    (faults : List Bool) (e : IngressError) (s : Sent) (w : World)
    → (port faults e (λ v. record v { outbox = v.outbox ++ s ∷ [] }) w).1.db ≡ w.db
port-db [] e s w = refl
port-db (true ∷ faults) e s w = refl
port-db (false ∷ faults) e s w = refl

send-db : (s : Sent) (w : World) → (send s w).1.db ≡ w.db
unfolding send
send-db s w = port-db w.faults IngressError.platform s w

-- The task is answered as it is, and no table changes.
abbrev pub Left : Task → World → Result IngressError Task × World → Type 0
Left fresh w out = (out.0 ≡ ok fresh) × (out.1.db.conn ≡ w.db.conn)

module _ (fresh : Task) (reply_to chat_id : Option String) where
  leave_settled-Left :
      (notify : Bool) (w : World) → Left fresh w (leave_settled fresh reply_to chat_id notify w)
  unfolding leave_settled notify_cancelled attempt
  leave_settled-Left false w = (refl, refl)
  leave_settled-Left true w = (
    refl,
    ap (λ d. d.conn) (send-db _ (on_db (get_session fresh.session_id) w).1)
        ∙ (ap (λ d. d.conn) (on_db-db (get_session fresh.session_id) w)
            ∙ get_session-conn fresh.session_id w.db),
  )

settled_task-some :
    (fresh : Task) → is_terminal fresh.status ≡ true → settled_task (ok (some fresh)) ≡ some fresh
settled_task-some fresh h = rw h refl

on_db-ok :
    {A : Type 0} (m : Exec Db StoreError A) (w : World) (a : A)
    → (m w.db).0 ≡ ok a
    → (on_db m w).0 ≡ ok a
unfolding on_db
on_db-ok m w a e = ap (λ r. (stored (r, (m w.db).1) w).0) e

-- When the store answers that the task has ended (failed, cancelled or delivered), a cancellation
-- succeeds, hands back the stored task, and changes no table.
pub cancel_task_by-Left :
    (env : Env) (task fresh : Task) (reply_to chat_id : Option String) (notify : Bool)
    → (issuer : Option String) (w : World) → (get_task task.id w.db).0 ≡ ok (some fresh)
    → is_terminal fresh.status ≡ true
    → Left fresh w (cancel_task_by env task reply_to chat_id notify issuer w)
unfolding cancel_task_by mark_cancelled attempt
cancel_task_by-Left env task fresh reply_to chat_id notify issuer w found done =
    let marked = (mark_cancelled task.id w).1 in
    let v = (on_db (get_task task.id) marked).1 in
    let left = leave_settled-Left fresh reply_to chat_id notify v in
    subst
      (λ r. Left fresh w (
        cancel_read env task (has w.shared.running task.id) reply_to chat_id notify issuer
          (settled_task r) v))
      (sym (on_db-ok (get_task task.id) marked (some fresh) found))
      (subst
        (λ o.
          Left fresh w (
            cancel_read env task (has w.shared.running task.id) reply_to chat_id notify issuer o v))
        (sym (settled_task-some fresh done))
        (
          left.0,
          left.1
              ∙ (ap (λ d. d.conn) (on_db-db (get_task task.id) marked)
                  ∙ get_task-conn task.id w.db),
        ))
