-- ===== src/Control/Cancelling.antt =====
-- What the cancellation of a task leaves alone.
-- No evidence is written, and no manifest.
use aite.Base.{
  if◌then◌else◌, render, ℕ, String, ◌≡◌, refl, ◌∙◌, Bool, true, false, Option, none, some, List, [],
  ◌∷◌, ◌++◌,
}
use aite.Base.Exec.{Exec, Result, after, err, ok, pure, ◌>>=◌, ◌>>◌}
use aite.Contracts.Session.{Session, Task, TaskStatus}
use aite.Control.Dispatch.{
  cancel_read, cancel_task_by, cancel_unsettled, chat_of, leave_settled, mark_cancelled,
  notify_cancelled, or_none, release_id, release_sandbox, settled_task, wind_up, wind_up_saved,
}
use aite.Control.Plane.{
  Act, Env, IngressError, Sent, Shared, World, attempt, bump, has, now, on_db, on_shared, port,
  sandbox_released, send, stored, text_sent,
}
use aite.Control.Sessions.{filled_text, or_text}
use aite.Store.{Db, get_session, get_task, update_task}
use aite.Store.Statements.{StoreError}

abbrev pub Silent : {A : Type 0} → Act A → Type 0
Silent m = (w : World) → ((m w).1.entries ≡ w.entries) × ((m w).1.manifests ≡ w.manifests)

pure-Silent : {A : Type 0} (a : A) → Silent (pure a)
pure-Silent a w = (refl, refl)

module _ {A B : Type 0} where
  after-Silent :
      (w : World) (r : Result IngressError A) (v : World) (f : A → Act B)
      → (v.entries ≡ w.entries) × (v.manifests ≡ w.manifests)
      → ((a : A) → Silent (f a))
      → ((after (r, v) f).1.entries ≡ w.entries) × ((after (r, v) f).1.manifests ≡ w.manifests)
  after-Silent w (ok a) v f h k = ((k a v).0 ∙ h.0, (k a v).1 ∙ h.1)
  after-Silent w (err e) v f h k = h

  bind-Silent : (m : Act A) (f : A → Act B) → Silent m → ((a : A) → Silent (f a)) → Silent (m >>= f)
  bind-Silent m f h k w = after-Silent w (m w).0 (m w).1 f (h w) k

  then-Silent : (m : Act A) (n : Act B) → Silent m → Silent n → Silent (m >> n)
  then-Silent m n h k = bind-Silent m (λ _. n) h (λ _. k)

module _ {A : Type 0} where
  attempt-Silent : (m : Act A) → Silent m → Silent (attempt m)
  unfolding attempt
  attempt-Silent m h w = h w

  stored-Silent :
      (w : World) (r : Result StoreError A) (db : Db)
      → ((stored (r, db) w).1.entries ≡ w.entries) × ((stored (r, db) w).1.manifests ≡ w.manifests)
  stored-Silent w (ok a) db = (refl, refl)
  stored-Silent w (err e) db = (refl, refl)

  on_db-Silent : (m : Exec Db StoreError A) → Silent (on_db m)
  unfolding on_db
  on_db-Silent m w = stored-Silent w (m w.db).0 (m w.db).1

  if-Silent : (b : Bool) (m n : Act A) → Silent m → Silent n → Silent (if b then m else n)
  if-Silent true m n h k = h
  if-Silent false m n h k = k

port-Silent :
    (faults : List Bool) (e : IngressError) (f : World → World) (w : World)
    → ((v : World) → ((f v).entries ≡ v.entries) × ((f v).manifests ≡ v.manifests))
    → ((port faults e f w).1.entries ≡ w.entries) × ((port faults e f w).1.manifests ≡ w.manifests)
port-Silent [] e f w h = h w
port-Silent (true ∷ faults) e f w h = (refl, refl)
port-Silent (false ∷ faults) e f w h = h (record w { faults = faults })

send-Silent : (s : Sent) → Silent (send s)
unfolding send
send-Silent s w =
    port-Silent w.faults IngressError.platform (λ v. record v { outbox = v.outbox ++ s ∷ [] }) w
      (λ v. (refl, refl))

send_quietly : (s : Sent) → Silent (attempt (send s) >> pure tt)
send_quietly s =
    then-Silent (attempt (send s)) (pure tt) (attempt-Silent (send s) (send-Silent s))
      (pure-Silent tt)

on_shared-Silent : (f : Shared → Shared) → Silent (on_shared f)
on_shared-Silent f w = (refl, refl)

bump-Silent : (key : String) → Silent (bump key)
unfolding bump
bump-Silent key w = (refl, refl)

now-Silent : (env : Env) → Silent (now env)
unfolding now
now-Silent env w = (refl, refl)

notify_cancelled-Silent :
    (task : Task) (s : Option Session) (reply_to chat_id : Option String)
    → Silent (notify_cancelled task s reply_to chat_id)
unfolding notify_cancelled
notify_cancelled-Silent task s reply_to chat_id = send_quietly (
    text_sent (or_text chat_id (chat_of s)) (render ("任务 " ∷ task.task_no ∷ " 已停止。" ∷ [])) reply_to)

release_id-Silent : (env : Env) (id : Option String) → Silent (release_id env id)
release_id-Silent env none = pure-Silent tt
release_id-Silent env (some id) =
    if-Silent env.has_sandbox (attempt (send (sandbox_released id)) >> pure tt) (pure tt)
      (send_quietly (sandbox_released id)) (pure-Silent tt)

release_sandbox-Silent : (env : Env) (task : Task) → Silent (release_sandbox env task)
unfolding release_sandbox
release_sandbox-Silent env task = release_id-Silent env (filled_text task.sandbox_id)

-- A call of the store whose failure is only logged, and what comes behind it.
read_quietly :
    {A B : Type 0} (m : Exec Db StoreError A) (f : Result IngressError A → Act B)
    → ((r : Result IngressError A) → Silent (f r))
    → Silent (attempt (on_db m) >>= f)
read_quietly m f h = bind-Silent (attempt (on_db m)) f (attempt-Silent (on_db m) (on_db-Silent m)) h

module _ (reply_to chat_id : Option String) (notify : Bool) where
  told : Task → Result IngressError (Option Session) → Act Task
  unfolding notify_cancelled
  told task s = do notify_cancelled task (or_none s) reply_to chat_id; pure task

  told-Silent : (task : Task) (s : Result IngressError (Option Session)) → Silent (told task s)
  unfolding told
  told-Silent task s =
      then-Silent (notify_cancelled task (or_none s) reply_to chat_id) (pure task)
        (notify_cancelled-Silent task (or_none s) reply_to chat_id) (pure-Silent task)

  leave_settled-Silent : (task : Task) → Silent (leave_settled task reply_to chat_id notify)
  unfolding leave_settled told
  leave_settled-Silent task =
      if-Silent notify (attempt (on_db (get_session task.session_id)) >>= told task) (pure task)
        (read_quietly (get_session task.session_id) (told task) (told-Silent task))
        (pure-Silent task)

  module _ (env : Env) (issuer : Option String) where
    ended : Task → Result IngressError (Option Session) → Act Task
    unfolding notify_cancelled
    ended task s = do
      if notify then notify_cancelled task (or_none s) reply_to chat_id else pure tt
      pure task

    ended-Silent : (task : Task) (s : Result IngressError (Option Session)) → Silent (ended task s)
    unfolding ended
    ended-Silent task s =
        then-Silent (if notify then notify_cancelled task (or_none s) reply_to chat_id else pure tt)
          (pure task)
          (if-Silent notify (notify_cancelled task (or_none s) reply_to chat_id) (pure tt)
            (notify_cancelled-Silent task (or_none s) reply_to chat_id) (pure-Silent tt))
          (pure-Silent task)

    wind_up-Silent : (task : Task) → Silent (wind_up env task true reply_to chat_id notify issuer)
    unfolding wind_up ended
    wind_up-Silent task =
        then-Silent (release_sandbox env task)
          (attempt (on_db (get_session task.session_id)) >>= ended task)
          (release_sandbox-Silent env task)
          (read_quietly (get_session task.session_id) (ended task) (ended-Silent task))

    wind_up_saved-Silent :
        (task : Task) (r : Result {0, 0} IngressError Unit)
        → Silent (wind_up_saved env task true reply_to chat_id notify issuer r)
    wind_up_saved-Silent task (err e) =
        then-Silent (bump "control.cancel_save_failed") (pure task)
          (bump-Silent "control.cancel_save_failed") (pure-Silent task)
    wind_up_saved-Silent task (ok done) = wind_up-Silent task

    saved_at : Task → ℕ → Act Task
    unfolding attempt on_db
    saved_at task time = do
      saved ←
          attempt
            (on_db (update_task (record task { status = TaskStatus.cancelled; updated_at = time })))
      wind_up_saved env (record task { status = TaskStatus.cancelled; updated_at = time }) true
          reply_to chat_id notify issuer saved

    saved_at-Silent : (task : Task) (time : ℕ) → Silent (saved_at task time)
    unfolding saved_at
    saved_at-Silent task time =
        read_quietly
          (update_task (record task { status = TaskStatus.cancelled; updated_at = time }))
          (wind_up_saved env (record task { status = TaskStatus.cancelled; updated_at = time }) true
            reply_to chat_id notify issuer)
          (wind_up_saved-Silent (record task { status = TaskStatus.cancelled; updated_at = time }))

    cancel_unsettled-Silent :
        (task : Task) → Silent (cancel_unsettled env task true reply_to chat_id notify issuer)
    unfolding cancel_unsettled saved_at
    cancel_unsettled-Silent task =
        bind-Silent (now env) (saved_at task) (now-Silent env) (saved_at-Silent task)

    cancel_read-Silent :
        (task : Task) (o : Option Task)
        → Silent (cancel_read env task true reply_to chat_id notify issuer o)
    cancel_read-Silent task none = cancel_unsettled-Silent task
    cancel_read-Silent task (some fresh) = leave_settled-Silent fresh

-- The cancellation of a task that the worker runs writes no evidence and no manifest, whatever is
-- stored and whichever calls fail: its end is left to the worker.
pub cancel_task_by-Silent :
    (env : Env) (task : Task) (reply_to chat_id : Option String) (notify : Bool)
    → (issuer : Option String) (w : World) → has w.shared.running task.id ≡ true
    → ((cancel_task_by env task reply_to chat_id notify issuer w).1.entries ≡ w.entries)
      × ((cancel_task_by env task reply_to chat_id notify issuer w).1.manifests ≡ w.manifests)
unfolding cancel_task_by mark_cancelled
cancel_task_by-Silent env task reply_to chat_id notify issuer w h = rw h (
    read_quietly (get_task task.id)
      (λ r. cancel_read env task true reply_to chat_id notify issuer (settled_task r))
      (λ r. cancel_read-Silent reply_to chat_id notify env issuer task (settled_task r))
      (mark_cancelled task.id w).1)
