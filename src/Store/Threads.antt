-- ===== src/Store/Threads.antt =====
-- `find_session_by_thread` and `list_active_tasks`.
use aite.Base.{
  keep, All, latest, sort_by, IsLatest, latest-IsLatest, IsSorted, sort_by-IsSorted, Holds, key_leb,
  sort_by-Perm, Picked, keep-Picked, Decides, latest-Mem, eq-Decides, and-Decides, Some,
  any-Decides, String, ◌≡◌, refl, ap, ◌≢◌, inl, inr, Bool, true, false, ◌&&◌, Option, none, some,
  List, [], ◌∷◌, map, Mem, Perm, arith, ◌==◌,
}
use aite.Base.Exec.{Result, err, ok}
use aite.Contracts.Phases.{IsActive, is_active-Decides}
use aite.Contracts.Session.{Session, SessionStatus, Task}
use aite.Store.{Db, find_session_by_thread, list_active_tasks, on_opened, with_conn}
use aite.Store.Statements.{
  SessionRow, StoreError, Tables, TaskRow, active_in, in_thread, not_archived, same_text,
  select_active, select_thread, session_key, session_of, task_key,
}

abbrev pub InThread : String → String → SessionRow → Type 0
InThread chat_id thread_id r =
    (r.session.chat_id ≡ chat_id)
    × ((r.session.anchor.thread_id ≡ some thread_id) × (r.session.status ≢ SessionStatus.archived))

same_text-Decides : (o : Option String) (s : String) → Decides (same_text o s) (o ≡ some s)
same_text-Decides none s = inr (refl, λ h. ground arith)
same_text-Decides (some r) s = elim (eq-Decides r s) [
  | inl (e, h) ↦ inl (e, ap some h)
  | inr (e, n) ↦ inr (e, λ h. n (cc))
]

not_archived-Decides : (s : SessionStatus) → Decides (not_archived s) (s ≢ SessionStatus.archived)
not_archived-Decides SessionStatus.archived = inr (refl, λ h. h refl)
not_archived-Decides SessionStatus.active = inl (refl, λ h. ground arith)
not_archived-Decides SessionStatus.idle = inl (refl, λ h. ground arith)

in_thread-Decides :
    (chat_id thread_id : String) (r : SessionRow)
    → Decides (in_thread chat_id thread_id r) (InThread chat_id thread_id r)
in_thread-Decides chat_id thread_id r = and-Decides _ _ _ _ (eq-Decides r.session.chat_id chat_id) (
    and-Decides _ _ _ _ (same_text-Decides r.session.anchor.thread_id thread_id)
      (not_archived-Decides r.session.status))

-- None of some rows, or one of them that none of them was created after; of those that were
-- created with it, none has a later id.
abbrev pub IsLastOf : List SessionRow → Option Session → Type 0
IsLastOf rows none = rows ≡ []
IsLastOf rows (some s) =
    (r : SessionRow) × (r.session ≡ s)
    × Mem r rows
    × All (λ q. key_leb (q.created_at, q.session.id) (r.created_at, r.session.id) ≡ true) rows

latest-IsLastOf :
    (rows : List SessionRow) (o : Option SessionRow)
    → IsLatest session_key rows o
    → Holds session_key (λ r. Mem r rows) o
    → IsLastOf rows (session_of o)
latest-IsLastOf rows none l m = l
latest-IsLastOf rows (some r) l m = (r, refl, m, l)

abbrev pub FindsLastIn :
    String → String → Option Tables → Result StoreError (Option Session) → Type 0
FindsLastIn chat_id thread_id o (err e) = Unit
FindsLastIn chat_id thread_id none (ok s) = ⊥
FindsLastIn chat_id thread_id (some t) (ok s) =
    (rows : List SessionRow) × Picked (InThread chat_id thread_id) t.sessions rows × IsLastOf rows s

module _ (chat_id thread_id : String) where
  select_thread-FindsLast :
      (t : Tables) → FindsLastIn chat_id thread_id (some t) (select_thread chat_id thread_id t).0
  unfolding select_thread
  select_thread-FindsLast t =
      let rows = keep (in_thread chat_id thread_id) t.sessions in
      (
        rows,
        keep-Picked (in_thread chat_id thread_id) (InThread chat_id thread_id)
            (in_thread-Decides chat_id thread_id) t.sessions,
        latest-IsLastOf rows (latest session_key rows) (latest-IsLatest session_key rows)
            (latest-Mem session_key rows),
      )

  on_opened-FindsLast :
      (faults : List Bool) (o : Option Tables)
      → FindsLastIn chat_id thread_id o (on_opened (select_thread chat_id thread_id) faults o).0
  on_opened-FindsLast faults none = tt
  on_opened-FindsLast [] (some t) = select_thread-FindsLast t
  on_opened-FindsLast (true ∷ faults) (some t) = tt
  on_opened-FindsLast (false ∷ faults) (some t) = select_thread-FindsLast t

-- When `find_session_by_thread` succeeds, it answers nothing only if no stored session has that
-- chat, that thread and a status other than archived; otherwise it answers one of the stored
-- sessions that have, and none of them comes after it in the order of creation time and id.
pub find_session_by_thread-FindsLast :
    (chat_id thread_id : String) (db : Db)
    → FindsLastIn chat_id thread_id db.conn (find_session_by_thread chat_id thread_id db).0
unfolding with_conn
find_session_by_thread-FindsLast chat_id thread_id db =
    on_opened-FindsLast chat_id thread_id db.faults db.conn

-- The task is active, and a stored session of the chat is its session.
abbrev pub ActiveIn : List SessionRow → String → TaskRow → Type 0
ActiveIn sessions chat_id r =
    IsActive r.task.status
    × Some (λ s. (s.session.id ≡ r.task.session_id) × (s.session.chat_id ≡ chat_id)) sessions

active_in-Decides :
    (t : Tables) (chat_id : String) (r : TaskRow)
    → Decides (active_in t chat_id r) (ActiveIn t.sessions chat_id r)
active_in-Decides t chat_id r = and-Decides _ _ _ _ (is_active-Decides r.task.status) (
    any-Decides (λ s. (s.session.id == r.task.session_id) && (s.session.chat_id == chat_id))
      (λ s. (s.session.id ≡ r.task.session_id) × (s.session.chat_id ≡ chat_id))
      (λ s.
        and-Decides _ _ _ _ (eq-Decides s.session.id r.task.session_id)
          (eq-Decides s.session.chat_id chat_id))
      t.sessions)

-- The answer of `list_active_tasks`: the tasks of some rows, which are the active ones of the chat,
-- rearranged into the order of creation time and id.
abbrev pub ListsActive : String → Option Tables → Result StoreError (List Task) → Type 0
ListsActive chat_id o (err e) = Unit
ListsActive chat_id none (ok ks) = ⊥
ListsActive chat_id (some t) (ok ks) =
    (rows : List TaskRow) × (ks ≡ map (λ r. r.task) rows)
    × IsSorted (λ r. (r.created_at, r.task.id)) rows
    × (picked : List TaskRow) × Picked (ActiveIn t.sessions chat_id) t.tasks picked
    × Perm rows picked

module _ (chat_id : String) where
  select_active-ListsActive :
      (t : Tables) → ListsActive chat_id (some t) (select_active chat_id t).0
  unfolding select_active
  select_active-ListsActive t =
      let picked = keep (active_in t chat_id) t.tasks in
      (
        sort_by task_key picked,
        refl,
        sort_by-IsSorted task_key picked,
        picked,
        keep-Picked (active_in t chat_id) (ActiveIn t.sessions chat_id)
            (active_in-Decides t chat_id) t.tasks,
        sort_by-Perm task_key picked,
      )

  on_opened-ListsActive :
      (faults : List Bool) (o : Option Tables)
      → ListsActive chat_id o (on_opened (select_active chat_id) faults o).0
  on_opened-ListsActive faults none = tt
  on_opened-ListsActive [] (some t) = select_active-ListsActive t
  on_opened-ListsActive (true ∷ faults) (some t) = tt
  on_opened-ListsActive (false ∷ faults) (some t) = select_active-ListsActive t

-- When `list_active_tasks` succeeds, its answer is ordered by creation time and id, and it holds
-- each stored task, as often as it is stored, that is created, planning or working and whose
-- session is stored with that chat; and no other task.
pub list_active_tasks-ListsActive :
    (chat_id : String) (db : Db) → ListsActive chat_id db.conn (list_active_tasks chat_id db).0
unfolding with_conn
list_active_tasks-ListsActive chat_id db = on_opened-ListsActive chat_id db.faults db.conn
