-- ===== src/Store/Keys.antt =====
-- The primary keys of sessions, turns, tasks and the message index.
-- No two entries that `same` holds of.
use aite.Base.{
  Bool-cases, eqb, if◌then◌else◌, any-append, any, ℕ, ◌≡◌, refl, ◌∙◌, inl, inr, Bool, false, ◌&&◌,
  List, [], ◌∷◌, ◌++◌, map, arith, ◌==◌, eq_iff,
}
use aite.Contracts.Session.{Session, Task, Turn}
use aite.Store.{Db}
use aite.Store.Calls.{
  Call, OfTables, appends_turn, closes, creates_session, creates_task, indexes, numbers_task,
  prunes, recovers, run, run-keeps, sees, statement, updates_session, updates_task,
}
use aite.Store.Statements.{
  IndexedMessage, SessionRow, Tables, TaskRow, delete_seen, fail_orphans, failed_orphan,
  insert_index, insert_seen, insert_session, insert_task, insert_turn, is_turn, orphan_row,
  put_session, put_task, same_message, upsert_counter, write_session, write_task,
}

abbrev pub Distinct {ℓ} : {A : Type ℓ} → (A → A → Bool) → List A → Type 0
Distinct same [] = Unit
Distinct same (x ∷ xs) = (any (same x) xs ≡ false) × Distinct same xs

module _ {A : Type 0} (same : A → A → Bool) where
  any-none :
      (y : A) (xs : List A)
      → ((a b : A) → same a b ≡ same b a)
      → any (λ a. same a y) xs ≡ any (same y) xs
  any-none y [] flip = refl
  any-none y (x ∷ xs) flip = ground (arith, flip x y, any-none y xs flip)

  pub Distinct-add :
      (xs : List A) (y : A)
      → any (λ a. same a y) xs ≡ false
      → Distinct same xs
      → Distinct same (xs ++ y ∷ [])
  Distinct-add [] y new d = (refl, tt)
  Distinct-add (x ∷ xs) y new (first, d) =
      (ground (arith, any-append (same x) xs (y ∷ [])), Distinct-add xs y (ground arith) d)

  any-map :
      (f : A → A) (x : A) (xs : List A)
      → ((a b : A) → same (f a) (f b) ≡ same a b)
      → any (same (f x)) (map f xs) ≡ any (same x) xs
  any-map f x [] keys = refl
  any-map f x (y ∷ ys) keys = ground (arith, keys x y, any-map f x ys keys)

  Distinct-map :
      (f : A → A) (xs : List A)
      → ((a b : A) → same (f a) (f b) ≡ same a b)
      → Distinct same xs
      → Distinct same (map f xs)
  Distinct-map f [] keys d = tt
  Distinct-map f (x ∷ xs) keys (first, d) = (any-map f x xs keys ∙ first, Distinct-map f xs keys d)

abbrev pub same_session : SessionRow → SessionRow → Bool
same_session r s = r.session.id == s.session.id

abbrev pub same_task : TaskRow → TaskRow → Bool
same_task r s = r.task.id == s.task.id

abbrev pub same_turn : Turn → Turn → Bool
same_turn u v = (u.session_id == v.session_id) && eqb u.seq v.seq

abbrev pub same_place : IndexedMessage → IndexedMessage → Bool
same_place m n = (m.chat_id == n.chat_id) && (m.message_id == n.message_id)

pub record IsKeyed (t : Tables) : Type 0 where
  pub sessions : Distinct same_session t.sessions
  pub turns : Distinct same_turn t.turns
  pub tasks : Distinct same_task t.tasks
  pub message_index : Distinct same_place t.message_index

put_session-id : (s : Session) (r : SessionRow) → (put_session s r).session.id ≡ r.session.id
put_session-id s r = ground (arith, eq_iff r.session.id s.id)

put_task-id : (k : Task) (r : TaskRow) → (put_task k r).task.id ≡ r.task.id
put_task-id k r = ground (arith, eq_iff r.task.id k.id)

abbrev failed_row : ℕ → TaskRow → TaskRow
failed_row now r = if orphan_row r then record r { task = failed_orphan now r.task } else r

failed_row-id : (now : ℕ) (r : TaskRow) → (failed_row now r).task.id ≡ r.task.id
failed_row-id now r = ground arith

statement-IsKeyed : (c : Call) (t : Tables) → IsKeyed t → IsKeyed (statement c t)
unfolding insert_session write_session insert_turn insert_task write_task upsert_counter insert_seen
    fail_orphans delete_seen insert_index
statement-IsKeyed (creates_session s) t k =
    elim (Bool-cases (any (λ r. r.session.id == s.id) t.sessions)) [
      | inl e ↦ rw (e, statement, insert_session) k
      | inr e ↦
          rw (e, statement, insert_session)
            (record {
              sessions =
                  Distinct-add same_session t.sessions
                    (record { session = s; created_at = s.created_at }) e k.sessions;
              turns = k.turns;
              tasks = k.tasks;
              message_index = k.message_index;
            })
    ]
statement-IsKeyed (updates_session s) t k = record {
  sessions =
      Distinct-map same_session (put_session s) t.sessions
        (λ a b. cc (put_session-id s a, put_session-id s b)) k.sessions;
  turns = k.turns;
  tasks = k.tasks;
  message_index = k.message_index;
}
statement-IsKeyed (appends_turn u) t k =
    elim (Bool-cases (any (is_turn u.session_id u.seq) t.turns)) [
      | inl e ↦ rw (e, statement, insert_turn) k
      | inr e ↦
          rw (e, statement, insert_turn)
            (record {
              sessions = k.sessions;
              turns = Distinct-add same_turn t.turns u e k.turns;
              tasks = k.tasks;
              message_index = k.message_index;
            })
    ]
statement-IsKeyed (creates_task x) t k = elim (Bool-cases (any (λ r. r.task.id == x.id) t.tasks)) [
  | inl e ↦ rw (e, statement, insert_task) k
  | inr e ↦
      rw (e, statement, insert_task)
        (record {
          sessions = k.sessions;
          turns = k.turns;
          tasks =
              Distinct-add same_task t.tasks (record { task = x; created_at = x.created_at }) e
                k.tasks;
          message_index = k.message_index;
        })
]
statement-IsKeyed (updates_task x) t k = record {
  sessions = k.sessions;
  turns = k.turns;
  tasks =
      Distinct-map same_task (put_task x) t.tasks (λ a b. cc (put_task-id x a, put_task-id x b))
        k.tasks;
  message_index = k.message_index;
}
statement-IsKeyed (numbers_task i) t k = record {
  sessions = k.sessions;
  turns = k.turns;
  tasks = k.tasks;
  message_index = k.message_index;
}
statement-IsKeyed (sees i now) t k = ground arith
statement-IsKeyed (recovers now) t k = record {
  sessions = k.sessions;
  turns = k.turns;
  tasks =
      Distinct-map same_task (failed_row now) t.tasks
        (λ a b. cc (failed_row-id now a, failed_row-id now b)) k.tasks;
  message_index = k.message_index;
}
statement-IsKeyed (prunes cutoff) t k = record {
  sessions = k.sessions;
  turns = k.turns;
  tasks = k.tasks;
  message_index = k.message_index;
}
statement-IsKeyed (indexes m) t k =
    elim (Bool-cases (any (same_message m.chat_id m.message_id) t.message_index)) [
      | inl e ↦ rw (e, statement, insert_index) k
      | inr e ↦
          rw (e, statement, insert_index)
            (record {
              sessions = k.sessions;
              turns = k.turns;
              tasks = k.tasks;
              message_index = Distinct-add same_place t.message_index m e k.message_index;
            })
    ]
statement-IsKeyed closes t k = k

abbrev pub IsKeyedDb : Db → Type 0
IsKeyedDb db = OfTables IsKeyed db.conn

-- From a database whose rows have distinct keys (session id; session and number of a turn; task
-- id; chat and message of the index), any sequence of calls, failing or not, leaves one whose rows
-- have distinct keys, if it is still open.
pub run-IsKeyed : (calls : List Call) (db : Db) → IsKeyedDb db → IsKeyedDb (run calls db)
run-IsKeyed = run-keeps IsKeyed statement-IsKeyed
