-- ===== src/Store/Numbers.antt =====
-- Task numbers: `next_task_no` counts up for each tenant.
-- The counter of a tenant is at least `n`.
use aite.Base.{
  ==_refl, if◌then◌else◌, ℕ, zero, suc, ◌+◌, ◌≤◌, ◌<◌, String, ◌≡◌, Bool, true, false, Option, none,
  some, List, [], ◌∷◌, arith, ◌==◌, eq_iff,
}
use aite.Base.Exec.{ok}
use aite.Contracts.TaskNo.{encode_task_no}
use aite.Contracts.TaskNo.Codec.{count_of, encode_task_no-StandsFor}
use aite.Store.{Db, next_task_no, on_conn, on_opened, with_conn}
use aite.Store.Calls.{
  Call, OfTables, appends_turn, closes, creates_session, creates_task, indexes, numbers_task,
  prunes, recovers, run, run-keeps, sees, statement, updates_session, updates_task,
}
use aite.Store.Statements.{
  Tables, bump_in, count_in, delete_seen, fail_orphans, insert_index, insert_seen, insert_session,
  insert_task, insert_turn, task_no_of, upsert_counter, write_session, write_task,
}

abbrev pub AtLeast : String → ℕ → Tables → Type 0
AtLeast tenant_id n t = n ≤ count_in tenant_id t.task_counters

count_in-bump_in :
    (i j : String) (counters : List (String × ℕ))
    → count_in j (bump_in i counters)
      ≡ (if i == j then count_in j counters + 1 else count_in j counters)
unfolding bump_in
count_in-bump_in i j [] = ground arith
count_in-bump_in i j ((k, n) ∷ counters) =
    ground (arith, count_in-bump_in i j counters, eq_iff k i, eq_iff k j, eq_iff i j)

statement-AtLeast :
    (i : String) (n : ℕ) (c : Call) (t : Tables) → AtLeast i n t → AtLeast i n (statement c t)
unfolding insert_session write_session insert_turn insert_task write_task upsert_counter insert_seen
    fail_orphans delete_seen insert_index
statement-AtLeast i n (creates_session s) t h = ground arith
statement-AtLeast i n (updates_session s) t h = h
statement-AtLeast i n (appends_turn u) t h = ground arith
statement-AtLeast i n (creates_task x) t h = ground arith
statement-AtLeast i n (updates_task x) t h = h
statement-AtLeast i n (numbers_task j) t h = ground (arith, count_in-bump_in j i t.task_counters)
statement-AtLeast i n (sees e now) t h = ground arith
statement-AtLeast i n (recovers now) t h = h
statement-AtLeast i n (prunes cutoff) t h = h
statement-AtLeast i n (indexes m) t h = ground arith
statement-AtLeast i n closes t h = h

task_no_of-count : (n : ℕ) (s : String) → task_no_of (encode_task_no n) ≡ ok s → count_of s ≡ n
task_no_of-count zero s h = cc (encode_task_no-StandsFor zero)
task_no_of-count (suc n) s h = let (r, e, c) = encode_task_no-StandsFor (suc n) in ground (arith)

module _ (i : String) where
  upsert-count :
      (t : Tables) (s : String)
      → (upsert_counter i t).0 ≡ ok s
      → (count_of s ≡ count_in i t.task_counters + 1)
        × (count_in i (upsert_counter i t).1.task_counters ≡ count_of s)
  unfolding upsert_counter
  upsert-count t s h = ground (
    arith,
    task_no_of-count (count_in i (bump_in i t.task_counters)) s h,
    count_in-bump_in i i t.task_counters,
    ==_refl i,
  )

  on_conn-count :
      (faults : List Bool) (t : Tables) (s : String) (n : ℕ)
      → (on_conn (upsert_counter i) faults t).0 ≡ ok s
      → AtLeast i n t
      → (n < count_of s)
        × OfTables (AtLeast i (count_of s)) (on_conn (upsert_counter i) faults t).1.conn
  on_conn-count [] t s n h p = omega (arith, upsert-count t s h)
  on_conn-count (true ∷ faults) t s n h p = cc
  on_conn-count (false ∷ faults) t s n h p = omega (arith, upsert-count t s h)

  on_opened-count :
      (faults : List Bool) (o : Option Tables) (s : String) (n : ℕ)
      → (on_opened (upsert_counter i) faults o).0 ≡ ok s
      → OfTables (AtLeast i n) o
      → (n < count_of s)
        × OfTables (AtLeast i (count_of s)) (on_opened (upsert_counter i) faults o).1.conn
  on_opened-count faults none s n h p = cc
  on_opened-count faults (some t) s n h p = on_conn-count faults t s n h p

  next_task_no-count :
      (db : Db) (s : String) (n : ℕ)
      → (next_task_no i db).0 ≡ ok s
      → OfTables (AtLeast i n) db.conn
      → (n < count_of s) × OfTables (AtLeast i (count_of s)) (next_task_no i db).1.conn
  unfolding with_conn
  next_task_no-count db s n h p = on_opened-count db.faults db.conn s n h p

  AtLeast-zero : (o : Option Tables) → OfTables (AtLeast i 0) o
  AtLeast-zero none = tt
  AtLeast-zero (some t) = omega arith

-- If `next_task_no` of a tenant succeeds with the task number `s`, and again with `r` after any
-- calls in between, failing or not and of any tenant, then the count that `r` stands for is above
-- that of `s`: no tenant is given a task number twice.
pub next_task_no-increases :
    (i : String) (db : Db) (calls : List Call) (s r : String)
    → (next_task_no i db).0 ≡ ok s
    → (next_task_no i (run calls (next_task_no i db).1)).0 ≡ ok r
    → count_of s < count_of r
next_task_no-increases i db calls s r h k =
    (next_task_no-count i (run calls (next_task_no i db).1) r (count_of s) k (
      run-keeps (AtLeast i (count_of s)) (statement-AtLeast i (count_of s)) calls
        (next_task_no i db).1 (next_task_no-count i db s 0 h (AtLeast-zero i db.conn)).1)).0
