-- ===== src/Store/Seen.antt =====
-- Event ids that were recorded stay recorded until they are pruned.
use aite.Base.{
  ==_refl, all, any-append, later, ℕ, String, ◌≡◌, ◌≢◌, Bool, true, false, Option, none, some, List,
  [], ◌∷◌, arith, ◌==◌,
}
use aite.Base.Exec.{Result, ok}
use aite.Store.{Db, on_opened, seen_event, with_conn}
use aite.Store.Calls.{
  Call, OfTables, appends_turn, creates_session, creates_task, indexes, prunes, run,
  run-keeps_where, sees, statement,
}
use aite.Store.Statements.{
  StoreError, Tables, delete_seen, fail_orphans, insert_index, insert_seen, insert_session,
  insert_task, insert_turn, is_seen, upsert_counter, write_session, write_task,
}

abbrev pub Recorded : String → Tables → Type 0
Recorded i t = is_seen i t.seen_events ≡ true

abbrev pub keeps_ids : Call → Bool
keeps_ids (prunes cutoff) = false
keeps_ids _ = true

statement-Recorded :
    (i : String) (c : Call) (t : Tables)
    → keeps_ids c ≡ true
    → Recorded i t
    → Recorded i (statement c t)
unfolding insert_session write_session insert_turn insert_task write_task upsert_counter insert_seen
    fail_orphans delete_seen insert_index
statement-Recorded i (prunes cutoff) t h r = cc
statement-Recorded i (sees e now) t h r =
    ground (arith, any-append (λ x. x.0 == i) t.seen_events ((e, now) ∷ []))
statement-Recorded i (creates_session s) t h r = ground arith
statement-Recorded i (appends_turn u) t h r = ground arith
statement-Recorded i (creates_task x) t h r = ground arith
statement-Recorded i (indexes m) t h r = ground arith
statement-Recorded i _ t h r = r

abbrev pub NotNew : Result StoreError Bool → Type 0
NotNew r = r ≢ ok false

module _ (i : String) (now : ℕ) where
  insert_seen-Recorded : (t : Tables) → Recorded i (insert_seen i now t).1
  unfolding insert_seen
  insert_seen-Recorded t =
      ground (arith, any-append (λ x. x.0 == i) t.seen_events ((i, now) ∷ []), ==_refl i)

  insert_seen-NotNew : (t : Tables) → Recorded i t → NotNew (insert_seen i now t).0
  unfolding insert_seen
  insert_seen-NotNew t r e = ground arith

  on_opened-Recorded :
      (faults : List Bool) (o : Option Tables) (b : Bool)
      → (on_opened (insert_seen i now) faults o).0 ≡ ok b
      → OfTables (Recorded i) (on_opened (insert_seen i now) faults o).1.conn
  on_opened-Recorded faults none b h = tt
  on_opened-Recorded [] (some t) b h = insert_seen-Recorded t
  on_opened-Recorded (true ∷ faults) (some t) b h = cc
  on_opened-Recorded (false ∷ faults) (some t) b h = insert_seen-Recorded t

  on_opened-NotNew :
      (faults : List Bool) (o : Option Tables)
      → OfTables (Recorded i) o
      → NotNew (on_opened (insert_seen i now) faults o).0
  on_opened-NotNew faults none r e = cc
  on_opened-NotNew [] (some t) r e = insert_seen-NotNew t r e
  on_opened-NotNew (true ∷ faults) (some t) r e = cc
  on_opened-NotNew (false ∷ faults) (some t) r e = insert_seen-NotNew t r e

  pub seen_event-Recorded :
      (db : Db) (b : Bool)
      → (seen_event i now db).0 ≡ ok b
      → OfTables (Recorded i) (seen_event i now db).1.conn
  unfolding with_conn
  seen_event-Recorded db b h = on_opened-Recorded db.faults db.conn b h

  pub seen_event-NotNew : (db : Db) → OfTables (Recorded i) db.conn → NotNew (seen_event i now db).0
  unfolding with_conn
  seen_event-NotNew db r = on_opened-NotNew db.faults db.conn r

-- Once `seen_event` has answered for an event id, no later `seen_event` of that id answers that
-- it is new, whatever calls other than a prune come in between, failing or not.
pub seen_event_once :
    (i : String) (now later : ℕ) (db : Db) (calls : List Call) (b : Bool)
    → (seen_event i now db).0 ≡ ok b
    → all keeps_ids calls ≡ true
    → (seen_event i later (run calls (seen_event i now db).1)).0 ≢ ok false
seen_event_once i now later db calls b h k =
    seen_event-NotNew i later (run calls (seen_event i now db).1) (
      run-keeps_where (Recorded i) keeps_ids (statement-Recorded i) calls (seen_event i now db).1 k
        (seen_event-Recorded i now db b h))
