-- ===== src/Tests/OfStore.antt =====
-- Runs of the store's theorems, and of that on task numbers.
use aite.Base.{◌<◌, ◌≡◌, refl, ◌≢◌, false, some, List, [], ◌∷◌, ◌++◌}
use aite.Base.Exec.{ok}
use aite.Contracts.TaskNo.{encode_task_no}
use aite.Contracts.TaskNo.Codec.{StandsFor, count_of, encode_task_no-StandsFor}
use aite.Store.{
  find_session_by_thread, list_active_tasks, recover_orphan_tasks, seen_event, with_conn,
}
use aite.Store.Calls.{
  Call, OfTables, appends_turn, call, creates_session, numbers_task, recovers, run,
}
use aite.Store.Keys.{IsKeyed, run-IsKeyed}
use aite.Store.Numbers.{next_task_no-increases}
use aite.Store.Orphans.{Recovers, recover_orphan_tasks-Recovers}
use aite.Store.Seen.{seen_event_once}
use aite.Store.Statements.{
  fail_orphans, insert_seen, insert_session, insert_turn, next_seq, of_session, select_turns,
  upsert_counter,
}
use aite.Store.Threads.{
  FindsLastIn, ListsActive, find_session_by_thread-FindsLast, list_active_tasks-ListsActive,
}
use aite.Store.Turns.{append_turn_next, last_of, seq_after, seq_after-select_turns}
use aite.Tests.Data.{db, session, tables, turn}

encode_task_no-StandsFor_example : StandsFor 1000 (encode_task_no 1000)
encode_task_no-StandsFor_example = encode_task_no-StandsFor 1000

abbrev calls : List Call
calls = recovers 9 ∷ numbers_task "tenant" ∷ appends_turn (turn 2) ∷ creates_session session ∷ []

run-IsKeyed_example : OfTables IsKeyed (run calls db).conn
run-IsKeyed_example = run-IsKeyed calls db (record {
  sessions = (refl, tt);
  turns = (refl, (refl, tt));
  tasks = (refl, (refl, tt));
  message_index = tt;
})

next_task_no-increases_example : count_of "#A3" < count_of "#A5"
unfolding run call with_conn upsert_counter encode_task_no insert_turn insert_session fail_orphans
next_task_no-increases_example = next_task_no-increases "tenant" db calls "#A3" "#A5" refl refl

seen_event_once_example : (seen_event "e2" 9 (run calls (seen_event "e2" 5 db).1)).0 ≢ ok false
unfolding with_conn insert_seen
seen_event_once_example = seen_event_once "e2" 5 9 db calls false refl refl

recover_orphan_tasks-Recovers_example : Recovers 9 (some tables) (recover_orphan_tasks 9 db)
recover_orphan_tasks-Recovers_example = recover_orphan_tasks-Recovers 9 db

find_session_by_thread-FindsLast_example :
    FindsLastIn "chat" "m1" (some tables) (find_session_by_thread "chat" "m1" db).0
find_session_by_thread-FindsLast_example = find_session_by_thread-FindsLast "chat" "m1" db

list_active_tasks-ListsActive_example :
    ListsActive "chat" (some tables) (list_active_tasks "chat" db).0
list_active_tasks-ListsActive_example = list_active_tasks-ListsActive "chat" db

append_turn_next_example :
    (insert_turn (turn 2) tables ≡ (ok tt, record tables { turns = tables.turns ++ turn 2 ∷ [] }))
    × (last_of (select_turns "s1" 3 (insert_turn (turn 2) tables).1).0 ≡ some (turn 2))
    × (next_seq (of_session "s1" (insert_turn (turn 2) tables).1.turns) ≡ 3)
unfolding next_seq
append_turn_next_example = append_turn_next tables (turn 2) 2 refl

seq_after-select_turns_example :
    seq_after (last_of (select_turns "s1" 1 tables).0) ≡ next_seq (of_session "s1" tables.turns)
seq_after-select_turns_example = seq_after-select_turns "s1" 0 tables
