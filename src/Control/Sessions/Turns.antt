-- ===== src/Control/Sessions/Turns.antt =====
-- The writing of turns of core/crates/control/src/sessions.rs. What other writers of turns (the
-- worker) do between two calls of the store is a parameter of `write_turn_locked`: `rivals` holds,
-- for each attempt, the turns that were added between its reading the last turn and its writing.
-- `turn_seq_lock` keeps the control plane's own writers out.
use aite.Base.{
  if◌then◌else◌, get_last?, ℕ, zero, suc, ◌+◌, ◌-◌, String, Bool, true, false, Option, none, some,
  List, [], ◌∷◌, ◌++◌,
}
use aite.Base.Exec.{Result, err, ok, ◌>>=◌}
use aite.Contracts.Events.{Attachment, NormalizedEvent}
use aite.Contracts.Session.{Session, Turn, TurnRole}
use aite.Control.Plane.{Act, IngressError, World, on_db}
use aite.Store.{append_turn, list_turns}
use aite.Store.Statements.{Tables, duplicate_turn}

abbrev pub append_turn_attempts : ℕ
append_turn_attempts = 3

pub record TurnDraft : Type 0 where
  pub role : TurnRole
  pub platform_user_id : Option String
  pub content : String
  pub attachments : List Attachment
  pub created_at : ℕ

abbrev pub turn_of : String → ℕ → TurnDraft → Turn
turn_of session_id seq d = record {
  session_id = session_id;
  seq = seq;
  role = d.role;
  platform_user_id = d.platform_user_id;
  content = d.content;
  attachments = d.attachments;
  created_at = d.created_at;
}

abbrev pub seq_from : Option Turn → ℕ
seq_from none = 0
seq_from (some t) = t.seq + 1

abbrev pub add_turns : List Turn → Option Tables → Option Tables
add_turns turns none = none
add_turns turns (some t) = some (record t { turns = t.turns ++ turns })

-- What another writer added.
abbrev pub interfere : List Turn → World → World
interfere turns w = record w { db = record w.db { conn = add_turns turns w.db.conn } }

abbrev pub first_of : List (List Turn) → List Turn
first_of [] = []
first_of (turns ∷ rivals) = turns

abbrev pub rest_of : List (List Turn) → List (List Turn)
rest_of [] = []
rest_of (turns ∷ rivals) = rivals

abbrev pub is_duplicate : IngressError → Bool
is_duplicate (IngressError.store (duplicate_turn s n)) = true
is_duplicate _ = false

-- One attempt: read the last turn, then write the next.
unfoldable pub write_attempt : String → TurnDraft → List Turn → Act Unit
unfolding on_db
write_attempt session_id d rival = do
  recent ← on_db (list_turns session_id 1)
  λ w. on_db (append_turn (turn_of session_id (seq_from (get_last? recent)) d)) (interfere rival w)

-- A number that was taken is tried again; any other error is handed on.
abbrev pub retry :
    Result {0, 0} IngressError Unit × World → Act Unit → Result {0, 0} IngressError Unit × World
retry (ok done, w) again = (ok done, w)
retry (err e, w) again = if is_duplicate e then again w else (err e, w)

-- The loop: `left` is how many attempts there may be after this one.
unfoldable pub write_turn_loop : ℕ → String → TurnDraft → List (List Turn) → Act Unit
unfolding write_attempt
write_turn_loop zero session_id d rivals w = write_attempt session_id d (first_of rivals) w
write_turn_loop (suc left) session_id d rivals w =
    retry (write_attempt session_id d (first_of rivals) w)
      (write_turn_loop left session_id d (rest_of rivals))

unfoldable pub write_turn_locked : String → TurnDraft → List (List Turn) → Act Unit
unfolding write_turn_loop
write_turn_locked = write_turn_loop (append_turn_attempts - 1)

-- `append_turn`: the draft of an event.
abbrev pub draft_of : NormalizedEvent → TurnRole → String → TurnDraft
draft_of ev role content = record {
  role = role;
  platform_user_id = some ev.sender_id;
  content = content;
  attachments = ev.attachments;
  created_at = ev.occurred_at;
}

unfoldable pub append_event_turn : Session → NormalizedEvent → TurnRole → String → Act Unit
unfolding write_turn_locked
append_event_turn session ev role content =
    write_turn_locked session.id (draft_of ev role content) []
