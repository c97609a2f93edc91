-- ===== src/Control/Duplicates.antt =====
-- Events that the platform pushes again.
-- What no duplicate may touch: all but the counters of events and the faults that were used up.
use aite.Base.{
  Bool-cases, if◌then◌else◌, ℕ, String, ◌≡◌, refl, ap, inl, inr, Bool, true, false, Option, none,
  some, List, [], ◌∷◌,
}
use aite.Base.Exec.{Result, after, err, ok}
use aite.Contracts.Events.{NormalizedEvent}
use aite.Control.Plane.{Act, Env, IngressError, World, bump, now, on_db, stored}
use aite.Control.Routing.{count_dropped, handle_event, is_human, route, route_new}
use aite.Control.Sessions.{HistoryMessage}
use aite.Store.{Db, on_opened, seen_event, with_conn}
use aite.Store.Calls.{OfTables}
use aite.Store.Seen.{NotNew, Recorded, seen_event-NotNew}
use aite.Store.Statements.{StoreError, Tables, insert_seen}

abbrev pub Untouched : World → World → Type 0
Untouched w v =
    (v.db.conn ≡ w.db.conn)
    × (v.entries ≡ w.entries)
    × (v.manifests ≡ w.manifests)
    × (v.outbox ≡ w.outbox)
    × (v.draws ≡ w.draws)
    × (v.shared.queue ≡ w.shared.queue)
    × (v.shared.steer ≡ w.shared.steer)
    × (v.shared.cancelled ≡ w.shared.cancelled)
    × (v.shared.running ≡ w.shared.running)
    × (v.shared.owned ≡ w.shared.owned)

bump-Untouched : (key : String) (w v : World) → Untouched w v → Untouched w (bump key v).1
unfolding bump
bump-Untouched key w v h = h

insert_seen-same : (i : String) (now : ℕ) (t : Tables) → Recorded i t → (insert_seen i now t).1 ≡ t
unfolding insert_seen
insert_seen-same i now t h = rw h refl

on_opened-same :
    (i : String) (now : ℕ) (faults : List Bool) (o : Option Tables)
    → OfTables (Recorded i) o
    → (on_opened (insert_seen i now) faults o).1.conn ≡ o
on_opened-same i now faults none h = refl
on_opened-same i now [] (some t) h = ap some (insert_seen-same i now t h)
on_opened-same i now (true ∷ faults) (some t) h = refl
on_opened-same i now (false ∷ faults) (some t) h = ap some (insert_seen-same i now t h)

seen_event-same :
    (i : String) (now : ℕ) (db : Db)
    → OfTables (Recorded i) db.conn
    → (seen_event i now db).1.conn ≡ db.conn
unfolding with_conn
seen_event-same i now db h = on_opened-same i now db.faults db.conn h

unmoved : (w : World) → Untouched w w
unmoved w = (refl, refl, refl, refl, refl, refl, refl, refl, refl, refl)

-- Behind the answer of `seen_event`.
after_seen :
    (w : World) (rest : Act Unit) (r : Result StoreError Bool) (db : Db)
    → NotNew r
    → db.conn ≡ w.db.conn
    → Untouched w
        (after (stored (r, db) w) (λ seen. if seen then bump "events.duplicate" else rest)).1
unfolding bump
after_seen w rest (ok true) db h e = (e, refl, refl, refl, refl, refl, refl, refl, refl, refl)
after_seen w rest (ok false) db h e = absurd (h refl)
after_seen w rest (err x) db h e = (e, refl, refl, refl, refl, refl, refl, refl, refl, refl)

counted :
    (w : World) (r : Result {0, 0} IngressError Unit) (v : World)
    → Untouched w v
    → Untouched w (count_dropped (r, v)).1
counted w (ok done) v h = h
counted w (err e) v h = bump-Untouched "events.dropped" w v h

module _ (env : Env) (help : String) (history : Option (List HistoryMessage))
    (abandon : String → World → World) (received : ℕ) (ev : NormalizedEvent) (w : World) where
  route-Untouched :
      OfTables (Recorded ev.event_id) w.db.conn
      → Untouched w (route env help history abandon received ev w).1
  unfolding route on_db
  route-Untouched h = elim (Bool-cases (is_human ev.sender_kind)) [
    | inl e ↦ rw e (
        after_seen w (route_new env help history abandon ev)
          (seen_event ev.event_id received w.db).0 (seen_event ev.event_id received w.db).1
          (seen_event-NotNew ev.event_id received w.db h)
          (seen_event-same ev.event_id received w.db h))
    | inr e ↦ rw e (bump-Untouched "events.nonhuman" w w (unmoved w))
  ]

  -- An event whose id is recorded as seen changes no table, writes no evidence, sends nothing and
  -- touches neither the queue nor the running, owned, cancelled or steered tasks, whether or not
  -- calls of the store fail.
  pub handle_event-Untouched :
      OfTables (Recorded ev.event_id) w.db.conn
      → Untouched w (handle_event env help history abandon received ev w).1
  unfolding handle_event
  handle_event-Untouched h =
      counted w (route env help history abandon received ev w).0
        (route env help history abandon received ev w).1 (route-Untouched h)
