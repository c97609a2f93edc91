-- ===== src/Tests/OfControl.antt =====
-- Runs of the theorems on the control plane.
use aite.Base.{◌≡◌, refl, ◌↔◌, true, false, none, some, List, [], ◌∷◌, arith, ◌==◌}
use aite.Base.Exec.{err, ok}
use aite.Contracts.Session.{Session, Task, is_terminal}
use aite.Control.Cancelling.{cancel_task_by-Silent}
use aite.Control.Commands.Targets.{pick_stop_target}
use aite.Control.Dispatch.{
  admit, cancel_task_by, dispatch_task, mark_cancelled, run_one, steer_target,
}
use aite.Control.Duplicates.{Untouched, handle_event-Untouched}
use aite.Control.Flights.{Bounded, Busied, dispatch_loop-Bounded, fill_up-fills}
use aite.Control.Guards.{has_steer, run_one-Released}
use aite.Control.Parallel.{Flights, LoopEvent, fill_up, loop}
use aite.Control.Plane.{Act, IngressError, has}
use aite.Control.Queue.{is_idle, len, new, put_keyed, task_done, try_pop_where}
use aite.Control.Queue.Fifo.{TakesOldest, try_pop_where-oldest}
use aite.Control.Queue.Joining.{Reach, Step, Use, is_idle_iff}
use aite.Control.Races.{Op, cancelled_stays_out, steps}
use aite.Control.Routing.{handle_event}
use aite.Control.Sessions.Turns.{turn_of, write_turn_locked}
use aite.Control.Settled.{Left, cancel_task_by-Left}
use aite.Control.Steering.{IsTarget, steer_target-IsTarget}
use aite.Control.Stopping.{Picks, pick_stop_target-Picks}
use aite.Control.Writing.{at, with_turns, write_turn_locked-next, write_turn_locked-survives}
use aite.Store.{with_conn}
use aite.Store.Statements.{is_seen, next_seq, select_task}
use aite.Tests.Data.{draft, env, event, failed_task, tables, turn, working_task, world}

try_pop_where-oldest_example :
    TakesOldest
      (λ key. key == "s1")
      world.shared.queue
      (try_pop_where (λ key. key == "s1") world.shared.queue)
try_pop_where-oldest_example = try_pop_where-oldest (λ key. key == "s1") world.shared.queue

abbrev first_put : Use
first_put = record { queue = put_keyed "t1" "s1" new; in_flight = 0 }

is_idle_iff_example :
    (is_idle first_put.queue ≡ true) ↔ ((len first_put.queue ≡ 0) × (first_put.in_flight ≡ 0))
is_idle_iff_example =
    is_idle_iff
      (Reach.next Reach.start (Step.put (record { queue = new; in_flight = 0 }) "t1" "s1"))

steer_target-IsTarget_example :
    IsTarget
      (working_task ∷ failed_task ∷ [])
      ("t1" ∷ "t2" ∷ [])
      ("t1" ∷ [])
      (steer_target (working_task ∷ failed_task ∷ []) ("t1" ∷ "t2" ∷ []) ("t1" ∷ []))
steer_target-IsTarget_example =
    steer_target-IsTarget (working_task ∷ failed_task ∷ []) ("t1" ∷ "t2" ∷ []) ("t1" ∷ [])

abbrev worker : Task → Session → Act Unit
worker task s w = (err IngressError.evidence, w)

run_one-Released_example :
    (has (run_one env worker "t1" world).shared.owned "t1" ≡ false)
    × (has_steer "t1" (run_one env worker "t1" world).shared.steer ≡ false)
    × ((run_one env worker "t1" world).shared.queue
        ≡ task_done (dispatch_task env worker "t1" world).1.shared.queue)
run_one-Released_example = run_one-Released env worker "t1" world

abbrev ops : List Op
ops = Op.admits "t2" ∷ Op.steers "t2" "more" ∷ Op.ends "t1" ∷ Op.admits "t2" ∷ []

cancelled_stays_out_example :
    (has (steps ops (mark_cancelled "t2" world).1).shared.running "t2" ≡ false)
    × ((admit "t2" (steps ops (mark_cancelled "t2" world).1)).0 ≡ ok false)
unfolding mark_cancelled
cancelled_stays_out_example = cancelled_stays_out "t2" world ops refl

handle_event-Untouched_example :
    Untouched world (handle_event env "help" none (λ id w. w) 9 event world).1
unfolding is_seen
handle_event-Untouched_example =
    handle_event-Untouched env "help" none (λ id w. w) 9 event world refl

cancel_task_by-Silent_example :
    ((cancel_task_by env working_task none none true (some "ann") world).1.entries ≡ [])
    × ((cancel_task_by env working_task none none true (some "ann") world).1.manifests ≡ [])
cancel_task_by-Silent_example =
    cancel_task_by-Silent env working_task none none true (some "ann") world refl

cancel_task_by-Left_example :
    Left failed_task world (cancel_task_by env failed_task none none true none world)
unfolding with_conn select_task is_terminal
cancel_task_by-Left_example =
    cancel_task_by-Left env failed_task failed_task none none true none world refl refl

write_turn_locked-next_example :
    write_turn_locked "s1" draft [] (at tables world)
    ≡ (ok tt, at (with_turns (turn_of "s1" 2 draft ∷ []) tables) world)
unfolding next_seq
write_turn_locked-next_example = write_turn_locked-next "s1" draft world tables

write_turn_locked-survives_example :
    (write_turn_locked "s1" draft ((turn 2 ∷ []) ∷ (turn 3 ∷ []) ∷ []) (at tables world)).0 ≡ ok tt
write_turn_locked-survives_example =
    write_turn_locked-survives "s1" draft world tables (turn 2 ∷ []) (turn 3 ∷ [])

abbrev flights : Flights
flights = record { queue = world.shared.queue; in_flight = ("s1", "t1") ∷ [] }

fill_up-fills_example : Bounded 2 (fill_up 2 flights) × Busied 2 (fill_up 2 flights)
fill_up-fills_example = fill_up-fills 2 flights (omega arith, (refl, tt))

abbrev events : List LoopEvent
events =
    LoopEvent.fills
    ∷ LoopEvent.puts "t4" "s1"
    ∷ LoopEvent.lands (λ e. e.0 == "s1")
    ∷ LoopEvent.fills
    ∷ []

dispatch_loop-Bounded_example :
    Bounded 2 (loop 2 events (record { queue = world.shared.queue; in_flight = [] }))
dispatch_loop-Bounded_example = dispatch_loop-Bounded 2 world.shared.queue events

pick_stop_target-Picks_example :
    Picks
      (working_task ∷ failed_task ∷ [])
      " a1"
      (pick_stop_target (working_task ∷ failed_task ∷ []) " a1")
pick_stop_target-Picks_example = pick_stop_target-Picks (working_task ∷ failed_task ∷ []) " a1"
