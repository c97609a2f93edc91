-- ===== src/Control/Races.antt =====
-- The critical sections of `dispatch_task` and `cancel_task_by`, in any order.
-- A step of some handler: `marks` is the critical section of `cancel_task_by`, `admits` that of
-- `dispatch_task`, `clears` its removal of steer, `ends` the drop of `RunningGuard`, and `steers` a follow-up.
use aite.Base.{
  ==_refl, contains-without, without, any-append, String, ◌≡◌, true, false, ◌||◌, List, [], ◌∷◌,
  arith, ◌==◌, eq_iff,
}
use aite.Base.Exec.{ok}
use aite.Control.Dispatch.{admit, clear_steer, mark_cancelled}
use aite.Control.Plane.{World, has, insert_id, push_steer}
use aite.Control.Queue.{new}

pub data Op : Type 0 where
  marks admits clears ends : String → Op
  steers : String → String → Op

abbrev end_run : String → World → World
end_run id w = record w { shared = record w.shared { running = without w.shared.running id } }

abbrev push : String → String → World → World
push id text w = record w { shared = record w.shared { steer = push_steer id text w.shared.steer } }

abbrev pub step : Op → World → World
step (Op.marks id) w = (mark_cancelled id w).1
step (Op.admits id) w = (admit id w).1
step (Op.clears id) w = clear_steer id w
step (Op.ends id) w = end_run id w
step (Op.steers id text) w = push id text w

abbrev pub steps : List Op → World → World
steps [] w = w
steps (op ∷ ops) w = steps ops (step op w)

-- Cancelled, and not running.
abbrev pub IsOut : String → World → Type 0
IsOut id w = (has w.shared.cancelled id ≡ true) × (has w.shared.running id ≡ false)

has-insert_id :
    (ids : List String) (new id : String) → has (insert_id new ids) id ≡ (has ids id || (new == id))
has-insert_id ids new id = ground (arith, any-append (λ x. x == id) ids (new ∷ []), eq_iff new id)

step-IsOut : (id : String) (op : Op) (w : World) → IsOut id w → IsOut id (step op w)
unfolding mark_cancelled admit
step-IsOut id (Op.marks k) w h = ground (arith, has-insert_id w.shared.cancelled k id)
step-IsOut id (Op.admits k) w h = ground (arith, has-insert_id w.shared.running k id, eq_iff k id)
step-IsOut id (Op.clears k) w h = h
step-IsOut id (Op.ends k) w h = ground (arith, contains-without w.shared.running k id)
step-IsOut id (Op.steers k text) w h = h

steps-IsOut : (id : String) (ops : List Op) (w : World) → IsOut id w → IsOut id (steps ops w)
steps-IsOut id [] w h = h
steps-IsOut id (op ∷ ops) w h = steps-IsOut id ops (step op w) (step-IsOut id op w h)

mark_cancelled-IsOut :
    (id : String) (w : World)
    → (mark_cancelled id w).0 ≡ ok false
    → IsOut id (mark_cancelled id w).1
unfolding mark_cancelled
mark_cancelled-IsOut id w h = ground (arith, has-insert_id w.shared.cancelled id id, ==_refl id)

admit-IsOut : (id : String) (w : World) → IsOut id w → (admit id w).0 ≡ ok false
unfolding admit
admit-IsOut id w h = ground arith

-- If the cancellation of a task found it not running (and so settles the task itself), then after
-- any steps of any handlers the task does not run, and a dispatch that comes is turned away.
pub cancelled_stays_out :
    (id : String) (w : World) (ops : List Op)
    → (mark_cancelled id w).0 ≡ ok false
    → (has (steps ops (mark_cancelled id w).1).shared.running id ≡ false)
      × ((admit id (steps ops (mark_cancelled id w).1)).0 ≡ ok false)
cancelled_stays_out id w ops h =
    let out = steps-IsOut id ops (mark_cancelled id w).1 (mark_cancelled-IsOut id w h) in
    (out.1, admit-IsOut id (steps ops (mark_cancelled id w).1) out)
