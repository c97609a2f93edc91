-- ===== src/Control/Guards.antt =====
-- What the guards of `run_one` and `run_admitted` leave behind.
use aite.Base.{
  ==_refl, contains-without, any, String, ◌≡◌, refl, ◌∙◌, Bool, false, List, [], ◌∷◌, arith, ◌==◌,
  eq_iff,
}
use aite.Contracts.Session.{Session, Task}
use aite.Control.Dispatch.{dispatch_task, run_one}
use aite.Control.Plane.{Act, Env, Shared, World, finish, has, without_steer}
use aite.Control.Queue.{task_done}

abbrev pub has_steer : String → List (String × List String) → Bool
has_steer id steer = any (λ e. e.0 == id) steer

has_steer-without_steer :
    (id : String) (steer : List (String × List String))
    → has_steer id (without_steer id steer) ≡ false
has_steer-without_steer id [] = refl
has_steer-without_steer id ((k, texts) ∷ steer) =
    ground (arith, has_steer-without_steer id steer, eq_iff k id)

finish-Released :
    (id : String) (s : Shared)
    → (has (finish id s).owned id ≡ false) × (has_steer id (finish id s).steer ≡ false)
unfolding finish
finish-Released id s =
    (contains-without s.owned id id ∙ rw (==_refl id) refl, has_steer-without_steer id s.steer)

finish_queue : (id : String) (s : Shared) → task_done (finish id s).queue ≡ task_done s.queue
unfolding finish
finish_queue id s = refl

-- Whatever the worker does and however its run ends, after `run_one` the task is not owned any
-- more, no steer of it is left, and the queue is as `task_done` leaves it behind the dispatch.
pub run_one-Released :
    (env : Env) (worker : Task → Session → Act Unit) (id : String) (w : World)
    → (has (run_one env worker id w).shared.owned id ≡ false)
      × (has_steer id (run_one env worker id w).shared.steer ≡ false)
      × ((run_one env worker id w).shared.queue
          ≡ task_done (dispatch_task env worker id w).1.shared.queue)
unfolding run_one
run_one-Released env worker id w =
    let s = (dispatch_task env worker id w).1.shared in
    ((finish-Released id s).0, (finish-Released id s).1, finish_queue id s)
