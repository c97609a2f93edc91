-- ===== src/Control/Parallel.antt =====
-- `dispatch_loop_parallel` of core/crates/control/src/dispatch.rs: up to `n` tasks in flight, one
-- for each session. What a run does is left out here (`run_one` has it); which runs have ended when
-- the loop wakes up is an argument.
-- The queue, and the sessions and tasks in flight.
use aite.Base.{
  keep, length, any, ℕ, zero, suc, ◌-◌, String, Bool, Option, none, some, List, [], ◌∷◌, ◌++◌, ◌==◌,
}
use aite.Control.Queue.{DispatchQueue, put_keyed, try_pop_where}

pub record Flights : Type 0 where
  pub queue : DispatchQueue
  pub in_flight : List (String × String)

abbrev pub is_busy : List (String × String) → String → Bool
is_busy in_flight key = any (λ e. e.0 == key) in_flight

abbrev pub launch :
    (Flights → Flights) → Flights → Option (String × String) × DispatchQueue → Flights
launch next p (none, queue) = record p { queue = queue }
launch next p (some (id, key), queue) =
    next (record { queue = queue; in_flight = p.in_flight ++ (key, id) ∷ [] })

-- The inner `while`: `slots` is how many more may start.
unfoldable pub fill : ℕ → Flights → Flights
unfolding try_pop_where
fill zero p = p
fill (suc slots) p = launch (fill slots) p (try_pop_where (is_busy p.in_flight) p.queue)

unfoldable pub fill_up : ℕ → Flights → Flights
unfolding fill
fill_up n p = fill (n - length p.in_flight) p

-- `retain_mut`: the runs that have ended are dropped.
unfoldable pub land : (String × String → Bool) → Flights → Flights
land is_pending p = record p { in_flight = keep is_pending p.in_flight }

-- What happens to the loop: another handler queues a task, the inner `while` runs, or the loop
-- wakes up and drops the runs that have ended.
pub data LoopEvent : Type 0 where
  puts : String → String → LoopEvent
  fills : LoopEvent
  lands : (String × String → Bool) → LoopEvent

abbrev pub happen : ℕ → LoopEvent → Flights → Flights
happen n (puts id key) p = record p { queue = put_keyed id key p.queue }
happen n fills p = fill_up n p
happen n (lands is_pending) p = land is_pending p

abbrev pub loop : ℕ → List LoopEvent → Flights → Flights
loop n [] p = p
loop n (event ∷ events) p = loop n events (happen n event p)
