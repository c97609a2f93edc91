-- ===== src/Control/Queue.antt =====
-- DispatchQueue of core/crates/control/src/queue.rs. The mutex makes each method one atomic step,
-- so a method is a function on the guarded state. `Notify` (tokio) is not modelled: `pop` is the
-- `try_pop` that its wait ends with, and `is_idle` is the test that `join` waits for.
pub mod Fifo
pub mod Joining
use aite.Base.{
  eqb, if◌then◌else◌, length, ℕ, ◌+◌, ◌-◌, String, Bool, Option, none, some, List, [], ◌∷◌, ◌++◌,
  map,
}

pub record DispatchQueue : Type 0 where
  pub items : List (String × String)
  pub unfinished : ℕ

abbrev pub new : DispatchQueue
new = record { items = []; unfinished = 0 }

unfoldable pub put_keyed : String → String → DispatchQueue → DispatchQueue
put_keyed task_id key q = record {
  items = q.items ++ (task_id, key) ∷ [];
  unfinished = q.unfinished + 1;
}

unfoldable pub pop_front : List (String × String) → Option (String × List (String × String))
pop_front [] = none
pop_front ((id, key) ∷ rest) = some (id, rest)

unfoldable pub try_pop : DispatchQueue → Option String × DispatchQueue
unfolding pop_front
try_pop q = elim (pop_front q.items) [
  | none ↦ (none, q)
  | some (id, rest) ↦ (some id, record q { items = rest })
]

-- `position` followed by `remove`: the first item whose key is not busy, and the others in order.
unfoldable pub remove_where :
    (String → Bool) → List (String × String) → Option ((String × String) × List (String × String))
remove_where busy [] = none
remove_where busy ((id, key) ∷ rest) =
    let found = remove_where busy rest in
    if busy key
    then (elim found [ none ↦ none | some (item, others) ↦ some (item, (id, key) ∷ others) ])
    else some ((id, key), rest)

unfoldable pub try_pop_where :
    (String → Bool) → DispatchQueue → Option (String × String) × DispatchQueue
unfolding remove_where
try_pop_where busy q = elim (remove_where busy q.items) [
  | none ↦ (none, q)
  | some (item, rest) ↦ (some item, record q { items = rest })
]

unfoldable pub task_done : DispatchQueue → DispatchQueue
task_done q = record q { unfinished = q.unfinished - 1 }

unfoldable pub is_idle : DispatchQueue → Bool
is_idle q = eqb q.unfinished 0

unfoldable pub len : DispatchQueue → ℕ
len q = length q.items

unfoldable pub queued_ids : DispatchQueue → List String
queued_ids q = map (λ item. item.0) q.items
