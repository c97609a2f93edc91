-- ===== src/Control/Queue/Joining.antt =====
-- The count that `join` waits on.
-- A queue in use, with the number of tasks that were taken and have not called `task_done`.
use aite.Base.{
  Option-cases, eqb_iff, length-append, length, ℕ, suc, ◌+◌, String, ◌≡◌, refl, ◌↔◌, inl, inr, Bool,
  true, some, List, [], ◌∷◌, arith,
}
use aite.Control.Queue.{
  DispatchQueue, is_idle, len, new, pop_front, put_keyed, remove_where, task_done, try_pop,
  try_pop_where,
}

pub record Use : Type 0 where
  pub queue : DispatchQueue
  pub in_flight : ℕ

-- What the callers do: `put_keyed`; `try_pop` or `try_pop_where`, each followed by one run of the
-- task; and, at the end of a run, the `task_done` of `TaskDoneGuard`.
pub data Step : Use → Use → Type 0 where
  put : (u : Use) (id key : String) → Step u (record u { queue = put_keyed id key u.queue })
  pop :
      (u : Use) (id : String) (q : DispatchQueue)
      → try_pop u.queue ≡ (some id, q)
      → Step u (record { queue = q; in_flight = u.in_flight + 1 })
  pop_where :
      (u : Use) (busy : String → Bool) (item : String × String) (q : DispatchQueue)
      → try_pop_where busy u.queue ≡ (some item, q)
      → Step u (record { queue = q; in_flight = u.in_flight + 1 })
  done :
      (u : Use) (n : ℕ)
      → u.in_flight ≡ suc n
      → Step u (record { queue = task_done u.queue; in_flight = n })

pub data Reach : Use → Type 0 where
  start : Reach (record { queue = new; in_flight = 0 })
  next : {u v : Use} → Reach u → Step u v → Reach v

abbrev pub Counted : Use → Type 0
Counted u = u.queue.unfinished ≡ length u.queue.items + u.in_flight

length-pop_front :
    (items : List (String × String)) (id : String) (rest : List (String × String))
    → pop_front items ≡ some (id, rest)
    → length items ≡ suc (length rest)
unfolding pop_front
length-pop_front [] id rest h = cc
length-pop_front (item ∷ items) id rest h = ground arith

try_pop-Counted :
    (q : DispatchQueue) (id : String) (q' : DispatchQueue)
    → try_pop q ≡ (some id, q')
    → (length q.items ≡ suc (length q'.items)) × (q'.unfinished ≡ q.unfinished)
unfolding try_pop
try_pop-Counted q id q' h = elim (Option-cases (pop_front q.items)) [
  | inl e ↦ ground arith
  | inr ((i, rest), e) ↦ ground (arith, length-pop_front q.items i rest)
]

length-remove_where :
    (busy : String → Bool) (items : List (String × String)) (item : String × String)
    (rest : List (String × String))
    → remove_where busy items ≡ some (item, rest)
    → length items ≡ suc (length rest)
unfolding remove_where
length-remove_where busy [] item rest h = cc
length-remove_where busy ((id, key) ∷ items) item rest h =
    elim (Option-cases (remove_where busy items)) [
      | inl e ↦ ground arith
      | inr ((found, others), e) ↦ ground (arith, length-remove_where busy items found others)
    ]

try_pop_where-Counted :
    (busy : String → Bool) (q : DispatchQueue) (item : String × String) (q' : DispatchQueue)
    → try_pop_where busy q ≡ (some item, q')
    → (length q.items ≡ suc (length q'.items)) × (q'.unfinished ≡ q.unfinished)
unfolding try_pop_where
try_pop_where-Counted busy q item q' h = elim (Option-cases (remove_where busy q.items)) [
  | inl e ↦ ground arith
  | inr ((found, rest), e) ↦ ground (arith, length-remove_where busy q.items found rest)
]

Step-Counted : {u v : Use} → Step u v → Counted u → Counted v
unfolding put_keyed task_done
Step-Counted (put u id key) c = omega (arith, length-append {0} u.queue.items ((id, key) ∷ []))
Step-Counted (pop u id q h) c = omega (arith, try_pop-Counted u.queue id q h)
Step-Counted (pop_where u busy item q h) c =
    omega (arith, try_pop_where-Counted busy u.queue item q h)
Step-Counted (done u n h) c = omega arith

Reach-Counted : {u : Use} → Reach u → Counted u
Reach-Counted start = refl
Reach-Counted (next r st) = Step-Counted st (Reach-Counted r)

-- However the queue is used (items put, taken with either method, runs ended), the test that
-- `join` waits for holds exactly when nothing is queued and no task that was taken is still
-- running.
pub is_idle_iff :
    {u : Use} → Reach u → (is_idle u.queue ≡ true) ↔ ((len u.queue ≡ 0) × (u.in_flight ≡ 0))
unfolding is_idle len
is_idle_iff r =
    (λ h. grind (arith, Reach-Counted r, eqb_iff), λ h. grind (arith, Reach-Counted r, eqb_iff))
