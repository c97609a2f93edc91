-- ===== src/Control/Flights.antt =====
-- Which tasks `dispatch_loop_parallel` has in flight.
use aite.Base.{
  Bool-cases, length-append, keep, All, length, any, ℕ, zero, suc, ◌+◌, ◌-◌, ◌≤◌, String, ◌≡◌, refl,
  sym, subst, ◌⊎◌, inl, inr, Bool, true, false, Option, none, some, List, [], ◌∷◌, ◌++◌, arith,
  ◌==◌,
}
use aite.Control.Parallel.{Flights, LoopEvent, fill, fill_up, happen, is_busy, land, launch, loop}
use aite.Control.Queue.{DispatchQueue, try_pop_where}
use aite.Control.Queue.Fifo.{TakesOldest, try_pop_where-oldest}
use aite.Store.Keys.{Distinct, Distinct-add}

abbrev pub same_key : String × String → String × String → Bool
same_key a b = a.0 == b.0

-- At most `n` runs, no two of one session.
abbrev pub Bounded : ℕ → Flights → Type 0
Bounded n p = (length p.in_flight ≤ n) × Distinct same_key p.in_flight

launch-Bounded :
    (slots n : ℕ) (p : Flights) (popped : Option (String × String) × DispatchQueue)
    → TakesOldest (is_busy p.in_flight) p.queue popped
    → length p.in_flight + suc slots ≤ n
    → Distinct same_key p.in_flight
    → ((q : Flights)
        → length q.in_flight + slots ≤ n
        → Distinct same_key q.in_flight
        → Bounded n (fill slots q))
    → Bounded n (launch (fill slots) p popped)
launch-Bounded slots n p (none, queue) t h d f = (omega arith, d)
launch-Bounded slots n p (some (id, key), queue) (free, rest, oldest) h d f =
    f (record { queue = queue; in_flight = p.in_flight ++ (key, id) ∷ [] })
      (omega (arith, length-append p.in_flight ((key, id) ∷ [])))
      (Distinct-add same_key p.in_flight (key, id) free d)

fill-Bounded :
    (slots n : ℕ) (p : Flights)
    → length p.in_flight + slots ≤ n
    → Distinct same_key p.in_flight
    → Bounded n (fill slots p)
unfolding fill
fill-Bounded zero n p h d = (omega arith, d)
fill-Bounded (suc slots) n p h d =
    launch-Bounded slots n p (try_pop_where (is_busy p.in_flight) p.queue)
      (try_pop_where-oldest (is_busy p.in_flight) p.queue) h d (λ q. fill-Bounded slots n q)

-- Full, or nothing that is queued may start.
abbrev pub Busied : ℕ → Flights → Type 0
Busied n p =
    (length p.in_flight ≡ n) ⊎ All (λ item. is_busy p.in_flight item.1 ≡ true) p.queue.items

launch-Busied :
    (slots n : ℕ) (p : Flights) (popped : Option (String × String) × DispatchQueue)
    → TakesOldest (is_busy p.in_flight) p.queue popped
    → length p.in_flight + suc slots ≡ n
    → ((q : Flights) → length q.in_flight + slots ≡ n → Busied n (fill slots q))
    → Busied n (launch (fill slots) p popped)
launch-Busied slots n p (none, queue) (same, busy) h f =
    inr (subst (λ q. All (λ item. is_busy p.in_flight item.1 ≡ true) q.items) (sym same) busy)
launch-Busied slots n p (some (id, key), queue) (free, rest, oldest) h f =
    f (record { queue = queue; in_flight = p.in_flight ++ (key, id) ∷ [] })
      (omega (arith, length-append p.in_flight ((key, id) ∷ [])))

fill-Busied : (slots n : ℕ) (p : Flights) → length p.in_flight + slots ≡ n → Busied n (fill slots p)
unfolding fill
fill-Busied zero n p h = inl (omega arith)
fill-Busied (suc slots) n p h =
    launch-Busied slots n p (try_pop_where (is_busy p.in_flight) p.queue)
      (try_pop_where-oldest (is_busy p.in_flight) p.queue) h (λ q. fill-Busied slots n q)

any-keep_none :
    {A : Type 0} (p q : A → Bool) (xs : List A) → any q xs ≡ false → any q (keep p xs) ≡ false
any-keep_none p q [] h = refl
any-keep_none p q (x ∷ xs) h = ground (arith, any-keep_none p q xs)

length-keep : {A : Type 0} (p : A → Bool) (xs : List A) → length (keep p xs) ≤ length xs
length-keep p [] = omega arith
length-keep p (x ∷ xs) = ground (arith, length-keep p xs)

Distinct-keep :
    (p : String × String → Bool) (xs : List (String × String))
    → Distinct same_key xs
    → Distinct same_key (keep p xs)
Distinct-keep p [] d = tt
Distinct-keep p (x ∷ xs) (first, d) = elim (Bool-cases (p x)) [
  | inl e ↦ rw e (any-keep_none p (same_key x) xs first, Distinct-keep p xs d)
  | inr e ↦ rw e (Distinct-keep p xs d)
]

land-Bounded :
    (n : ℕ) (is_pending : String × String → Bool) (p : Flights)
    → Bounded n p
    → Bounded n (land is_pending p)
unfolding land
land-Bounded n is_pending p (h, d) =
    (omega (arith, length-keep is_pending p.in_flight), Distinct-keep is_pending p.in_flight d)

-- With at most `n` runs in flight and no two of one session, the inner loop leaves it so, and it
-- stops only when `n` are in flight or every queued task's session is busy.
pub fill_up-fills :
    (n : ℕ) (p : Flights) → Bounded n p → Bounded n (fill_up n p) × Busied n (fill_up n p)
unfolding fill_up
fill_up-fills n p (h, d) = (
  fill-Bounded (n - length p.in_flight) n p (omega arith) d,
  fill-Busied (n - length p.in_flight) n p (omega arith),
)

happen-Bounded :
    (n : ℕ) (event : LoopEvent) (p : Flights) → Bounded n p → Bounded n (happen n event p)
happen-Bounded n (LoopEvent.puts id key) p b = b
happen-Bounded n LoopEvent.fills p b = (fill_up-fills n p b).0
happen-Bounded n (LoopEvent.lands is_pending) p b = land-Bounded n is_pending p b

-- Started with nothing in flight, the parallel dispatch never has more than `n` tasks in flight
-- nor two of one session, in whatever order tasks are queued, the loop goes round and runs end.
pub dispatch_loop-Bounded :
    (n : ℕ) (queue : DispatchQueue) (events : List LoopEvent)
    → Bounded n (loop n events (record { queue = queue; in_flight = [] }))
dispatch_loop-Bounded n queue events =
    go events (record { queue = queue; in_flight = [] }) (omega arith, tt)
  where
    go : (events : List LoopEvent) (p : Flights) → Bounded n p → Bounded n (loop n events p)
    go [] p b = b
    go (event ∷ events) p b = go events (happen n event p) (happen-Bounded n event p b)
