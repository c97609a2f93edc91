-- ===== src/Control/Queue/Fifo.antt =====
-- The order in which DispatchQueue gives tasks out.
-- The queued items of one session, in order.
use aite.Base.{
  Bool-cases, if◌then◌else◌, keep, All, String, ◌≡◌, refl, inl, inr, Bool, true, false, Option,
  none, some, List, [], ◌∷◌, ◌++◌, arith, ◌==◌, eq_iff,
}
use aite.Control.Queue.{DispatchQueue, remove_where, try_pop_where}

abbrev pub of_key : String → List (String × String) → List (String × String)
of_key k items = keep (λ item. item.1 == k) items

-- What `try_pop_where` may answer on the items: nothing if every key is busy, or an item whose key
-- is free, taken out of the items with all else left in place, and only busy keys before it.
abbrev pub Takes :
    (String → Bool)
    → List (String × String)
    → Option ((String × String) × List (String × String))
    → Type 0
Takes busy items none = All (λ item. busy item.1 ≡ true) items
Takes busy items (some (item, rest)) =
    (busy item.1 ≡ false)
    × ((before : List (String × String)) × (behind : List (String × String)) × (items
          ≡ before ++ item ∷ behind)
        × (rest ≡ before ++ behind)
        × All (λ other. busy other.1 ≡ true) before)

skip-Takes :
    (busy : String → Bool) (id key : String) (items : List (String × String))
    → busy key ≡ true
    → (r : Option ((String × String) × List (String × String))) → Takes busy items r
    → Takes busy
        ((id, key) ∷ items)
        (elim r [ none ↦ none | some (item, others) ↦ some (item, (id, key) ∷ others) ])
skip-Takes busy id key items b none t = (b, t)
skip-Takes busy id key items b (some (item, rest)) (free, (before, behind, e, e', bs)) =
    (free, ((id, key) ∷ before, behind, rw e, rw e', (b, bs)))

pub remove_where-Takes :
    (busy : String → Bool) (items : List (String × String))
    → Takes busy items (remove_where busy items)
unfolding remove_where
remove_where-Takes busy [] = tt
remove_where-Takes busy ((id, key) ∷ rest) = elim (Bool-cases (busy key)) [
  | inl b ↦
      rw b (skip-Takes busy id key rest b (remove_where busy rest) (remove_where-Takes busy rest))
  | inr f ↦ rw f (f, ([], rest, refl, refl, tt))
]

module _ (busy : String → Bool) (id key : String) (free : busy key ≡ false) where
  of_key-take :
      (before behind : List (String × String))
      → All (λ other. busy other.1 ≡ true) before
      → (k : String)
      → of_key k (before ++ (id, key) ∷ behind) ≡ (
          if key == k then (id, key) ∷ of_key k (before ++ behind) else of_key k (before ++ behind))
  of_key-take [] behind bs k = refl
  of_key-take ((j, other) ∷ before) behind (b, bs) k =
      ground (arith, of_key-take before behind bs k, eq_iff other k, eq_iff key k)

-- What `try_pop_where` promises of its answer and of the queue that it leaves.
abbrev pub TakesOldest :
    (String → Bool) → DispatchQueue → Option (String × String) × DispatchQueue → Type 0
TakesOldest busy q (none, q') = (q' ≡ q) × All (λ item. busy item.1 ≡ true) q.items
TakesOldest busy q (some item, q') =
    (busy item.1 ≡ false)
    × (q'.unfinished ≡ q.unfinished)
    × ((k : String)
        → of_key k q.items ≡ (if item.1 == k then item ∷ of_key k q'.items else of_key k q'.items))

Takes-oldest :
    (busy : String → Bool) (q : DispatchQueue)
    (r : Option ((String × String) × List (String × String)))
    → Takes busy q.items r
    → TakesOldest busy q
        (elim r [ none ↦ (none, q) | some (item, rest) ↦ (some item, record q { items = rest }) ])
Takes-oldest busy q none t = (refl, t)
Takes-oldest busy q (some ((id, key), rest)) (free, (before, behind, e, e', bs)) =
    (free, refl, λ k. rw (e, e') (of_key-take busy id key free before behind bs k))

-- For every queue and every test `busy` on session keys: if `try_pop_where` gives nothing, the
-- queue is unchanged and every queued item's session is busy; if it gives an item, the item's
-- session is not busy, it was the oldest queued item of its session, every session's other items
-- stay queued in their order, and the count of unfinished tasks is unchanged.
pub try_pop_where-oldest :
    (busy : String → Bool) (q : DispatchQueue) → TakesOldest busy q (try_pop_where busy q)
unfolding try_pop_where
try_pop_where-oldest busy q =
    Takes-oldest busy q (remove_where busy q.items) (remove_where-Takes busy q.items)
