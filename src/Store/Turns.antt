-- ===== src/Store/Turns.antt =====
-- Numbering the turns of a session: `next_turn_seq`, and the numbers that the control plane gives.
use Prim.Native.Nat.{max}
use mathlib.Core.List.{reverse-cons, reverse-reverse}
use aite.Base.{
  Bool-cases, ==_refl, take, get_last?, any, sort_by, insert_by, IsSorted, sort_by-IsSorted,
  key_leb, ℕ, suc, ◌+◌, ◌≤◌, ◌<◌, String, ◌≡◌, refl, sym, ap, ◌∙◌, inl, inr, true, false, Option,
  none, some, List, [], ◌∷◌, ◌++◌, reverse, arith,
}
use aite.Base.Exec.{Result, err, ok}
use aite.Contracts.Session.{Turn}
use aite.Store.Statements.{
  StoreError, Tables, insert_turn, is_turn, next_seq, of_session, select_turns, turn_key,
}

next_seq-insert_by :
    (u : Turn) (turns : List Turn)
    → next_seq (insert_by turn_key u turns) ≡ max (u.seq + 1) (next_seq turns)
unfolding insert_by next_seq
next_seq-insert_by u [] = refl
next_seq-insert_by u (v ∷ turns) = ground (arith, next_seq-insert_by u turns)

next_seq-sort_by : (turns : List Turn) → next_seq (sort_by turn_key turns) ≡ next_seq turns
unfolding sort_by next_seq
next_seq-sort_by [] = refl
next_seq-sort_by (u ∷ turns) =
    omega (arith, next_seq-insert_by u (sort_by turn_key turns), next_seq-sort_by turns)

-- The number after the last turn, as `write_turn_locked` computes it.
abbrev pub seq_after : Option Turn → ℕ
seq_after none = 0
seq_after (some u) = u.seq + 1

turn_key-le : (u v : Turn) → key_leb (turn_key u) (turn_key v) ≡ true → u.seq ≤ v.seq
unfolding key_leb
turn_key-le u v h = ground arith

last_seq :
    (u : Turn) (turns : List Turn)
    → IsSorted turn_key (u ∷ turns)
    → seq_after (get_last? (u ∷ turns)) ≡ next_seq (u ∷ turns)
unfolding next_seq
last_seq u [] s = omega arith
last_seq u (v ∷ turns) ((uv, rest), s) = omega (arith, turn_key-le u v uv, last_seq v turns s)

seq_after-sorted :
    (turns : List Turn) → IsSorted turn_key turns → seq_after (get_last? turns) ≡ next_seq turns
unfolding next_seq
seq_after-sorted [] s = refl
seq_after-sorted (u ∷ turns) s = last_seq u turns s

get_last?-add : {A : Type 0} (xs : List A) (x : A) → get_last? (xs ++ x ∷ []) ≡ some x
get_last?-add [] x = refl
get_last?-add (y ∷ []) x = refl
get_last?-add (y ∷ z ∷ xs) x = get_last?-add (z ∷ xs) x

get_last?-take :
    {A : Type 0} (k : ℕ) (xs : List A)
    → get_last? (reverse (take (suc k) xs)) ≡ get_last? (reverse xs)
get_last?-take k [] = refl
get_last?-take k (x ∷ xs) =
    ap get_last? (reverse-cons x (take k xs))
    ∙ (get_last?-add (reverse (take k xs)) x
        ∙ (sym (get_last?-add (reverse xs) x) ∙ sym (ap get_last? (reverse-cons x xs))))

abbrev pub last_of : Result StoreError (List Turn) → Option Turn
last_of (ok turns) = get_last? turns
last_of (err e) = none

last-select_turns :
    (s : String) (k : ℕ) (t : Tables)
    → last_of (select_turns s (suc k) t).0 ≡ get_last? (sort_by turn_key (of_session s t.turns))
unfolding select_turns
last-select_turns s k t =
    let sorted = sort_by turn_key (of_session s t.turns) in
    get_last?-take k (reverse sorted) ∙ ap get_last? (reverse-reverse sorted)

-- The number that the control plane reads off the last listed turn is the one that `next_turn_seq`
-- answers, for any limit but 0.
pub seq_after-select_turns :
    (s : String) (k : ℕ) (t : Tables)
    → seq_after (last_of (select_turns s (suc k) t).0) ≡ next_seq (of_session s t.turns)
seq_after-select_turns s k t =
    ap seq_after (last-select_turns s k t)
    ∙ (seq_after-sorted (sort_by turn_key (of_session s t.turns))
          (sort_by-IsSorted turn_key (of_session s t.turns))
        ∙ next_seq-sort_by (of_session s t.turns))

pub fresh_seq :
    (s : String) (n : ℕ) (turns : List Turn)
    → next_seq (of_session s turns) ≤ n
    → any (is_turn s n) turns ≡ false
unfolding next_seq
fresh_seq s n [] h = refl
fresh_seq s n (u ∷ turns) h = ground (arith, fresh_seq s n turns)

next_seq-add :
    (turns : List Turn) (u : Turn) → next_seq (turns ++ u ∷ []) ≡ max (next_seq turns) (u.seq + 1)
unfolding next_seq
next_seq-add [] u = omega arith
next_seq-add (v ∷ turns) u = omega (arith, next_seq-add turns u)

of_session-add :
    (turns : List Turn) (u : Turn)
    → of_session u.session_id (turns ++ u ∷ []) ≡ of_session u.session_id turns ++ u ∷ []
of_session-add [] u = rw (==_refl u.session_id)
of_session-add (v ∷ turns) u = ground (arith, of_session-add turns u)

get_last?-cons :
    {A : Type 0} (x y : A) (xs : List A) → get_last? xs ≡ some y → get_last? (x ∷ xs) ≡ some y
get_last?-cons x y [] h = cc
get_last?-cons x y (z ∷ xs) h = h

turn_key-lt : (u v : Turn) → u.seq < v.seq → key_leb (turn_key u) (turn_key v) ≡ true
unfolding key_leb
turn_key-lt u v h = ground arith

-- A turn below the last one is sorted in front of it.
last-insert_by :
    (u v : Turn) (turns : List Turn)
    → v.seq < u.seq
    → get_last? turns ≡ some u
    → get_last? (insert_by turn_key v turns) ≡ some u
unfolding insert_by
last-insert_by u v [] h e = cc
last-insert_by u v (w ∷ []) h e =
    let same : w.seq + 1 ≡ u.seq + 1 = ap seq_after e in rw (turn_key-lt v w (omega arith)) e
last-insert_by u v (w ∷ x ∷ turns) h e = elim (Bool-cases (key_leb (turn_key v) (turn_key w))) [
  | inl b ↦ rw b e
  | inr b ↦
      rw b
        (get_last?-cons w u (insert_by turn_key v (x ∷ turns)) (last-insert_by u v (x ∷ turns) h e))
]

last-sort_by :
    (u : Turn) (turns : List Turn)
    → next_seq turns ≤ u.seq
    → get_last? (sort_by turn_key (turns ++ u ∷ [])) ≡ some u
unfolding sort_by next_seq insert_by
last-sort_by u [] h = refl
last-sort_by u (v ∷ turns) h =
    last-insert_by u v (sort_by turn_key (turns ++ u ∷ [])) (omega arith)
      (last-sort_by u turns (omega arith))

-- A turn numbered by `next_turn_seq` is accepted and stored behind the others; it is, whole, the
-- turn that `list_turns` of its session with any limit but 0 then gives last; and the session's
-- next number is one above its own.
pub append_turn_next :
    (t : Tables) (u : Turn) (k : ℕ)
    → u.seq ≡ next_seq (of_session u.session_id t.turns)
    → (insert_turn u t ≡ (ok tt, record t { turns = t.turns ++ u ∷ [] }))
      × (last_of (select_turns u.session_id (suc k) (insert_turn u t).1).0 ≡ some u)
      × (next_seq (of_session u.session_id (insert_turn u t).1.turns) ≡ u.seq + 1)
unfolding insert_turn
append_turn_next t u k h = rw (fresh_seq u.session_id u.seq t.turns (omega arith)) (
  refl,
  last-select_turns u.session_id k (record t { turns = t.turns ++ u ∷ [] })
      ∙ (ap (λ us. get_last? (sort_by turn_key us)) (of_session-add t.turns u)
          ∙ last-sort_by u (of_session u.session_id t.turns) (omega arith)),
  ap next_seq (of_session-add t.turns u)
      ∙ (next_seq-add (of_session u.session_id t.turns) u ∙ omega arith),
)
