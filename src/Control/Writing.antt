-- ===== src/Control/Writing.antt =====
-- The loop of `write_turn_locked`, on a store that is open and whose calls do not fail.
use mathlib.Core.List.{append-nil}
use native.Mathlib.Nat.{le_refl}
use aite.Base.{
  Bool-cases, any, ℕ, suc, String, ◌≡◌, refl, ap, ◌∙◌, ◌⊎◌, inl, inr, Option, none, some, List, [],
  ◌∷◌, ◌++◌,
}
use aite.Base.Exec.{Result, err, ok}
use aite.Contracts.Session.{Turn}
use aite.Control.Plane.{Act, IngressError, World, on_db}
use aite.Control.Sessions.Turns.{
  TurnDraft, retry, seq_from, turn_of, write_attempt, write_turn_locked, write_turn_loop,
}
use aite.Store.{append_turn, with_conn}
use aite.Store.Statements.{
  Tables, duplicate_turn, insert_turn, is_turn, next_seq, of_session, select_turns,
}
use aite.Store.Turns.{fresh_seq, last_of, seq_after, seq_after-select_turns}

abbrev pub at : Tables → World → World
at t w = record w { db = record { conn = some t; faults = [] } }

abbrev pub with_turns : List Turn → Tables → Tables
with_turns turns t = record t { turns = t.turns ++ turns }

retry-ok :
    (r : Result {0, 0} IngressError Unit) (v : World) (again : Act Unit)
    → r ≡ ok tt
    → (retry (r, v) again).0 ≡ ok tt
retry-ok (ok done) v again h = refl
retry-ok (err e) v again h = cc

-- The number that an attempt gives is the one that `next_turn_seq` answers.
module _ (s : String) (d : TurnDraft) (w : World) where
  abbrev pub next_turn : Tables → Turn
  next_turn t = turn_of s (next_seq (of_session s t.turns)) d

  seq_from-after : (o : Option Turn) → seq_from o ≡ seq_after o
  seq_from-after none = refl
  seq_from-after (some u) = refl

  attempted :
      (t : Tables) (rival : List Turn)
      → write_attempt s d rival (at t w)
        ≡ on_db (append_turn (next_turn t)) (at (with_turns rival t) w)
  unfolding write_attempt on_db with_conn select_turns
  attempted t rival =
      ap (λ n. on_db (append_turn (turn_of s n d)) (at (with_turns rival t) w))
        (seq_from-after (last_of (select_turns s 1 t).0) ∙ seq_after-select_turns s 0 t)

  -- Without rivals the turn is written.
  attempt_alone :
      (t : Tables) → write_attempt s d [] (at t w) ≡ (ok tt, at (with_turns (next_turn t ∷ []) t) w)
  unfolding on_db with_conn insert_turn
  attempt_alone t =
      attempted t []
      ∙ (ap (λ turns. on_db (append_turn (next_turn t)) (at (record t { turns = turns }) w))
            (append-nil t.turns)
          ∙ rw (fresh_seq s (next_seq (of_session s t.turns)) t.turns (le_refl _)) refl)

  -- With rivals it is written, or a rival took the number.
  attempt_rival :
      (t : Tables) (rival : List Turn)
      → ((write_attempt s d rival (at t w)).0 ≡ ok tt)
        ⊎ (write_attempt s d rival (at t w) ≡ (
          err (IngressError.store (duplicate_turn s (next_turn t).seq)),
          at (with_turns rival t) w,
        ))
  unfolding on_db with_conn insert_turn
  attempt_rival t rival = elim (Bool-cases (any (is_turn s (next_turn t).seq) (t.turns ++ rival))) [
    | inl e ↦ inr (attempted t rival ∙ rw e refl)
    | inr e ↦ inl (ap (λ r. r.0) (attempted t rival) ∙ rw e refl)
  ]

  -- One attempt with rivals, and what comes after it.
  loop_rival :
      (left : ℕ) (t : Tables) (rival : List Turn) (rivals : List (List Turn))
      → ((u : Tables) → (write_turn_loop left s d rivals (at u w)).0 ≡ ok tt)
      → (write_turn_loop (suc left) s d (rival ∷ rivals) (at t w)).0 ≡ ok tt
  unfolding write_turn_loop
  loop_rival left t rival rivals h = elim (attempt_rival t rival) [
    | inl e ↦
        retry-ok (write_attempt s d rival (at t w)).0 (write_attempt s d rival (at t w)).1
          (write_turn_loop left s d rivals) e
    | inr e ↦ ap (λ out. (retry out (write_turn_loop left s d rivals)).0) e ∙ h (with_turns rival t)
  ]

  last_attempt : (t : Tables) → (write_turn_loop 0 s d [] (at t w)).0 ≡ ok tt
  unfolding write_turn_loop
  last_attempt t = ap (λ r. r.0) (attempt_alone t)

-- On an open store whose calls do not fail, when no one else writes, `write_turn_locked` adds one turn of the draft to the store, behind all
-- others, with the number that `next_turn_seq` answers for the session, and changes nothing else.
pub write_turn_locked-next :
    (s : String) (d : TurnDraft) (w : World) (t : Tables)
    → write_turn_locked s d [] (at t w) ≡ (ok tt, at (with_turns (next_turn s d w t ∷ []) t) w)
unfolding write_turn_locked write_turn_loop
write_turn_locked-next s d w t =
    ap (λ out. retry out (write_turn_loop 1 s d [])) (attempt_alone s d w t)

-- On an open store whose calls do not fail, whatever turns others write between the reading and the writing of the first two attempts,
-- `write_turn_locked` succeeds.
pub write_turn_locked-survives :
    (s : String) (d : TurnDraft) (w : World) (t : Tables) (first second : List Turn)
    → (write_turn_locked s d (first ∷ second ∷ []) (at t w)).0 ≡ ok tt
unfolding write_turn_locked
write_turn_locked-survives s d w t first second =
    loop_rival s d w 1 t first (second ∷ [])
      (λ u. loop_rival s d w 0 u second [] (last_attempt s d w))
