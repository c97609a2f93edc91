-- ===== src/Worker/Retrying.antt =====
-- How often a step calls the model (core/crates/worker/src/loop.rs).
use aite.Worker.Desk.{◌>>=◌, ◌>>◌}
use aite.Base.{
  if◌then◌else◌, keep, length, ℕ, ◌+◌, ◌≤◌, ◌≡◌, Bool, true, false, Option, none, some, List, [],
  ◌∷◌, ◌++◌, arith,
}
use aite.Base.Exec.{Result, err, ok}
use aite.Contracts.Protocol.{Message, ModelError, ModelTurn}
use aite.Control.Plane.{Sent, World, model_called, waited}
use aite.Worker.Desk.{Desk, Ports, Run, ask, on_world, pure}
use aite.Worker.Retry.{
  chat, chat_again, chat_with, delay_of, model_retry_delays, retry_class, wait_and,
}

abbrev is_call : Sent → Bool
is_call (model_called messages) = true
is_call _ = false

-- The calls of the model among what was sent.
abbrev pub model_calls : World → ℕ
model_calls w = length (keep is_call w.outbox)

one_more :
    (s : Sent) (sent : List Sent)
    → length (keep is_call (sent ++ s ∷ []))
      ≡ length (keep is_call sent) + (if is_call s then 1 else 0)
one_more s [] = ground arith
one_more s (x ∷ sent) = ground (arith, one_more s sent)

module _ (p : Ports) (messages : List Message) where
  again_lem :
      (again : Run (Result ModelError ModelTurn)) (n d : ℕ) (r : Result ModelError ModelTurn)
      → ((e : Desk) → model_calls (again e).1.world ≤ model_calls e.world + n)
      → (e : Desk)
      → model_calls (chat_again p messages again d r e).1.world ≤ model_calls e.world + n
  unfolding pure ◌>>◌ on_world
  again_lem again n d (ok turn) h e = omega arith
  again_lem again n d (err x) h e = wait_lem (delay_of (retry_class x) d)
    where
      wait_lem :
          (o : Option ℕ)
          → model_calls (wait_and p messages again x o e).1.world ≤ model_calls e.world + n
      wait_lem none = omega arith
      wait_lem (some ms) = omega (
        arith,
        one_more (waited ms) e.world.outbox,
        h (record e { world = record e.world { outbox = e.world.outbox ++ waited ms ∷ [] } }),
      )

  chat_with-model_calls :
      (delays : List ℕ) (d : Desk)
      → model_calls (chat_with p messages delays d).1.world
        ≤ model_calls d.world + (1 + length delays)
  unfolding chat_with ◌>>=◌ ◌>>◌ on_world ask
  chat_with-model_calls [] d = omega (arith, one_more (model_called messages) d.world.outbox)
  chat_with-model_calls (s ∷ delays) d = omega (
    arith,
    one_more (model_called messages) d.world.outbox,
    again_lem (chat_with p messages delays) (1 + length delays) s (p.answer d.world.draws messages)
        (chat_with-model_calls delays)
        (record d {
          world = record d.world {
            outbox = d.world.outbox ++ model_called messages ∷ [];
            draws = d.world.draws + 1;
          };
        }),
  )

-- A step calls the model three times at most, whatever the answers are.
pub chat-model_calls :
    (p : Ports) (messages : List Message) (d : Desk)
    → model_calls (chat p messages d).1.world ≤ model_calls d.world + 3
unfolding chat
chat-model_calls p messages d = chat_with-model_calls p messages model_retry_delays d
