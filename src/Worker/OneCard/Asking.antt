-- ===== src/Worker/OneCard/Asking.antt =====
-- What a run asks of the model and of the transcript keeps the room for its card.
use aite.Base.{ℕ, String, Option, none, some, List, [], ◌∷◌}
use aite.Base.Exec.{Result, err, ok}
use aite.Contracts.Events.{Attachment}
use aite.Contracts.Protocol.{Message, ModelError, ModelTurn}
use aite.Contracts.Session.{Turn}
use aite.Control.Sessions.{HistoryMessage}
use aite.Worker.Desk.{Ports, Run, RunContext, RunError}
use aite.Worker.Messages.{
  build_messages, claim, claim_from, prompted, steer_messages, steer_speaker,
}
use aite.Worker.OneCard.{Roomy, Roomy-bind, roomy_rules}
use aite.Worker.Retry.{
  chat, chat_again, chat_with, delay_of, model_retry_delays, retry_class, wait_and,
}

module _ {n : ℕ} (p : Ports) where
  chat_again-Roomy :
      (messages : List Message) (again : Run (Result ModelError ModelTurn)) (d : ℕ)
      → (r : Result ModelError ModelTurn) → Roomy n again
      → Roomy n (chat_again p messages again d r)
  chat_again-Roomy messages again d (ok turn) k = search roomy_rules
  chat_again-Roomy messages again d (err e) k = wait_lem (delay_of (retry_class e) d)
    where
      wait_lem : (o : Option ℕ) → Roomy n (wait_and p messages again e o)
      wait_lem none = search roomy_rules
      wait_lem (some ms) = search roomy_rules

  chat_with-Roomy :
      (messages : List Message) (delays : List ℕ) → Roomy n (chat_with p messages delays)
  unfolding chat_with
  chat_with-Roomy messages [] = search roomy_rules
  chat_with-Roomy messages (d ∷ delays) =
      Roomy-bind _ _ (search roomy_rules)
        (λ r. chat_again-Roomy messages _ d r (chat_with-Roomy messages delays))

  pub chat-Roomy : (messages : List Message) → Roomy n (chat p messages)
  unfolding chat
  chat-Roomy messages = chat_with-Roomy messages model_retry_delays

  prompted-Roomy :
      (c : RunContext) (turns : List Turn) (history : List HistoryMessage)
      → (attachments : List Attachment) (r : Result {0, 0} String String)
      → Roomy n (prompted c turns history attachments r)
  prompted-Roomy c turns history attachments (err e) = search roomy_rules
  prompted-Roomy c turns history attachments (ok prompt) = search roomy_rules

  pub build_messages-Roomy : Roomy n (build_messages p)
  unfolding build_messages
  build_messages-Roomy = search (roomy_rules, prompted-Roomy) depth 40

  claim-Roomy : (o : Option (Turn × String)) → Roomy n (claim o)
  claim-Roomy none = search roomy_rules
  claim-Roomy (some (t, uid)) = search roomy_rules depth 24

  claim_from-Roomy : (text : String) (r : Result RunError (List Turn)) → Roomy n (claim_from text r)
  claim_from-Roomy text (err e) = search roomy_rules
  claim_from-Roomy text (ok turns) = search (roomy_rules, claim-Roomy)

  steer_speaker-Roomy : (text : String) → Roomy n (steer_speaker text)
  unfolding steer_speaker
  steer_speaker-Roomy text = search (roomy_rules, claim_from-Roomy) depth 24

  pub steer_messages-Roomy : (texts : List String) → Roomy n (steer_messages texts)
  unfolding steer_messages
  steer_messages-Roomy [] = search roomy_rules
  steer_messages-Roomy (text ∷ texts) =
      Roomy-bind _ _ (steer_speaker-Roomy text)
        (λ name. Roomy-bind _ _ (steer_messages-Roomy texts) (search roomy_rules))
