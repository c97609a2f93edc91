-- ===== src/Worker/Frame/Ends.antt =====
-- What the context, the model and the ends of a run keep: the count of steps and its limit.
use aite.Base.{ℕ, zero, suc, String, Option, none, some, List, [], ◌∷◌}
use aite.Base.Exec.{Result, err, ok}
use aite.Contracts.Events.{Attachment}
use aite.Contracts.Evidence.{Members}
use aite.Contracts.Protocol.{Message, ModelError, ModelTurn}
use aite.Contracts.Session.{Session, Task, Turn}
use aite.Control.Sessions.{HistoryMessage}
use aite.Store.Statements.{StoreError}
use aite.Worker.Desk.{Ports, Run, RunContext, RunError}
use aite.Worker.Finish.{
  append_assistant_turn, fetch_artifact, file_of, send_artifact, send_artifacts, turn_written,
  where_none, write_at,
}
use aite.Worker.Frame.{IsSteady, Keeps, Keeps-bind, keeps_rules, record_event-Keeps}
use aite.Worker.Frame.Tools.{steady_task}
use aite.Worker.Messages.{
  build_messages, claim, claim_from, prompted, steer_messages, steer_speaker,
}
use aite.Worker.Retry.{
  chat, chat_again, chat_with, delay_of, model_retry_delays, retry_class, wait_and,
}

module _ {P : Task → Type 0} where
  turn_written-Keeps :
      (p : Ports) (again : Run Unit) (r : Result {0, 0} RunError Unit)
      → Keeps P again
      → Keeps P (turn_written p again r)
  turn_written-Keeps p again (ok done) k = search keeps_rules
  turn_written-Keeps p again (err (RunError.store (StoreError.duplicate_turn id seq))) k = k
  turn_written-Keeps p again (err (RunError.store StoreError.not_initialized)) k =
      search keeps_rules
  turn_written-Keeps p again (err (RunError.store StoreError.sqlite)) k = search keeps_rules
  turn_written-Keeps p again (err (RunError.store (StoreError.other e))) k = search keeps_rules
  turn_written-Keeps p again (err (RunError.worker e)) k = search keeps_rules
  turn_written-Keeps p again (err RunError.evidence) k = search keeps_rules
  turn_written-Keeps p again (err RunError.platform) k = search keeps_rules

  write_at-Keeps :
      (p : Ports) (again : Run Unit) (s : Session) (content : String) (r : Result RunError ℕ)
      → Keeps P again
      → Keeps P (write_at p again s content r)
  write_at-Keeps p again s content (err e) k = search keeps_rules
  write_at-Keeps p again s content (ok seq) k = search (keeps_rules, turn_written-Keeps) depth 24

  pub append_assistant_turn-Keeps :
      (p : Ports) (n : ℕ) (s : Session) (content : String)
      → Keeps P (append_assistant_turn p n s content)
  unfolding append_assistant_turn
  append_assistant_turn-Keeps p zero s content = search keeps_rules
  append_assistant_turn-Keeps p (suc n) s content =
      Keeps-bind _ _ (search keeps_rules)
        (λ r. write_at-Keeps p _ s content r (append_assistant_turn-Keeps p n s content))

  chat_again-Keeps :
      (p : Ports) (messages : List Message) (again : Run (Result ModelError ModelTurn)) (d : ℕ)
      → (r : Result ModelError ModelTurn) → Keeps P again
      → Keeps P (chat_again p messages again d r)
  chat_again-Keeps p messages again d (ok turn) k = search keeps_rules
  chat_again-Keeps p messages again d (err e) k = wait_lem (delay_of (retry_class e) d)
    where
      wait_lem : (o : Option ℕ) → Keeps P (wait_and p messages again e o)
      wait_lem none = search keeps_rules
      wait_lem (some ms) = search keeps_rules

  chat_with-Keeps :
      (p : Ports) (messages : List Message) (delays : List ℕ)
      → Keeps P (chat_with p messages delays)
  unfolding chat_with
  chat_with-Keeps p messages [] = search keeps_rules
  chat_with-Keeps p messages (d ∷ delays) =
      Keeps-bind _ _ (search keeps_rules)
        (λ r. chat_again-Keeps p messages _ d r (chat_with-Keeps p messages delays))

  pub chat-Keeps : (p : Ports) (messages : List Message) → Keeps P (chat p messages)
  unfolding chat
  chat-Keeps p messages = chat_with-Keeps p messages model_retry_delays

  prompted-Keeps :
      (c : RunContext) (turns : List Turn) (history : List HistoryMessage)
      → (attachments : List Attachment) (r : Result {0, 0} String String)
      → Keeps P (prompted c turns history attachments r)
  prompted-Keeps c turns history attachments (err e) = search keeps_rules
  prompted-Keeps c turns history attachments (ok prompt) = search keeps_rules

  pub build_messages-Keeps : (p : Ports) → Keeps P (build_messages p)
  unfolding build_messages
  build_messages-Keeps p = search (keeps_rules, prompted-Keeps) depth 32

  claim-Keeps : (o : Option (Turn × String)) → Keeps P (claim o)
  claim-Keeps none = search keeps_rules
  claim-Keeps (some (t, uid)) = search keeps_rules depth 24

  claim_from-Keeps : (text : String) (r : Result RunError (List Turn)) → Keeps P (claim_from text r)
  claim_from-Keeps text (err e) = search keeps_rules
  claim_from-Keeps text (ok turns) = search (keeps_rules, claim-Keeps)

  steer_speaker-Keeps : (text : String) → Keeps P (steer_speaker text)
  unfolding steer_speaker
  steer_speaker-Keeps text = search (keeps_rules, claim_from-Keeps) depth 24

  pub steer_messages-Keeps : (texts : List String) → Keeps P (steer_messages texts)
  unfolding steer_messages
  steer_messages-Keeps [] = search keeps_rules
  steer_messages-Keeps (text ∷ texts) =
      Keeps-bind _ _ (steer_speaker-Keeps text)
        (λ name. Keeps-bind _ _ (steer_messages-Keeps texts) (search keeps_rules))

module _ {P : Task → Type 0} (q : IsSteady P) (p : Ports) where
  where_none-Keeps : (m : Run Unit) (o : Option String) → Keeps P m → Keeps P (where_none p m o)
  where_none-Keeps m none k = k
  where_none-Keeps m (some id) k = search keeps_rules

  file_of-Keeps : (path : String) (o : Option String) → Keeps P (file_of p path o)
  file_of-Keeps path none = search keeps_rules
  file_of-Keeps path (some id) = search keeps_rules

  fetch_artifact-Keeps : (path : String) → Keeps P (fetch_artifact p path)
  unfolding fetch_artifact
  fetch_artifact-Keeps path =
      search (keeps_rules, steady_task q p, where_none-Keeps, file_of-Keeps) depth 32

  send_artifact-Keeps :
      (others : Run (List String × List String)) (art : Members) (o : Option (List ℕ))
      → Keeps P others
      → Keeps P (send_artifact p others art o)
  send_artifact-Keeps others art none k = search keeps_rules
  send_artifact-Keeps others art (some content) k =
      search (keeps_rules, record_event-Keeps) depth 24

  pub send_artifacts-Keeps : (artifacts : List Members) → Keeps P (send_artifacts p artifacts)
  unfolding send_artifacts
  send_artifacts-Keeps [] = search keeps_rules
  send_artifacts-Keeps (art ∷ artifacts) =
      Keeps-bind _ _ (fetch_artifact-Keeps _)
        (λ o. send_artifact-Keeps _ art o (send_artifacts-Keeps artifacts))
