-- ===== src/Worker/Messages.antt =====
-- core/crates/worker/src/loop.rs: the messages that a run starts with, and the steer of a task.
use aite.Base.{
  eqb, if◌then◌else◌, keep, all, find, any, ℕ, String, Bool, true, false, not, ◌&&◌, Option, none,
  some, List, [], ◌∷◌, map, reverse, ◌==◌,
}
use aite.Base.Exec.{Result, err, ok}
use aite.Contracts.Events.{Attachment}
use aite.Contracts.Protocol.{Message, Role, text_message}
use aite.Contracts.Session.{Session, Turn, TurnRole}
use aite.Control.Plane.{on_db}
use aite.Control.Sessions.{HistoryMessage, filled_text, or_text, value_at}
use aite.Store.{list_turns}
use aite.Worker.Context.{assemble, attributed_turns}
use aite.Worker.Desk.{
  Ports, Run, RunContext, RunError, act, ask, attempted, on_ctx, pure, raise, reads, ◌>>=◌, ◌>>◌,
}
use aite.Worker.Texts.{attributed_line}

abbrev pub transcript_limit : ℕ
transcript_limit = 200

abbrev pub steer_lookback : ℕ
steer_lookback = 50

-- `RunContext::display_name`
unfoldable pub display_name : RunContext → String → String
display_name c uid =
    if uid == c.session.created_by then c.initiator else or_text (value_at uid c.names) uid

abbrev named_senders : List HistoryMessage → List (String × String)
named_senders [] = []
named_senders (h ∷ history) =
    let rest = named_senders history in
    elim (filled_text h.sender_name) [ none ↦ rest | some name ↦ (h.sender_id, name) ∷ rest ]

abbrev is_user : TurnRole → Bool
is_user TurnRole.user = true
is_user _ = false

abbrev content_of : Option Turn → String
content_of none = ""
content_of (some t) = t.content

abbrev attachments_of : Option Turn → List Attachment
attachments_of none = []
attachments_of (some t) = t.attachments

abbrev has_attachments : Turn → Bool
has_attachments t = elim t.attachments [ [] ↦ false | a ∷ rest ↦ true ]

abbrev first_message : Session → List Attachment → String
first_message session [] = session.anchor.message_id
first_message session (a ∷ rest) = a.message_id

abbrev history_of : Option (List HistoryMessage) → List HistoryMessage
history_of none = []
history_of (some history) = history

-- A later name of the same sender replaces an earlier one.
abbrev learn : List Turn → List HistoryMessage → RunContext → RunContext
learn turns history c = record c {
  names = reverse (named_senders history);
  claimed_turns = map (λ t. t.seq) turns;
  last_user_turn = content_of (find (λ t. is_user t.role && not (t.content == "")) (reverse turns));
}

abbrev pub prompted :
    RunContext
    → List Turn
    → List HistoryMessage
    → List Attachment
    → Result {0, 0} String String
    → Run (List Message)
prompted c turns history attachments (err e) = raise (RunError.worker e)
prompted c turns history attachments (ok prompt) =
    pure (assemble prompt (attributed_turns turns (display_name c)) history attachments)

unfoldable pub build_messages : Ports → Run (List Message)
build_messages p = do
  session ← reads (λ d. d.ctx.session)
  turns ← act (on_db (list_turns session.id transcript_limit))
  answer ← ask (λ n. p.read_history n session)
  let history = history_of answer
  on_ctx (learn turns history)
  let attachments = attachments_of (find has_attachments (reverse turns))
  on_ctx (λ c. record c { attachments_message_id = some (first_message session attachments) })
  prompt ← ask p.system_prompt
  c ← reads (λ d. d.ctx)
  prompted c turns history attachments prompt

abbrev same_speaker : Option String → Option String → Bool
same_speaker none none = true
same_speaker none (some b) = false
same_speaker (some a) none = false
same_speaker (some a) (some b) = a == b

abbrev claims : RunContext → String → Turn → Bool
claims c text t =
    (is_user t.role && (t.content == text)) && not (any (λ seq. eqb seq t.seq) c.claimed_turns)

-- The first candidate, with its speaker, when all candidates have the same speaker.
abbrev only_speaker : List Turn → Option (Turn × String)
only_speaker [] = none
only_speaker (t ∷ turns) = elim t.platform_user_id [
  | none ↦ none
  | some uid ↦
      if all (λ u. same_speaker u.platform_user_id (some uid)) turns then some (t, uid) else none
]

abbrev pub claim : Option (Turn × String) → Run (Option String)
claim none = pure none
claim (some (t, uid)) = do
  on_ctx (λ c. record c { claimed_turns = t.seq ∷ c.claimed_turns })
  c ← reads (λ d. d.ctx)
  pure (some (display_name c uid))

abbrev pub claim_from : String → Result RunError (List Turn) → Run (Option String)
claim_from text (err e) = pure none
claim_from text (ok turns) = do
  c ← reads (λ d. d.ctx)
  claim (only_speaker (keep (claims c text) turns))

unfoldable pub steer_speaker : String → Run (Option String)
steer_speaker text = do
  session ← reads (λ d. d.ctx.session)
  turns ← attempted (act (on_db (list_turns session.id steer_lookback)))
  claim_from text turns

abbrev steer_line : String → Option String → String
steer_line text none = text
steer_line text (some name) = attributed_line name text

-- One user message for each text, signed where its speaker is known.
unfoldable pub steer_messages : List String → Run (List Message)
steer_messages [] = pure []
steer_messages (text ∷ texts) = do
  name ← steer_speaker text
  rest ← steer_messages texts
  pure (text_message Role.user (steer_line text name) ∷ rest)
