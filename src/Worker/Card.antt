-- ===== src/Worker/Card.antt =====
-- core/crates/worker/src/card.rs: the card of a run. `CardCoalescer` sends it once and puts changes
-- together; the three entries of the worker follow. `clip` and `render_card` of this file are those
-- of the control crate (Control/Words, Control/Card), whose text they repeat.
use aite.Base.{
  ltb, if◌then◌else◌, length, ℕ, ◌+◌, String, Bool, true, false, ◌&&◌, Option, none, some,
}
use aite.Contracts.Evidence.{EvidenceKind, Members}
use aite.Contracts.Protocol.{CardStatus, ChecklistCard, card_status_as_str}
use aite.Contracts.Session.{Session, TaskStatus}
use aite.Control.Card.{render_card}
use aite.Control.Plane.{card_sent, card_updated, send}
use aite.Control.Sessions.{or_text}
use aite.Worker.Desk.{
  Coalescer, Ports, Run, RunContext, act, ask, number_of, on_coalescer, on_ctx, on_task, pure,
  reads, record_event, save, text_of, thread_root, ◌>>=◌, ◌>>◌,
}

abbrev item_count : ChecklistCard → ℕ
item_count card = length card.items

abbrev sent_payload : String → String → ChecklistCard → Members
sent_payload card_id chat_id card = text_of "op" "card_sent" (
    text_of "card_id" card_id (
      text_of "chat_id" chat_id (
        text_of "status" (card_status_as_str card.status)
          (number_of "items" (item_count card) Members.no_members))))

abbrev updated_payload : String → ℕ → ℕ → ChecklistCard → Members
updated_payload card_id push merged card = text_of "op" "card_updated" (
    text_of "card_id" card_id (
      number_of "push" push (
        number_of "merged" merged (
          text_of "status" (card_status_as_str card.status)
            (number_of "items" (item_count card) Members.no_members)))))

abbrev pub is_sent : Coalescer → Bool
is_sent c = elim c.card_id [ none ↦ false | some id ↦ true ]

module _ (p : Ports) where
  abbrev pub shown_card : CardStatus → RunContext → ChecklistCard
  shown_card status c = render_card p.env c.task c.session c.initiator status c.note

  -- `flush` of the card that was pending.
  abbrev pub flush_card : ChecklistCard → Run Unit
  flush_card card = do
    on_coalescer (λ c. record c { pending = none })
    time ← ask p.monotonic
    on_coalescer (λ c. record c { last_flush = time })
    id ← reads (λ d. or_text d.ctx.card.card_id "")
    act (send (card_updated id card))
    on_coalescer (λ c. record c { pushes = c.pushes + 1 })
    c ← reads (λ d. d.ctx.card)
    on_coalescer (λ c. record c { merged = 0 })
    record_event EvidenceKind.checklist_op (updated_payload id c.pushes c.merged card)

  abbrev pub flush_pending : Option ChecklistCard → Run Unit
  flush_pending none = pure tt
  flush_pending (some card) = flush_card card

  unfoldable pub flush : Run Unit
  flush = reads (λ d. d.ctx.card.pending) >>= flush_pending

  -- The window, open `interval` from the last push, is looked at when a card was sent and a change
  -- is pending.
  abbrev pub flush_at : ℕ → ℕ → Run Unit
  flush_at time last = if ltb time (last + p.interval) then pure tt else flush

  abbrev flush_timed : Run Unit
  flush_timed = do
    time ← ask p.monotonic
    last ← reads (λ d. d.ctx.card.last_flush)
    flush_at time last

  abbrev is_waiting : Coalescer → Bool
  is_waiting c = is_sent c && elim c.pending [ none ↦ false | some card ↦ true ]

  unfoldable pub maybe_flush : Run Unit
  maybe_flush = do
    waits ← reads (λ d. is_waiting d.ctx.card)
    if waits then flush_timed else pure tt

  abbrev put_pending : ChecklistCard → Coalescer → Coalescer
  put_pending card c = record c { pending = some card; merged = c.merged + 1 }

  -- `refresh_card`: what `CardCoalescer::update` does with a card that was sent.
  unfoldable pub refresh_card : CardStatus → Run Unit
  refresh_card status = do
    sent ← reads (λ d. is_sent d.ctx.card)
    card ← reads (λ d. shown_card status d.ctx)
    if sent then (on_coalescer (put_pending card) >> maybe_flush) else pure tt

  -- `close_card`, by `CardCoalescer::force_flush`.
  unfoldable pub close_card : CardStatus → Run Unit
  close_card status = do
    sent ← reads (λ d. is_sent d.ctx.card)
    card ← reads (λ d. shown_card status d.ctx)
    if sent then (on_coalescer (put_pending card) >> flush) else pure tt

  -- `CardCoalescer::ensure_card`, of a card that was not sent.
  unfoldable pub send_card : Session → ChecklistCard → Run Unit
  send_card session card = do
    act (send (card_sent session.chat_id (thread_root session) card))
    res ← ask p.send_result
    time ← ask p.monotonic
    let id = or_text res.card_id res.message_id
    on_coalescer
        (λ c. record c { card_id = some id; last_flush = time; pending = none; merged = 0 })
    record_event EvidenceKind.checklist_op (sent_payload id session.chat_id card)

  abbrev pub first_card : Run Unit
  first_card = do
    on_task (λ t. record t { status = TaskStatus.working })
    card ← reads (λ d. shown_card CardStatus.working d.ctx)
    session ← reads (λ d. d.ctx.session)
    send_card session card
    on_ctx (λ c. record c { task = record c.task { card_id = c.card.card_id } })
    save p

  unfoldable pub ensure_card : Run Unit
  ensure_card = do sent ← reads (λ d. is_sent d.ctx.card); if sent then pure tt else first_card
