-- ===== src/Control/Card.antt =====
-- `render_card` of core/crates/control/src/card.rs. The actions of a card, which are always the
-- default, are left out.
use aite.Base.{
  ltb, if◌then◌else◌, render, decimal, ℕ, ◌/◌, ◌%◌, String, Option, none, some, [], ◌∷◌, map, ◌==◌,
}
use aite.Contracts.Protocol.{CardStatus, ChecklistCard}
use aite.Contracts.Session.{ChecklistItem, Session, Task}
use aite.Control.Plane.{Env}
use aite.Control.Sessions.{filled_text}
use aite.Control.Words.{clip, max_title_chars}

abbrev pub max_item_chars : ℕ
max_item_chars = 20

abbrev two_digits : ℕ → String
two_digits n = if ltb n 10 then render ("0" ∷ decimal n ∷ []) else decimal n

-- Hours and minutes in UTC, of microseconds; the hour has no leading zero.
unfoldable pub started_text : ℕ → String
unfolding decimal
started_text time =
    render (decimal ((time / 3600000000) % 24) ∷ ":" ∷ two_digits ((time / 60000000) % 60) ∷ [])

abbrev noted : Option String → String → String
noted none footer = footer
noted (some note) footer = render (clip note max_title_chars ∷ " · " ∷ footer ∷ [])

unfoldable pub card_item : ChecklistItem → ChecklistItem
unfolding clip
card_item i = record i { text = clip i.text max_item_chars }

unfoldable pub render_card :
    Env → Task → Session → String → CardStatus → Option String → ChecklistCard
unfolding clip started_text card_item
render_card env task session initiator status note = record {
  task_id = task.id;
  task_no = task.task_no;
  title = clip (if task.title == "" then "处理中" else task.title) max_title_chars;
  initiator = if initiator == "" then session.created_by else initiator;
  started_at = started_text task.created_at;
  status = status;
  items = map card_item task.checklist;
  footer =
      noted (filled_text note)
        (render ("已用 " ∷ decimal task.steps ∷ " 步 · ¥" ∷ env.cost_text task.cost ∷ []));
}
