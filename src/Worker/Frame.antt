-- ===== src/Worker/Frame.antt =====
-- Conditions on the task of a run (Worker/Desk) that a part of it keeps, whatever it returns: one
-- rule for each way to put a part together, then the parts of Card, Finish and Retry.
pub mod Tools
pub mod Ends
use aite.Base.{if◌then◌else◌, ℕ, ◌≡◌, sym, subst, Bool, true, false, Option, none, some}
use aite.Base.Exec.{Result, err, ok}
use aite.Contracts.Evidence.{EvidenceKind, Members}
use aite.Contracts.Protocol.{CardStatus, ChecklistCard}
use aite.Contracts.Session.{Task}
use aite.Control.Plane.{Act, IngressError, World}
use aite.Control.Races.{steps}
use aite.Control.Writing.{at}
use aite.Worker.Card.{close_card, flush, flush_pending, maybe_flush, refresh_card}
use aite.Worker.Desk.{
  Desk, Ports, Run, RunContext, RunError, act, acted, ask, attempted, followed, on_ctx, on_task,
  on_world, pure, raise, reads, record_event, save, ◌>>=◌, ◌>>◌,
}
use aite.Worker.Finish.{finish_run}

-- `m` keeps `P`, whether it returns or fails.
pub record Keeps {A : Type 0} (P : Task → Type 0) (m : Run A) : Type 0 where
  pub at : (d : Desk) → P d.ctx.task → P (m d).1.ctx.task

-- A condition on the count of steps, its limit and the status only; on the count and its limit.
abbrev pub IsAbout : (Task → Type 0) → Type 0
IsAbout P =
    (t u : Task) → t.steps ≡ u.steps → t.max_steps ≡ u.max_steps → t.status ≡ u.status → P t → P u

abbrev pub IsSteady : (Task → Type 0) → Type 0
IsSteady P = (t u : Task) → t.steps ≡ u.steps → t.max_steps ≡ u.max_steps → P t → P u

pub about : (P : Task → Type 0) → IsSteady P → IsAbout P
about P q t u steps limit status h = q t u steps limit h

module _ {A : Type 0} (P : Task → Type 0) where
  acted_keeps :
      (d : Desk) (r : Result IngressError A × World) → P d.ctx.task → P (acted d r).1.ctx.task
  acted_keeps d (ok a, w) h = h
  acted_keeps d (err e, w) h = h

module _ {P : Task → Type 0} where
  module _ {A : Type 0} where
    pub Keeps-pure : (a : A) → Keeps P (pure a)
    unfolding pure
    Keeps-pure a = record { at = λ d h. h }

    pub Keeps-raise : (e : RunError) → Keeps P (raise {A = A} e)
    unfolding raise
    Keeps-raise e = record { at = λ d h. h }

    pub Keeps-reads : (f : Desk → A) → Keeps P (reads f)
    unfolding reads
    Keeps-reads f = record { at = λ d h. h }

    pub Keeps-ask : (f : ℕ → A) → Keeps P (ask f)
    unfolding ask
    Keeps-ask f = record { at = λ d h. h }

    pub Keeps-act : (m : Act A) → Keeps P (act m)
    unfolding act
    Keeps-act m = record { at = λ d h. acted_keeps P d (m d.world) h }

    pub Keeps-attempted : (m : Run A) → Keeps P m → Keeps P (attempted m)
    unfolding attempted
    Keeps-attempted m k = record { at = k.at }

    pub Keeps-if : (b : Bool) (m n : Run A) → Keeps P m → Keeps P n → Keeps P (if b then m else n)
    Keeps-if true m n k l = k
    Keeps-if false m n k l = l

  pub Keeps-on_world : (f : World → World) → Keeps P (on_world f)
  unfolding on_world
  Keeps-on_world f = record { at = λ d h. h }

  pub Keeps-on_ctx :
      (f : RunContext → RunContext) → ((c : RunContext) → (f c).task ≡ c.task) → Keeps P (on_ctx f)
  unfolding on_ctx
  Keeps-on_ctx f same = record { at = λ d h. subst P (sym (same d.ctx)) h }

  module _ {A B : Type 0} where
    followed-Keeps :
        (r : Result RunError A × Desk) (f : A → Run B)
        → P r.1.ctx.task
        → ((a : A) → Keeps P (f a))
        → P (followed r f).1.ctx.task
    followed-Keeps (ok a, d) f h k = (k a).at d h
    followed-Keeps (err e, d) f h k = h

    pub Keeps-bind :
        (m : Run A) (f : A → Run B) → Keeps P m → ((a : A) → Keeps P (f a)) → Keeps P (m >>= f)
    unfolding ◌>>=◌
    Keeps-bind m f k l = record { at = λ d h. followed-Keeps (m d) f (k.at d h) l }

    pub Keeps-then : (m : Run A) (n : Run B) → Keeps P m → Keeps P n → Keeps P (m >> n)
    unfolding ◌>>◌
    Keeps-then m n k l = record { at = λ d h. followed-Keeps (m d) (λ _. n) (k.at d h) (λ _. l) }

pub ruleset keeps_rules = (
  Keeps-pure, Keeps-raise, Keeps-reads, Keeps-ask, Keeps-act, Keeps-attempted, Keeps-if,
  Keeps-on_world, Keeps-on_ctx, Keeps-bind, Keeps-then,
)

module _ {P : Task → Type 0} (q : IsAbout P) where
  pub Keeps-on_task :
      (f : Task → Task)
      → ((t : Task) → t.steps ≡ (f t).steps)
      → ((t : Task) → t.max_steps ≡ (f t).max_steps)
      → ((t : Task) → t.status ≡ (f t).status)
      → Keeps P (on_task f)
  unfolding on_task
  Keeps-on_task f steps limit status = record {
    at = λ d h. let t = d.ctx.task in q t (f t) (steps t) (limit t) (status t) h;
  }

module _ {P : Task → Type 0} where
  pub record_event-Keeps :
      (kind : EvidenceKind) (payload : Members) → Keeps P (record_event kind payload)
  unfolding record_event
  record_event-Keeps kind payload = search keeps_rules

module _ {P : Task → Type 0} (q : IsAbout P) (p : Ports) where
  pub save-Keeps : Keeps P (save p)
  unfolding save
  save-Keeps = search (keeps_rules, Keeps-on_task q)

  flush_pending-Keeps : (o : Option ChecklistCard) → Keeps P (flush_pending p o)
  flush_pending-Keeps none = search keeps_rules
  flush_pending-Keeps (some card) = search (keeps_rules, record_event-Keeps) depth 24

  flush-Keeps : Keeps P (flush p)
  unfolding flush
  flush-Keeps = search (keeps_rules, flush_pending-Keeps)

  pub maybe_flush-Keeps : Keeps P (maybe_flush p)
  unfolding maybe_flush
  maybe_flush-Keeps = search (keeps_rules, flush-Keeps) depth 24

  pub refresh_card-Keeps : (status : CardStatus) → Keeps P (refresh_card p status)
  unfolding refresh_card
  refresh_card-Keeps status = search (keeps_rules, maybe_flush-Keeps)

  pub close_card-Keeps : (status : CardStatus) → Keeps P (close_card p status)
  unfolding close_card
  close_card-Keeps status = search (keeps_rules, flush-Keeps)

  pub finish_run-Keeps : Keeps P (finish_run p)
  unfolding finish_run
  finish_run-Keeps = search (keeps_rules, Keeps-on_task q, save-Keeps) depth 24
