-- ===== src/Worker/OneCard.antt =====
-- A run sends one card at most (core/crates/worker/src/card.rs): what has been sent, with one more
-- while the run has no card, never grows.
pub mod Parts
pub mod Asking
pub mod Rounds
use aite.Base.{
  if◌then◌else◌, keep, length, ℕ, ◌+◌, ◌≤◌, String, ◌≡◌, refl, Bool, true, false, List, [], ◌∷◌,
  ◌++◌, arith,
}
use aite.Base.Exec.{Exec, Result, err, ok}
use aite.Contracts.Evidence.{EvidenceKind, Members}
use aite.Contracts.Session.{Task}
use aite.Control.Dispatch.{finalize_port}
use aite.Control.Plane.{
  Act, Env, IngressError, Sent, World, append_evidence, card_sent, drain_steer, now, on_db, send,
  stored,
}
use aite.Control.Writing.{at}
use aite.Store.{Db}
use aite.Store.Statements.{StoreError}
use aite.Worker.Card.{is_sent}
use aite.Worker.Desk.{
  Desk, Run, RunContext, RunError, act, acted, ask, attempted, followed, on_ctx, on_task, on_world,
  pure, raise, reads, record_event, ◌>>=◌, ◌>>◌,
}

abbrev pub is_card : Sent → Bool
is_card (card_sent chat_id message_id card) = true
is_card _ = false

abbrev pub cards : World → ℕ
cards w = length (keep is_card w.outbox)

pub cards_append :
    (sent : List Sent) (s : Sent)
    → length (keep is_card (sent ++ s ∷ []))
      ≡ length (keep is_card sent) + (if is_card s then 1 else 0)
cards_append [] s = ground arith
cards_append (x ∷ sent) s = ground (arith, cards_append sent s)

abbrev pub Room : ℕ → Desk → Type 0
Room n d = cards d.world + (if is_sent d.ctx.card then 0 else 1) ≤ n

module _ {A : Type 0} where
  stored_lem : (w : World) (r : Result StoreError A × Db) → (stored r w).1.outbox ≡ w.outbox
  stored_lem w (ok a, db) = refl
  stored_lem w (err e, db) = refl

append_lem :
    (faults : List Bool) (id : String) (kind : EvidenceKind) (payload : Members) (w : World)
    → (append_evidence id kind payload (record w { faults = faults })).1.outbox ≡ w.outbox
unfolding append_evidence
append_lem [] id kind payload w = refl
append_lem (true ∷ faults) id kind payload w = refl
append_lem (false ∷ faults) id kind payload w = refl

finalize_lem :
    (env : Env) (id : String) (faults : List Bool) (w : World)
    → (finalize_port env id (record w { faults = faults })).1.outbox ≡ w.outbox
unfolding finalize_port
finalize_lem env id [] w = refl
finalize_lem env id (true ∷ faults) w = refl
finalize_lem env id (false ∷ faults) w = refl

-- `m` keeps the room, whether it returns or fails.
pub record Roomy {A : Type 0} (n : ℕ) (m : Run A) : Type 0 where
  pub at : (d : Desk) → Room n d → Room n (m d).1

module _ {n : ℕ} where
  module _ {A B : Type 0} where
    pub followed_lem :
        (r : Result RunError A × Desk) (f : A → Run B)
        → Room n r.1
        → ((a : A) → Roomy n (f a))
        → Room n (followed r f).1
    followed_lem (ok a, d) f h k = (k a).at d h
    followed_lem (err e, d) f h k = h

    pub Roomy-bind :
        (m : Run A) (f : A → Run B) → Roomy n m → ((a : A) → Roomy n (f a)) → Roomy n (m >>= f)
    unfolding ◌>>=◌
    Roomy-bind m f h k = record { at = λ d i. followed_lem (m d) f (h.at d i) k }

    pub Roomy-then : (m : Run A) (l : Run B) → Roomy n m → Roomy n l → Roomy n (m >> l)
    unfolding ◌>>◌
    Roomy-then m l h k = record { at = λ d i. followed_lem (m d) (λ _. l) (h.at d i) (λ _. k) }

  module _ {A : Type 0} where
    pub Roomy-pure : (a : A) → Roomy n (pure a)
    unfolding pure
    Roomy-pure a = record { at = λ d h. h }

    pub Roomy-raise : (e : RunError) → Roomy n (raise {A = A} e)
    unfolding raise
    Roomy-raise e = record { at = λ d h. h }

    pub Roomy-reads : (f : Desk → A) → Roomy n (reads f)
    unfolding reads
    Roomy-reads f = record { at = λ d h. h }

    pub Roomy-ask : (f : ℕ → A) → Roomy n (ask f)
    unfolding ask
    Roomy-ask f = record { at = λ d h. h }

    pub Roomy-attempted : (m : Run A) → Roomy n m → Roomy n (attempted m)
    unfolding attempted
    Roomy-attempted m k = record { at = k.at }

    pub Roomy-if : (b : Bool) (m l : Run A) → Roomy n m → Roomy n l → Roomy n (if b then m else l)
    Roomy-if true m l h k = h
    Roomy-if false m l h k = k

    acted_lem :
        (d : Desk) (r : Result IngressError A × World)
        → r.1.outbox ≡ d.world.outbox
        → Room n d
        → Room n (acted d r).1
    acted_lem d (ok a, w) h i = rw h i
    acted_lem d (err e, w) h i = rw h i

    -- A call that sends nothing.
    pub Roomy-act : (m : Act A) → ((w : World) → (m w).1.outbox ≡ w.outbox) → Roomy n (act m)
    unfolding act
    Roomy-act m h = record { at = λ d i. acted_lem d (m d.world) (h d.world) i }

    pub Roomy-on_db : (m : Exec Db StoreError A) → Roomy n (act (on_db m))
    unfolding on_db
    Roomy-on_db m = Roomy-act (on_db m) (λ w. stored_lem w (m w.db))

  pub Roomy-on_task : (f : Task → Task) → Roomy n (on_task f)
  unfolding on_task
  Roomy-on_task f = record { at = λ d h. h }

  pub Roomy-on_ctx :
      (f : RunContext → RunContext)
      → ((c : RunContext) → (f c).card.card_id ≡ c.card.card_id)
      → Roomy n (on_ctx f)
  unfolding on_ctx
  Roomy-on_ctx f same = record { at = λ d h. rw (same d.ctx) h }

  pub Roomy-on_world :
      (f : World → World) → ((w : World) → (f w).outbox ≡ w.outbox) → Roomy n (on_world f)
  unfolding on_world
  Roomy-on_world f same = record { at = λ d h. rw (same d.world) h }

  pub Roomy-note :
      (s : Sent)
      → is_card s ≡ false
      → Roomy n (on_world (λ w. record w { outbox = w.outbox ++ s ∷ [] }))
  unfolding on_world
  Roomy-note s plain = record { at = λ d h. ground (arith, cards_append d.world.outbox s) }

  pub Roomy-now : (env : Env) → Roomy n (act (now env))
  unfolding now
  Roomy-now env = Roomy-act (now env) (λ w. refl)

  pub Roomy-drain : (id : String) → Roomy n (act (drain_steer id))
  unfolding drain_steer
  Roomy-drain id = Roomy-act (drain_steer id) (λ w. refl)

  sent_lem :
      (d : Desk) (faults : List Bool) (s : Sent)
      → is_card s ≡ false
      → Room n d
      → Room n (acted d (send s (record d.world { faults = faults }))).1
  unfolding send
  sent_lem d [] s plain h = ground (arith, cards_append d.world.outbox s)
  sent_lem d (true ∷ faults) s plain h = h
  sent_lem d (false ∷ faults) s plain h = ground (arith, cards_append d.world.outbox s)

  pub Roomy-send : (s : Sent) → is_card s ≡ false → Roomy n (act (send s))
  unfolding act
  Roomy-send s plain = record { at = λ d h. sent_lem d d.world.faults s plain h }

  pub Roomy-record : (kind : EvidenceKind) (payload : Members) → Roomy n (record_event kind payload)
  unfolding record_event
  Roomy-record kind payload = Roomy-bind _ _ (Roomy-reads _) (λ id.
      Roomy-act (append_evidence id kind payload) (λ w. append_lem w.faults id kind payload w))

  pub Roomy-finalize : (env : Env) (id : String) → Roomy n (act (finalize_port env id))
  Roomy-finalize env id = Roomy-act (finalize_port env id) (λ w. finalize_lem env id w.faults w)

pub ruleset roomy_rules = (
  Roomy-act, Roomy-ask, Roomy-attempted, Roomy-bind, Roomy-drain, Roomy-finalize, Roomy-if,
  Roomy-note, Roomy-now, Roomy-on_ctx, Roomy-on_db, Roomy-on_task, Roomy-on_world, Roomy-pure,
  Roomy-raise, Roomy-reads, Roomy-record, Roomy-send, Roomy-then,
)
