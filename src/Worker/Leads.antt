-- ===== src/Worker/Leads.antt =====
-- What a part of a run leads to: from a task with `P`, to an answer with `Q`, or an error with `E`.
use aite.Base.{if◌then◌else◌, ◌≡◌, refl, Bool, true, false}
use aite.Base.Exec.{Result, err, ok}
use aite.Contracts.Session.{Task}
use aite.Worker.Desk.{Desk, Run, RunError, followed, on_task, pure, reads, ◌>>=◌, ◌>>◌}
use aite.Worker.Frame.{Keeps}

abbrev pub Reached :
    {A : Type 0} → (A → Task → Type 0) → (Task → Type 0) → Result RunError A × Desk → Type 0
Reached Q E (ok a, d) = Q a d.ctx.task
Reached Q E (err e, d) = E d.ctx.task

pub record Leads {A : Type 0} (P : Task → Type 0) (m : Run A) (Q : A → Task → Type 0)
    (E : Task → Type 0) : Type 0 where
  pub at : (d : Desk) → P d.ctx.task → Reached Q E (m d)

module _ {A : Type 0} {P : Task → Type 0} {Q : A → Task → Type 0} {E : Task → Type 0} where
  pub Leads-pure : (a : A) → ((t : Task) → P t → Q a t) → Leads P (pure a) Q E
  unfolding pure
  Leads-pure a h = record { at = λ d i. h d.ctx.task i }

  pub Leads-reads :
      (f : Desk → A) → ((d : Desk) → P d.ctx.task → Q (f d) d.ctx.task) → Leads P (reads f) Q E
  unfolding reads
  Leads-reads f h = record { at = h }

  pub Leads-if :
      (b : Bool) (m n : Run A)
      → (b ≡ true → Leads P m Q E)
      → (b ≡ false → Leads P n Q E)
      → Leads P (if b then m else n) Q E
  Leads-if true m n h k = h refl
  Leads-if false m n h k = k refl

  pub Leads-on_task :
      (R : Task → Type 0) (f : Task → Task) (n : Run A)
      → ((t : Task) → P t → R (f t))
      → Leads R n Q E
      → Leads P (on_task f >> n) Q E
  unfolding ◌>>◌ on_task
  Leads-on_task R f n h k = record { at = λ d i. k.at _ (h d.ctx.task i) }

module _ {A B : Type 0} {Q : B → Task → Type 0} {E : Task → Type 0} where
  followed-Reached :
      (r : Result RunError A × Desk) (f : A → Run B) (R : A → Task → Type 0)
      → Reached R E r
      → ((a : A) → Leads (R a) (f a) Q E)
      → Reached Q E (followed r f)
  followed-Reached (ok a, d) f R h k = (k a).at d h
  followed-Reached (err e, d) f R h k = h

  module _ {P : Task → Type 0} where
    pub Leads-bind :
        (R : A → Task → Type 0) (m : Run A) (f : A → Run B)
        → Leads P m R E
        → ((a : A) → Leads (R a) (f a) Q E)
        → Leads P (m >>= f) Q E
    unfolding ◌>>=◌
    Leads-bind R m f h k = record { at = λ d i. followed-Reached (m d) f R (h.at d i) k }

    -- The state that is read has the condition.
    pub Leads-read :
        (f : Desk → A) (g : A → Run B)
        → ((d : Desk) → P d.ctx.task → Leads P (g (f d)) Q E)
        → Leads P (reads f >>= g) Q E
    unfolding ◌>>=◌ reads
    Leads-read f g h = record { at = λ d i. (h d i).at d i }

module _ {A : Type 0} {P : Task → Type 0} {E : Task → Type 0} where
  kept_lem :
      (r : Result RunError A × Desk)
      → P r.1.ctx.task
      → ((t : Task) → P t → E t)
      → Reached (λ a. P) E r
  kept_lem (ok a, d) h k = h
  kept_lem (err e, d) h k = k d.ctx.task h

  pub Leads-keeps : (m : Run A) → Keeps P m → ((t : Task) → P t → E t) → Leads P m (λ a. P) E
  Leads-keeps m h k = record { at = λ d i. kept_lem (m d) (h.at d i) k }

module _ {A B : Type 0} {P : Task → Type 0} {E : Task → Type 0} {Q : B → Task → Type 0} where
  pub keep_bind :
      (m : Run A) (f : A → Run B)
      → ((t : Task) → P t → E t)
      → Keeps P m
      → ((a : A) → Leads P (f a) Q E)
      → Leads P (m >>= f) Q E
  keep_bind m f e h k = Leads-bind (λ a. P) m f (Leads-keeps m h e) k

  pub keep_then :
      (m : Run A) (n : Run B)
      → ((t : Task) → P t → E t)
      → Keeps P m
      → Leads P n Q E
      → Leads P (m >> n) Q E
  unfolding ◌>>◌ ◌>>=◌
  keep_then m n e h k = record { at = (keep_bind m (λ _. n) e h (λ _. k)).at }

module _ {A : Type 0} (R Q : A → Task → Type 0) (E : Task → Type 0) where
  reached_lem :
      (r : Result RunError A × Desk)
      → ((a : A) (t : Task) → R a t → Q a t)
      → Reached R E r
      → Reached Q E r
  reached_lem (ok a, d) h k = h a d.ctx.task k
  reached_lem (err e, d) h k = k

module _ {A : Type 0} {P : Task → Type 0} {R Q : A → Task → Type 0} {E : Task → Type 0} where
  pub Leads-weaken :
      {m : Run A} → ((a : A) (t : Task) → R a t → Q a t) → Leads P m R E → Leads P m Q E
  Leads-weaken {m} h k = record { at = λ d i. reached_lem R Q E (m d) h (k.at d i) }
