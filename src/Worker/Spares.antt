-- ===== src/Worker/Spares.antt =====
-- The parts of a run that write no evidence.
-- `m` leaves the evidence alone.
use aite.Base.{if◌then◌else◌, String, ◌≡◌, refl, ◌∙◌, Bool, true, false, List, [], ◌∷◌}
use aite.Base.Exec.{Exec, Result, err, ok}
use aite.Contracts.Session.{Task}
use aite.Control.Dispatch.{finalize_port}
use aite.Control.Plane.{Act, Env, IngressError, World, now, on_db, stored}
use aite.Store.{Db}
use aite.Store.Statements.{StoreError}
use aite.Worker.Desk.{
  Desk, Ports, Run, RunError, act, acted, followed, on_task, on_world, pure, reads, save, ◌>>=◌,
  ◌>>◌,
}
use aite.Worker.Finish.{finish_run}

pub record Spares {A : Type 0} (m : Run A) : Type 0 where
  pub at : (d : Desk) → (m d).1.world.entries ≡ d.world.entries

module _ {A B : Type 0} where
  followed_lem :
      (r : Result RunError A × Desk) (f : A → Run B)
      → ((a : A) → Spares (f a))
      → (followed r f).1.world.entries ≡ r.1.world.entries
  followed_lem (ok a, d) f h = (h a).at d
  followed_lem (err e, d) f h = refl

  Spares-bind : (m : Run A) (f : A → Run B) → Spares m → ((a : A) → Spares (f a)) → Spares (m >>= f)
  unfolding ◌>>=◌
  Spares-bind m f h k = record { at = λ d. followed_lem (m d) f k ∙ h.at d }

  pub Spares-then : (m : Run A) (n : Run B) → Spares m → Spares n → Spares (m >> n)
  unfolding ◌>>◌
  Spares-then m n h k = record { at = λ d. followed_lem (m d) (λ _. n) (λ _. k) ∙ h.at d }

module _ {A : Type 0} where
  Spares-pure : (a : A) → Spares (aite.Worker.Desk.pure a)
  unfolding pure
  Spares-pure a = record { at = λ d. refl }

  pub Spares-reads : (f : Desk → A) → Spares (reads f)
  unfolding reads
  Spares-reads f = record { at = λ d. refl }

  acted_lem :
      (d : Desk) (r : Result IngressError A × World)
      → r.1.entries ≡ d.world.entries
      → (acted d r).1.world.entries ≡ d.world.entries
  acted_lem d (ok a, w) h = h
  acted_lem d (err e, w) h = h

  Spares-act : (m : Act A) → ((w : World) → (m w).1.entries ≡ w.entries) → Spares (act m)
  unfolding act
  Spares-act m h = record { at = λ d. acted_lem d (m d.world) (h d.world) }

  stored_lem : (w : World) (r : Result StoreError A × Db) → (stored r w).1.entries ≡ w.entries
  stored_lem w (ok a, db) = refl
  stored_lem w (err e, db) = refl

  Spares-on_db : (m : Exec Db StoreError A) → Spares (act (on_db m))
  unfolding on_db
  Spares-on_db m = Spares-act (on_db m) (λ w. stored_lem w (m w.db))

  Spares-if : (b : Bool) (m n : Run A) → Spares m → Spares n → Spares (if b then m else n)
  Spares-if true m n h k = h
  Spares-if false m n h k = k

Spares-on_task : (f : Task → Task) → Spares (on_task f)
unfolding on_task
Spares-on_task f = record { at = λ d. refl }

Spares-on_world :
    (f : World → World) → ((w : World) → (f w).entries ≡ w.entries) → Spares (on_world f)
unfolding on_world
Spares-on_world f h = record { at = λ d. h d.world }

Spares-now : (env : Env) → Spares (act (now env))
unfolding now
Spares-now env = Spares-act (now env) (λ w. refl)

finalize_lem :
    (env : Env) (id : String) (faults : List Bool) (w : World)
    → (finalize_port env id (record w { faults = faults })).1.entries ≡ w.entries
unfolding finalize_port
finalize_lem env id [] w = refl
finalize_lem env id (true ∷ faults) w = refl
finalize_lem env id (false ∷ faults) w = refl

Spares-finalize : (env : Env) (id : String) → Spares (act (finalize_port env id))
Spares-finalize env id = Spares-act (finalize_port env id) (λ w. finalize_lem env id w.faults w)

ruleset spares_rules = (
  Spares-bind, Spares-then, Spares-pure, Spares-reads, Spares-on_db, Spares-if, Spares-on_task,
  Spares-on_world, Spares-now, Spares-finalize,
)

save-Spares : (p : Ports) → Spares (save p)
unfolding save
save-Spares p = search spares_rules depth 24

pub finish_run-Spares : (p : Ports) → Spares (finish_run p)
unfolding finish_run
finish_run-Spares p = search (spares_rules, save-Spares) depth 24
