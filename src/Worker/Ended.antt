-- ===== src/Worker/Ended.antt =====
-- Every run returns a task that has ended (core/crates/worker/src/loop.rs).
use aite.Base.{
  ℕ, zero, suc, ◌+◌, ◌≤◌, ◌<◌, String, ◌≡◌, refl, sym, subst, true, Option, some, List, arith,
}
use aite.Base.Exec.{Result, err, ok}
use aite.Contracts.Protocol.{Message}
use aite.Contracts.Session.{Session, Task, TaskStatus, is_terminal}
use aite.Control.Plane.{World}
use aite.Worker.Desk.{Desk, Ports, Run, RunError, attempted, pure, reads, ◌>>=◌}
use aite.Worker.Ending.{At, At-IsSteady, At-Within, IsEnd, Within, fail-IsEnd}
use aite.Worker.Finish.{fail}
use aite.Worker.Frame.{Keeps-ask, about, save-Keeps}
use aite.Worker.Frame.Ends.{build_messages-Keeps}
use aite.Worker.Frame.Tools.{steady_ctx}
use aite.Worker.Leads.{Leads, Leads-bind, Leads-pure, Leads-read, Reached, keep_bind, keep_then}
use aite.Worker.Loop.{
  Flow, agent_loop, caught, failed_anyway, next_round, rounds, run, run_caught, taken_down,
}
use aite.Worker.Rounds.{Went, round-Went}
use aite.Worker.Texts.{run_error}

abbrev Finished : ℕ → Option Task → Type 0
Finished n o = (t : Task) × ((o ≡ some t) × IsEnd n t)

module _ (p : Ports) (n m : ℕ) (top : m ≤ n) where
  next_lem :
      (again : List Message → Run (Option Task)) (k : ℕ) (flow : Flow)
      → ((messages : List Message)
          → k < m
          → Leads (At (suc k) m) (again messages) (λ o _. Finished n o) (Within n))
      → Leads (Went n k m flow) (next_round p again flow) (λ o _. Finished n o) (Within n)
  next_lem again k (Flow.ended task) ih = Leads-pure _ (λ t h. (task, (refl, h)))
  next_lem again k (Flow.going messages) ih = record { at = λ d h. (ih messages h.1).at d h.0 }

  -- Enough rounds for the steps that are left, and one to notice the limit.
  rounds-Finished :
      (fuel started : ℕ) (messages : List Message) (k : ℕ)
      → k ≤ n
      → m < fuel + k
      → 0 < fuel
      → Leads (At k m) (rounds p fuel started messages) (λ o _. Finished n o) (Within n)
  unfolding rounds
  rounds-Finished zero started messages k le lt some_left = absurd (omega arith)
  rounds-Finished (suc fuel) started messages k le lt some_left =
      Leads-bind (Went n k m) _ _ (round-Went p n k m le top started messages) (λ flow.
        next_lem (rounds p fuel started) k flow (λ ms below.
          rounds-Finished fuel started ms (suc k) (omega arith) (omega arith) (omega arith)))

  agent_loop-Finished :
      (k : ℕ) → k ≤ n → Leads (At k m) (agent_loop p) (λ o _. Finished n o) (Within n)
  unfolding agent_loop
  agent_loop-Finished k le =
      let w = At-Within p n k m le in
      let q = At-IsSteady k m in
      keep_bind _ _ w (build_messages-Keeps p) (λ messages.
        keep_then _ _ w (steady_ctx q p _ (λ c. refl) (λ c. refl)) (
          keep_then _ _ w (save-Keeps (about _ q) p) (
            keep_bind _ _ w (Keeps-ask _) (λ started. Leads-read _ _ (λ d h.
              subst
                (λ x.
                  Leads (At k m) (rounds p (suc x) started messages) (λ o _. Finished n o)
                    (Within n))
                (sym h.1)
                (rounds-Finished (suc m) started messages k le (omega arith) (omega arith)))))))

module _ (p : Ports) (n : ℕ) where
  abbrev Answers : Result RunError (Option Task) × Desk → Type 0
  Answers r = Reached (λ o _. Finished n o) (λ _. ⊥) r

  failed_lem :
      (m : Run Task) (d : Desk)
      → Reached (λ t _. IsEnd n t) (Within n) (m d)
      → Answers ((attempted m >>= failed_anyway p) d)
  unfolding ◌>>=◌ attempted is_terminal pure reads
  failed_lem m d h = result_lem (m d) h
    where
      result_lem :
          (r : Result RunError Task × Desk)
          → Reached (λ t _. IsEnd n t) (Within n) r
          → Answers (failed_anyway p r.0 r.1)
      result_lem (ok task, e) i = (task, (refl, i))
      result_lem (err x, e) i =
          (record e.ctx.task { status = TaskStatus.failed }, (refl, (refl, i)))

  caught_lem :
      (m : Run (Option Task)) (d : Desk)
      → Reached (λ o _. Finished n o) (Within n) (m d)
      → Answers ((attempted m >>= caught p) d)
  unfolding ◌>>=◌ attempted pure reads
  caught_lem m d h = result_lem (m d) h
    where
      result_lem :
          (r : Result RunError (Option Task) × Desk)
          → Reached (λ o _. Finished n o) (Within n) r
          → Answers (caught p r.0 r.1)
      result_lem (ok o, e) i = i
      result_lem (err x, e) i =
          failed_lem (fail p (run_error e.ctx.task.task_no (p.error_text x))) e
            ((fail-IsEnd p n e.ctx.task.steps e.ctx.task.max_steps i _).at e (refl, refl))

  run_caught-Answers :
      (d : Desk) → d.ctx.task.steps ≤ n → d.ctx.task.max_steps ≤ n → Answers (run_caught p d)
  unfolding run_caught
  run_caught-Answers d le top =
      caught_lem (agent_loop p) d
        ((agent_loop-Finished p n d.ctx.task.max_steps top d.ctx.task.steps le).at d (refl, refl))

  taken_lem :
      (id : String) (r : Result RunError (Option Task) × Desk)
      → Answers r
      → Finished n (taken_down p id r).0
  taken_lem id (ok o, d) h = h
  taken_lem id (err e, d) h = absurd h

  run-Finished :
      (task : Task) (session : Session) (initiator : Option String) (w : World)
      → task.steps ≤ n
      → task.max_steps ≤ n
      → Finished n (run p task session initiator w).0
  unfolding run
  run-Finished task session initiator w le top = taken_lem task.id _ (run_caught-Answers _ le top)

-- Whatever the store, the evidence writer, the platform, the model, the gateway and the sandbox
-- answer, a run comes to its end: it returns a task, and its status is final.
pub run-IsTerminal :
    (p : Ports) (task : Task) (session : Session) (initiator : Option String) (w : World)
    → (t : Task) × (((run p task session initiator w).0 ≡ some t) × (is_terminal t.status ≡ true))
run-IsTerminal p task session initiator w =
    let (t, h) =
      run-Finished p (task.steps + task.max_steps) task session initiator w (omega arith)
        (omega arith) in
    (t, (h.0, h.1.0))

-- Whatever is answered to it, a run of a task whose steps are within their limit returns a task
-- whose steps are within that limit: each step is one call of the model that got a turn.
pub run_max_steps :
    (p : Ports) (task : Task) (session : Session) (initiator : Option String) (w : World)
    → task.steps ≤ task.max_steps
    → (t : Task) × (((run p task session initiator w).0 ≡ some t) × (t.steps ≤ task.max_steps))
run_max_steps p task session initiator w h =
    let (t, i) = run-Finished p task.max_steps task session initiator w h (omega arith) in
    (t, (i.0, i.1.1))
