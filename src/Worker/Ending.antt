-- ===== src/Worker/Ending.antt =====
-- Every run ends, with a task whose status is final and whose steps are within their limit.
-- A task within the limit `n` of steps, and one that has ended there.
use aite.Base.{ℕ, ◌≤◌, String, ◌≡◌, refl, sym, ap, subst, ◌∙◌, Bool, true, List}
use aite.Contracts.Evidence.{EvidenceKind, Members}
use aite.Contracts.Protocol.{CardStatus}
use aite.Contracts.Session.{Task, TaskStatus, is_terminal}
use aite.Control.Races.{steps}
use aite.Worker.Desk.{Ports}
use aite.Worker.Finish.{cancel, deliver, end_with, fail}
use aite.Worker.Frame.{
  IsAbout, IsSteady, Keeps-act, Keeps-reads, about, close_card-Keeps, finish_run-Keeps, keeps_rules,
  record_event-Keeps, save-Keeps,
}
use aite.Worker.Frame.Ends.{append_assistant_turn-Keeps, send_artifacts-Keeps}
use aite.Worker.Frame.Tools.{steady_task}
use aite.Worker.Leads.{Leads, Leads-on_task, Leads-reads, keep_bind, keep_then}

abbrev pub Within : ℕ → Task → Type 0
Within n t = t.steps ≤ n

abbrev pub IsEnd : ℕ → Task → Type 0
IsEnd n t = (is_terminal t.status ≡ true) × (t.steps ≤ n)

abbrev pub At : ℕ → ℕ → Task → Type 0
At k m t = (t.steps ≡ k) × (t.max_steps ≡ m)

abbrev Has : TaskStatus → ℕ → Task → Type 0
Has s k t = (t.status ≡ s) × (t.steps ≡ k)

pub At-IsSteady : (k m : ℕ) → IsSteady (At k m)
At-IsSteady k m t u steps limit h = (sym steps ∙ h.0, sym limit ∙ h.1)

Has-IsAbout : (s : TaskStatus) (k : ℕ) → IsAbout (Has s k)
Has-IsAbout s k t u steps limit status h = (sym status ∙ h.0, sym steps ∙ h.1)

module _ (p : Ports) (n : ℕ) where
  module _ (s : TaskStatus) (k : ℕ) (final : is_terminal s ≡ true) (le : k ≤ n) where
    within : (t : Task) → Has s k t → Within n t
    within t h = subst (λ x. x ≤ n) (sym h.1) le

    end_with-IsEnd :
        (status : CardStatus) (kind : EvidenceKind) (payload : Task → Members)
        → Leads (Has s k) (end_with p status kind payload) (λ t _. IsEnd n t) (Within n)
    end_with-IsEnd status kind payload =
        keep_then _ _ within (close_card-Keeps (Has-IsAbout s k) p status) (
          keep_bind _ _ within (Keeps-reads _) (λ t.
            keep_then _ _ within (record_event-Keeps kind _) (
              keep_then _ _ within (finish_run-Keeps (Has-IsAbout s k) p)
                (Leads-reads _ (λ d h. (ap is_terminal h.0 ∙ final, within d.ctx.task h))))))

  module _ (k m : ℕ) (le : k ≤ n) where
    pub At-Within : (t : Task) → At k m t → Within n t
    At-Within t h = subst (λ x. x ≤ n) (sym h.0) le

    pub fail-IsEnd : (text : String) → Leads (At k m) (fail p text) (λ t _. IsEnd n t) (Within n)
    unfolding fail is_terminal
    fail-IsEnd text =
        Leads-on_task (Has TaskStatus.failed k) _ _ (λ t h. (refl, h.0))
          (keep_bind _ _ (within TaskStatus.failed k refl le) (Keeps-reads _) (λ s.
            keep_then _ _ (within TaskStatus.failed k refl le) (search keeps_rules)
              (end_with-IsEnd TaskStatus.failed k refl le _ _ _)))

    pub cancel-IsEnd : Leads (At k m) (cancel p) (λ t _. IsEnd n t) (Within n)
    unfolding cancel is_terminal
    cancel-IsEnd =
        Leads-on_task (Has TaskStatus.cancelled k) _ _ (λ t h. (refl, h.0))
          (end_with-IsEnd TaskStatus.cancelled k refl le _ _ _)

    pub deliver-IsEnd :
        (answer : String) (artifacts : List Members) (answering : Bool)
        → Leads (At k m) (deliver p answer artifacts answering) (λ t _. IsEnd n t) (Within n)
    unfolding deliver is_terminal
    deliver-IsEnd answer artifacts answering =
        let q = At-IsSteady k m in
        keep_then _ _ At-Within (steady_task q p _ (λ t. refl) (λ t. refl)) (
          keep_then _ _ At-Within (save-Keeps (about _ q) p) (
            keep_bind _ _ At-Within (send_artifacts-Keeps q p artifacts) (λ out.
              keep_bind _ _ At-Within (Keeps-reads _) (λ s. keep_then _ _ At-Within (Keeps-act _) (
                keep_then _ _ At-Within (append_assistant_turn-Keeps p _ s _) (
                  Leads-on_task (Has TaskStatus.delivered k) _ _ (λ t h. (refl, h.0))
                    (end_with-IsEnd TaskStatus.delivered k refl le _ _ _)))))))
