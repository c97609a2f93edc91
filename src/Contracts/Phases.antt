-- ===== src/Contracts/Phases.antt =====
-- The phases of a task, in words: the groups of statuses that session.rs and the store's constants
-- (core/crates/store/src/lib.rs) list.
use aite.Base.{Decides, ◌≡◌, refl, ◌⊎◌, inl, inr, arith}
use aite.Contracts.Session.{TaskStatus, is_active}

-- `ACTIVE_TASK_STATUSES`
abbrev pub IsActive : TaskStatus → Type 0
IsActive s = (s ≡ TaskStatus.created) ⊎ ((s ≡ TaskStatus.planning) ⊎ (s ≡ TaskStatus.working))

-- What a restart of the process leaves behind.
abbrev pub IsOrphan : TaskStatus → Type 0
IsOrphan s =
    (s ≡ TaskStatus.created)
    ⊎ ((s ≡ TaskStatus.planning) ⊎ ((s ≡ TaskStatus.answering) ⊎ (s ≡ TaskStatus.working)))

pub is_active-Decides : (s : TaskStatus) → Decides (is_active s) (IsActive s)
unfolding is_active
is_active-Decides TaskStatus.created = inl (refl, inl refl)
is_active-Decides TaskStatus.planning = inl (refl, inr (inl refl))
is_active-Decides TaskStatus.working = inl (refl, inr (inr refl))
is_active-Decides TaskStatus.answering = inr (refl, λ h. ground arith)
is_active-Decides TaskStatus.awaiting_approval = inr (refl, λ h. ground arith)
is_active-Decides TaskStatus.delivered = inr (refl, λ h. ground arith)
is_active-Decides TaskStatus.failed = inr (refl, λ h. ground arith)
is_active-Decides TaskStatus.cancelled = inr (refl, λ h. ground arith)
