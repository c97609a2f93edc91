-- ===== src/Gateway/Sandboxes.antt =====
-- core/crates/gateway/src/gateway.rs (`Inner`) and tools/mod.rs (`rebuild_sandbox`): the account of
-- sandboxes. The port to the sandboxes is a parameter; what other calls do to the account while one
-- waits for the lock of its key is an argument.
use aite.Base.{if◌then◌else◌, keep, any, render, String, not, Option, none, some, List, [], ◌∷◌}
use aite.Base.Exec.{Result, err, ok}
use aite.Contracts.Protocol.{ToolErrorCode}
use aite.Gateway.Registry.{Inner, SandboxKey, ToolFailure, failure, is_same_key}

pub record SandboxPort (W : Type 0) : Type 0 where
  pub acquire : String → W → Result String String × W
  pub release : String → W → Result String (Unit {0}) × W

abbrev pub id_of : SandboxKey → List (SandboxKey × String) → Option String
id_of key [] = none
id_of key ((k, id) ∷ ids) = if is_same_key k key then some id else id_of key ids

abbrev pub without_key : SandboxKey → List (SandboxKey × String) → List (SandboxKey × String)
without_key key [] = []
without_key key ((k, id) ∷ ids) =
    let rest = without_key key ids in if is_same_key k key then rest else (k, id) ∷ rest

-- `HashMap::insert`
abbrev pub with_id : SandboxKey → String → List (SandboxKey × String) → List (SandboxKey × String)
with_id key id ids = (key, id) ∷ without_key key ids

module _ {W : Type 0} where
  unfoldable pub current_sandbox_id : SandboxKey → Inner W → Option String
  unfolding is_same_key
  current_sandbox_id key inner = id_of key inner.sandbox_ids

  unfoldable pub forget_sandbox : SandboxKey → Inner W → Option String × Inner W
  unfolding current_sandbox_id is_same_key
  forget_sandbox key inner = (
    current_sandbox_id key inner,
    record inner { sandbox_ids = without_key key inner.sandbox_ids },
  )

  unfoldable pub locked : SandboxKey → Inner W → Inner W
  unfolding is_same_key
  locked key inner =
      if any (λ k. is_same_key k key) inner.acquire_locks
      then inner
      else record inner { acquire_locks = key ∷ inner.acquire_locks }

  -- Behind the lock: the second look, and else a new sandbox.
  unfoldable pub acquired :
      SandboxKey → Inner W → Result String String × W → Result ToolFailure String × Inner W
  unfolding is_same_key
  acquired key inner (ok id, outside) =
      (ok id, record inner { outside = outside; sandbox_ids = with_id key id inner.sandbox_ids })
  acquired key inner (err e, outside) =
      (err (failure ToolErrorCode.sandbox e), record inner { outside = outside })

  unfoldable pub acquire_locked :
      SandboxPort W
      → SandboxKey
      → String
      → Option String
      → Inner W
      → Result ToolFailure String × Inner W
  unfolding acquired
  acquire_locked port key task_id (some existing) inner = (ok existing, inner)
  acquire_locked port key task_id none inner =
      acquired key inner (port.acquire task_id inner.outside)

  unfoldable pub acquire_with :
      Option (SandboxPort W)
      → (Inner W → Inner W)
      → SandboxKey
      → String
      → Inner W
      → Result ToolFailure String × Inner W
  unfolding acquire_locked locked current_sandbox_id
  acquire_with none others key task_id inner =
      (err (failure ToolErrorCode.sandbox "本次运行没有可用沙箱"), inner)
  acquire_with (some port) others key task_id inner =
      let waited = others (locked key inner) in
      acquire_locked port key task_id (current_sandbox_id key waited) waited

  unfoldable pub acquire_sandbox :
      Option (SandboxPort W)
      → (Inner W → Inner W)
      → SandboxKey
      → String
      → Inner W
      → Result ToolFailure String × Inner W
  unfolding acquire_with current_sandbox_id
  acquire_sandbox port others key task_id inner =
      let fresh = acquire_with port others key task_id inner in
      elim (current_sandbox_id key inner) [ some existing ↦ (ok existing, inner) | none ↦ fresh ]

  abbrev rebuilt : Result ToolFailure String × Inner W → Result ToolFailure String × Inner W
  rebuilt (ok id, inner) = (ok id, inner)
  rebuilt (err e, inner) =
      (err (failure ToolErrorCode.sandbox (render ("沙箱没了，重建也没成：" ∷ e.message ∷ []))), inner)

  unfoldable pub rebuild_sandbox :
      Option (SandboxPort W)
      → (Inner W → Inner W)
      → SandboxKey
      → String
      → Inner W
      → Result ToolFailure String × Inner W
  unfolding acquire_sandbox forget_sandbox
  rebuild_sandbox port others key task_id inner =
      rebuilt (acquire_sandbox port others key task_id (forget_sandbox key inner).1)

  -- What `release_task` does to the account; a release that fails is only logged.
  unfoldable pub released : Option (SandboxPort W) → Option String → Inner W → Inner W
  released (some port) (some id) inner = record inner {
    outside = (port.release id inner.outside).1;
  }
  released none id inner = inner
  released (some port) none inner = inner

  unfoldable pub release_account : Option (SandboxPort W) → SandboxKey → Inner W → Inner W
  unfolding released forget_sandbox is_same_key
  release_account port key inner =
      let unlocked : Inner W = record inner {
        acquire_locks = keep (λ k. not (is_same_key k key)) inner.acquire_locks;
      } in
      let (id, forgotten) = forget_sandbox key unlocked in released port id forgotten
