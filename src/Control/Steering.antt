-- ===== src/Control/Steering.antt =====
-- The choice of the task that a follow-up is steered to.
-- In the list: every test that holds of it holds of `any` task of the list.
use aite.Base.{
  Bool-cases, if◌then◌else◌, keep, All, any, latest-Holds, latest, IsLatest, latest-IsLatest, Holds,
  key_leb, All-imp, String, ◌≡◌, refl, sym, subst, inl, inr, Bool, true, false, not, ◌&&◌, ◌||◌,
  Option, none, some, List, [], ◌∷◌, arith,
}
use aite.Contracts.Session.{Task}
use aite.Control.Dispatch.{pool_of, steer_key, steer_target}
use aite.Control.Plane.{has}

abbrev pub IsIn : List Task → Task → Type 0
IsIn active t = (p : Task → Bool) → p t ≡ true → any p active ≡ true

abbrev pub IsPool : List Task → List String → List String → Task → Type 0
IsPool active owned running t =
    IsIn active t
    × (has owned t.id ≡ true)
    × (any (λ u. has owned u.id && has running u.id) active ≡ true → has running t.id ≡ true)

abbrev pub IsTarget : List Task → List String → List String → Option Task → Type 0
IsTarget active owned running none = any (λ t. has owned t.id) active ≡ false
IsTarget active owned running (some t) =
    IsPool active owned running t
    × All
        (λ u.
          (has owned u.id && (has running u.id || not (has running t.id))) ≡ true
          → key_leb (steer_key u) (steer_key t) ≡ true)
        active

module _ {A : Type 0} (p : A → Bool) where
  All-keep : (P : A → Type 0) (xs : List A) → All P (keep p xs) → All (λ x. p x ≡ true → P x) xs
  All-keep P [] h = tt
  All-keep P (x ∷ xs) h = elim (Bool-cases (p x)) [
    | inl e ↦
        let (hx, hs) = subst (λ b. All P (if b then x ∷ keep p xs else keep p xs)) e h in
        ((λ k. hx), All-keep P xs hs)
    | inr e ↦
        ((λ k. cc), All-keep P xs (subst (λ b. All P (if b then x ∷ keep p xs else keep p xs)) e h))
  ]

  keep-All : (xs : List A) → All (λ x. p x ≡ true) (keep p xs)
  keep-All [] = tt
  keep-All (x ∷ xs) = elim (Bool-cases (p x)) [
    | inl e ↦ rw e (e, keep-All xs)
    | inr e ↦ rw e (keep-All xs)
  ]

All-kept : {A : Type 0} (p : A → Bool) (P : A → Type 0) (xs : List A) → All P xs → All P (keep p xs)
All-kept p P [] h = tt
All-kept p P (x ∷ xs) (h, hs) = elim (Bool-cases (p x)) [
  | inl e ↦ rw e (h, All-kept p P xs hs)
  | inr e ↦ rw e (All-kept p P xs hs)
]

any-keep :
    {A : Type 0} (p q : A → Bool) (xs : List A) → any q (keep p xs) ≡ any (λ x. p x && q x) xs
any-keep p q [] = refl
any-keep p q (x ∷ xs) = ground (arith, any-keep p q xs)

keep-nil : {A : Type 0} (p : A → Bool) (xs : List A) → keep p xs ≡ [] → any p xs ≡ false
keep-nil p [] h = refl
keep-nil p (x ∷ xs) h = ground (arith, keep-nil p xs)

All-and :
    {A : Type 0} (P Q : A → Type 0) (xs : List A) → All P xs → All Q xs → All (λ x. P x × Q x) xs
All-and P Q [] h k = tt
All-and P Q (x ∷ xs) (h, hs) (k, ks) = ((h, k), All-and P Q xs hs ks)

All-IsIn : (xs : List Task) → All (IsIn xs) xs
All-IsIn [] = tt
All-IsIn (x ∷ xs) = (
  (λ p h. rw h refl),
  All-imp (IsIn xs) (IsIn (x ∷ xs)) (λ u f p h. ground (arith, f p h)) xs (All-IsIn xs),
)

module _ (active : List Task) (owned running : List String) where
  abbrev is_owned : Task → Bool
  is_owned t = has owned t.id

  abbrev is_running : Task → Bool
  is_running t = has running t.id

  abbrev held : List Task
  held = keep is_owned active

  abbrev IsHeld : Task → Type 0
  IsHeld t = IsIn active t × (is_owned t ≡ true)

  held-IsHeld : All IsHeld held
  held-IsHeld =
      All-and (IsIn active) (λ t. is_owned t ≡ true) held
        (All-kept is_owned (IsIn active) active (All-IsIn active)) (keep-All is_owned active)

  abbrev NotAfter : Task → Task → Type 0
  NotAfter t u = key_leb (steer_key u) (steer_key t) ≡ true

  abbrev Rival : Task → Task → Type 0
  Rival t u = (is_owned u && (is_running u || not (is_running t))) ≡ true → NotAfter t u

  -- No held task runs.
  idle-IsTarget :
      (o : Option Task)
      → any is_running held ≡ false
      → IsLatest steer_key held o
      → Holds steer_key IsHeld o
      → IsTarget active owned running o
  idle-IsTarget none idle last q = keep-nil is_owned active last
  idle-IsTarget (some t) idle last q = (
    (q.0, q.1, λ busy. cc (busy, any-keep is_owned is_running active, idle)),
    All-imp (λ u. is_owned u ≡ true → NotAfter t u) (Rival t) (λ u f e. f (ground arith)) active
        (All-keep is_owned (NotAfter t) active last),
  )

  -- The latest of some held tasks that run.
  busy-IsTarget :
      (t : Task)
      → All (NotAfter t) (keep is_running held)
      → IsHeld t
      → is_running t ≡ true
      → IsTarget active owned running (some t)
  busy-IsTarget t last q r = (
    (q.0, q.1, λ busy. r),
    All-imp (λ u. is_owned u ≡ true → is_running u ≡ true → NotAfter t u) (Rival t)
        (λ u f e. f (ground arith) (ground arith)) active
        (All-keep is_owned (λ u. is_running u ≡ true → NotAfter t u) active
          (All-keep is_running (NotAfter t) held last)),
  )

  busy_or_none :
      (b : Task) (bs : List Task) (o : Option Task)
      → keep is_running held ≡ b ∷ bs
      → IsLatest steer_key (b ∷ bs) o
      → Holds steer_key IsHeld o
      → Holds steer_key (λ t. is_running t ≡ true) o
      → IsTarget active owned running o
  busy_or_none b bs none e last q r = cc
  busy_or_none b bs (some t) e last q r =
      busy-IsTarget t (subst (All (NotAfter t)) (sym e) last) q r

  of_pool :
      (busy : List Task)
      → keep is_running held ≡ busy
      → IsTarget active owned running (latest steer_key (pool_of held busy))
  of_pool [] e =
      idle-IsTarget (latest steer_key held) (keep-nil is_running held e)
        (latest-IsLatest steer_key held) (latest-Holds steer_key IsHeld held held-IsHeld)
  of_pool (b ∷ bs) e =
      busy_or_none b bs (latest steer_key (b ∷ bs)) e (latest-IsLatest steer_key (b ∷ bs))
        (latest-Holds steer_key IsHeld (b ∷ bs)
          (subst (All IsHeld) e (All-kept is_running IsHeld held held-IsHeld)))
        (latest-Holds steer_key (λ t. is_running t ≡ true) (b ∷ bs)
          (subst (All (λ t. is_running t ≡ true)) e (keep-All is_running held)))

-- `steer_target` answers nothing only if this process holds no task of the list. Otherwise its
-- answer is a held task of the list; it runs if any held task of the list does; and of the held tasks (those that run,
-- if the answer runs) none comes after it in the order of creation time and id.
pub steer_target-IsTarget :
    (active : List Task) (owned running : List String)
    → IsTarget active owned running (steer_target active owned running)
unfolding steer_target
steer_target-IsTarget active owned running =
    of_pool active owned running (keep (λ t. has running t.id) (held active owned running)) refl
