-- ===== src/Base/Picking.antt =====
-- What it is for one list to be picked, arranged or made from another: the words in which the
-- theorems on queries speak of rows.
use Prim.Native.String.{String}
use Prim.Native.Nat.{ℕ}
use mathlib.Core.Path.{◌≡◌, refl}
use mathlib.Core.Logic.{◌⊎◌, inl, inr}
use mathlib.Core.Bool.{Bool, true, false, ◌&&◌}
use mathlib.Core.List.{List, [], ◌∷◌, map, Mem, mem-cons_self, mem-cons_of_mem}
use mathlib.Core.List.{Perm}
use mathlib.Core.List.Perm as Perm
use native.Mathlib.Omega.{arith}
use text.Mathlib.Text.{◌==◌}
use text.Mathlib.TextEquality.{eq_iff}
use aite.Base.Tests.{Bool-cases}
use aite.Base.Lists.{All, any, keep}
use aite.Base.Order.{key_leb, insert_by, sort_by, latest, Holds, latest-Holds}

-- A test that decides a property.
abbrev pub Decides : Bool → Type 0 → Type 0
Decides b P = (b ≡ true × P) ⊎ (b ≡ false × ¬ P)

pub eq-Decides : (a b : String) → Decides (a == b) (a ≡ b)
eq-Decides a b = elim (Bool-cases (a == b)) [
  | inl e ↦ inl (e, (eq_iff a b).0 e)
  | inr e ↦ inr (e, λ h. ground (arith, (eq_iff a b).1 h))
]

pub and-Decides : (a b : Bool) (P Q : Type 0) → Decides a P → Decides b Q → Decides (a && b) (P × Q)
and-Decides a b P Q (inl (e, p)) (inl (f, q)) = inl (ground arith, (p, q))
and-Decides a b P Q (inl (e, p)) (inr (f, n)) = inr (ground arith, λ h. n h.1)
and-Decides a b P Q (inr (e, n)) d = inr (ground arith, λ h. n h.0)

module _ {A : Type 0} where
  -- A property of some entry.
  abbrev pub Some : (A → Type 0) → List A → Type 0
  Some P [] = ⊥
  Some P (x ∷ xs) = P x ⊎ Some P xs

  pub any-Decides :
      (p : A → Bool) (P : A → Type 0)
      → ((x : A) → Decides (p x) (P x))
      → (xs : List A) → Decides (any p xs) (Some P xs)
  any-Decides p P d [] = inr (refl, λ h. h)
  any-Decides p P d (x ∷ xs) = elim (d x) [
    | inl (e, h) ↦ inl (ground arith, inl h)
    | inr (e, n) ↦ elim (any-Decides p P d xs) [
      | inl (f, h) ↦ inl (ground arith, inr h)
      | inr (f, m) ↦ inr (ground arith, λ h. elim h [ inl q ↦ n q | inr q ↦ m q ])
    ]
  ]

module _ {A : Type 0} where
  -- The entries of which a property holds, each as often as it stands there, in their order.
  abbrev pub Picked : (A → Type 0) → List A → List A → Type 0
  Picked P [] ys = ys ≡ []
  Picked P (x ∷ xs) ys =
      (P x × (zs : List A) × (ys ≡ x ∷ zs) × Picked P xs zs) ⊎ (¬ P x × Picked P xs ys)

  pub keep-Picked :
      (p : A → Bool) (P : A → Type 0)
      → ((x : A) → Decides (p x) (P x))
      → (xs : List A) → Picked P xs (keep p xs)
  keep-Picked p P d [] = refl
  keep-Picked p P d (x ∷ xs) = elim (d x) [
    | inl (e, h) ↦ rw (e, keep) (inl (h, keep p xs, refl, keep-Picked p P d xs))
    | inr (e, h) ↦ rw (e, keep) (inr (h, keep-Picked p P d xs))
  ]

  pub All-imp : (P Q : A → Type 0) → ((x : A) → P x → Q x) → (xs : List A) → All P xs → All Q xs
  All-imp P Q f [] h = tt
  All-imp P Q f (x ∷ xs) (h, hs) = (f x h, All-imp P Q f xs hs)

  All-Mem : (xs : List A) → All (λ x. Mem x xs) xs
  All-Mem [] = tt
  All-Mem (x ∷ xs) = (mem-cons_self, All-imp _ _ (λ y m. mem-cons_of_mem x m) xs (All-Mem xs))

  module _ (key : A → ℕ × String) where
    pub latest-Mem : (xs : List A) → Holds key (λ a. Mem a xs) (latest key xs)
    latest-Mem xs = latest-Holds key (λ a. Mem a xs) xs (All-Mem xs)

    insert_by-Perm : (a : A) (bs : List A) → Perm (insert_by key a bs) (a ∷ bs)
    unfolding insert_by
    insert_by-Perm a [] = Perm.refl (a ∷ [])
    insert_by-Perm a (b ∷ bs) = elim (Bool-cases (key_leb (key a) (key b))) [
      | inl e ↦ rw e (Perm.refl (a ∷ b ∷ bs))
      | inr e ↦ rw e (Perm.trans (Perm.cons b (insert_by-Perm a bs)) (Perm.swap a b bs))
    ]

    pub sort_by-Perm : (xs : List A) → Perm (sort_by key xs) xs
    unfolding sort_by
    sort_by-Perm [] = Perm.refl []
    sort_by-Perm (x ∷ xs) =
        Perm.trans (insert_by-Perm x (sort_by key xs)) (Perm.cons x (sort_by-Perm xs))

-- Entry by entry, and as many.
module _ {A B : Type 0} where
  abbrev pub Pairs : (A → B → Type 0) → List A → List B → Type 0
  Pairs R [] [] = Unit
  Pairs R (x ∷ xs) (y ∷ ys) = R x y × Pairs R xs ys
  Pairs R _ _ = ⊥

  pub map-Pairs :
      (R : A → B → Type 0) (f : A → B)
      → ((x : A) → R x (f x))
      → (xs : List A) → Pairs R xs (map f xs)
  map-Pairs R f h [] = tt
  map-Pairs R f h (x ∷ xs) = (h x, map-Pairs R f h xs)
