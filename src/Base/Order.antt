-- ===== src/Base/Order.antt =====
-- The order of texts by code point (which is SQLite's and Rust's order of UTF-8 bytes), the order
-- of rows by a time and a text, and sorting by it.
use Prim.Native.Nat.{ℕ}
use Prim.Native.Char.{code}
use Prim.Native.String.{String}
use mathlib.Core.Path.{◌≡◌, refl, sym, subst}
use mathlib.Core.Logic.{inl, inr}
use mathlib.Core.Bool.{Bool, true, false, ◌||◌}
use mathlib.Core.List.{List, [], ◌∷◌}
use mathlib.Core.Option.{Option, none, some}
use native.Mathlib.Omega.{arith}
use aite.Base.Tests.{if◌then◌else◌, ltb, Bool-cases}
use aite.Base.Lists.{All, any}

abbrev pub code_points : String → List ℕ
code_points String.[] = []
code_points (String.◌∷◌ c s) = code c ∷ code_points s

unfoldable pub lex_leb : List ℕ → List ℕ → Bool
lex_leb [] ys = true
lex_leb (x ∷ xs) [] = false
lex_leb (x ∷ xs) (y ∷ ys) =
    let rest = lex_leb xs ys in if ltb x y then true else if ltb y x then false else rest

-- (created_at, id) before or at (created_at, id).
unfoldable pub key_leb : ℕ × String → ℕ × String → Bool
key_leb (t, s) (u, r) =
    if ltb t u then true else if ltb u t then false else lex_leb (code_points s) (code_points r)

lex_leb_total : (xs ys : List ℕ) → lex_leb xs ys ≡ false → lex_leb ys xs ≡ true
unfolding lex_leb
lex_leb_total [] ys h = cc
lex_leb_total (x ∷ xs) [] h = refl
lex_leb_total (x ∷ xs) (y ∷ ys) h = ground (arith, lex_leb_total xs ys)

lex_leb_trans :
    (xs ys zs : List ℕ) → lex_leb xs ys ≡ true → lex_leb ys zs ≡ true → lex_leb xs zs ≡ true
unfolding lex_leb
lex_leb_trans [] ys zs h k = refl
lex_leb_trans (x ∷ xs) [] zs h k = cc
lex_leb_trans (x ∷ xs) (y ∷ ys) [] h k = cc
lex_leb_trans (x ∷ xs) (y ∷ ys) (z ∷ zs) h k = ground (arith, lex_leb_trans xs ys zs)

pub key_leb_total : (k j : ℕ × String) → key_leb k j ≡ false → key_leb j k ≡ true
unfolding key_leb
key_leb_total (t, s) (u, r) h = ground (arith, lex_leb_total (code_points s) (code_points r))

pub key_leb_trans :
    (k j l : ℕ × String) → key_leb k j ≡ true → key_leb j l ≡ true → key_leb k l ≡ true
unfolding key_leb
key_leb_trans (t, s) (u, r) (v, q) h k =
    ground (arith, lex_leb_trans (code_points s) (code_points r) (code_points q))

module _ {A : Type 0} (key : A → ℕ × String) where
  unfoldable pub insert_by : A → List A → List A
  insert_by a [] = a ∷ []
  insert_by a (b ∷ bs) =
      let rest = insert_by a bs in if key_leb (key a) (key b) then a ∷ b ∷ bs else b ∷ rest

  -- ORDER BY the key, ascending.
  unfoldable pub sort_by : List A → List A
  unfolding insert_by
  sort_by [] = []
  sort_by (a ∷ xs) = insert_by a (sort_by xs)

  abbrev pub IsSorted : List A → Type 0
  IsSorted [] = Unit
  IsSorted (a ∷ xs) = All (λ b. key_leb (key a) (key b) ≡ true) xs × IsSorted xs

  any-insert_by : (p : A → Bool) (a : A) (bs : List A) → any p (insert_by a bs) ≡ (p a || any p bs)
  unfolding insert_by
  any-insert_by p a [] = refl
  any-insert_by p a (b ∷ bs) = ground (arith, any-insert_by p a bs)

  -- Sorting keeps the entries.
  pub any-sort_by : (p : A → Bool) (xs : List A) → any p (sort_by xs) ≡ any p xs
  unfolding sort_by
  any-sort_by p [] = refl
  any-sort_by p (a ∷ xs) = ground (arith, any-insert_by p a (sort_by xs), any-sort_by p xs)

  All-insert_by : (P : A → Type 0) (a : A) (bs : List A) → P a → All P bs → All P (insert_by a bs)
  unfolding insert_by
  All-insert_by P a [] p ps = (p, tt)
  All-insert_by P a (b ∷ bs) p (q, ps) = elim (Bool-cases (key_leb (key a) (key b))) [
    | inl e ↦ rw e (p, (q, ps))
    | inr e ↦ rw e (q, All-insert_by P a bs p ps)
  ]

  All-leb :
      (a b : A) (xs : List A)
      → key_leb (key a) (key b) ≡ true
      → All (λ c. key_leb (key b) (key c) ≡ true) xs
      → All (λ c. key_leb (key a) (key c) ≡ true) xs
  All-leb a b [] h ps = tt
  All-leb a b (c ∷ xs) h (p, ps) = (key_leb_trans (key a) (key b) (key c) h p, All-leb a b xs h ps)

  insert_by-IsSorted : (a : A) (bs : List A) → IsSorted bs → IsSorted (insert_by a bs)
  unfolding insert_by
  insert_by-IsSorted a [] s = (tt, tt)
  insert_by-IsSorted a (b ∷ bs) (p, s) = elim (Bool-cases (key_leb (key a) (key b))) [
    | inl e ↦ rw e ((e, All-leb a b bs e p), (p, s))
    | inr e ↦
        rw e (All-insert_by _ a bs (key_leb_total (key a) (key b) e) p, insert_by-IsSorted a bs s)
  ]

  pub sort_by-IsSorted : (xs : List A) → IsSorted (sort_by xs)
  unfolding sort_by
  sort_by-IsSorted [] = tt
  sort_by-IsSorted (a ∷ xs) = insert_by-IsSorted a (sort_by xs) (sort_by-IsSorted xs)

  pub later : A → A → A
  later a b = if key_leb (key a) (key b) then b else a

  later_right : (a b : A) → key_leb (key a) (key b) ≡ true → later a b ≡ b
  unfolding later
  later_right a b e = rw e

  later_left : (a b : A) → key_leb (key a) (key b) ≡ false → later a b ≡ a
  unfolding later
  later_left a b e = rw e

  -- The entry with the greatest key; `Iterator::max_by`, ORDER BY … DESC LIMIT 1.
  unfoldable pub latest : List A → Option A
  unfolding later
  latest [] = none
  latest (a ∷ xs) = elim (latest xs) [ none ↦ some a | some b ↦ some (later a b) ]

  abbrev pub IsLatest : List A → Option A → Type 0
  IsLatest xs none = xs ≡ []
  IsLatest xs (some a) = All (λ b. key_leb (key b) (key a) ≡ true) xs

  All-geb :
      (a b : A) (xs : List A)
      → key_leb (key a) (key b) ≡ true
      → All (λ c. key_leb (key c) (key a) ≡ true) xs
      → All (λ c. key_leb (key c) (key b) ≡ true) xs
  All-geb a b [] h ps = tt
  All-geb a b (c ∷ xs) h (p, ps) = (key_leb_trans (key c) (key a) (key b) p h, All-geb a b xs h ps)

  key_leb_self : (a : A) → key_leb (key a) (key a) ≡ true
  key_leb_self a = elim (Bool-cases (key_leb (key a) (key a))) [
    | inl e ↦ e
    | inr e ↦ key_leb_total (key a) (key a) e
  ]

  later-IsLatest :
      (a : A) (xs : List A) (o : Option A)
      → IsLatest xs o
      → IsLatest (a ∷ xs) (elim o [ none ↦ some a | some b ↦ some (later a b) ])
  later-IsLatest a xs none h = rw h (key_leb_self a, tt)
  later-IsLatest a xs (some b) h = elim (Bool-cases (key_leb (key a) (key b))) [
    | inl e ↦ subst (λ c. IsLatest (a ∷ xs) (some c)) (sym (later_right a b e)) (e, h)
    | inr e ↦
        subst (λ c. IsLatest (a ∷ xs) (some c)) (sym (later_left a b e))
          (key_leb_self a, All-geb b a xs (key_leb_total (key a) (key b) e) h)
  ]

  pub latest-IsLatest : (xs : List A) → IsLatest xs (latest xs)
  unfolding latest
  latest-IsLatest [] = refl
  latest-IsLatest (a ∷ xs) = later-IsLatest a xs (latest xs) (latest-IsLatest xs)

  -- What holds of all entries holds of the latest.
  abbrev pub Holds : (A → Type 0) → Option A → Type 0
  Holds P none = Unit
  Holds P (some a) = P a

  later-Holds :
      (P : A → Type 0) (a : A) (o : Option A)
      → P a
      → Holds P o
      → Holds P (elim o [ none ↦ some a | some b ↦ some (later a b) ])
  later-Holds P a none p q = p
  later-Holds P a (some b) p q = elim (Bool-cases (key_leb (key a) (key b))) [
    | inl e ↦ rw (later_right a b e) q
    | inr e ↦ rw (later_left a b e) p
  ]

  pub latest-Holds : (P : A → Type 0) (xs : List A) → All P xs → Holds P (latest xs)
  unfolding latest
  latest-Holds P [] ps = tt
  latest-Holds P (a ∷ xs) (p, ps) = later-Holds P a (latest xs) p (latest-Holds P xs ps)
