-- ===== src/Evals/Regex/Members.antt =====
-- Membership in the lists of ends that core/crates/evals/src/regex_mini.rs builds.
use aite.Base.{
  Bool-cases, ℕ, ◌≡◌, refl, ◌↔◌, ◌⊎◌, inl, inr, Bool, false, List, [], ◌∷◌, ◌++◌, arith,
}
use aite.Evals.Regex.Engine.{dedup, each_end, insert_desc, sort_desc}

abbrev pub In : ℕ → List ℕ → Type 0
In a [] = ⊥
In a (x ∷ xs) = (a ≡ x) ⊎ In a xs

pub In-append : (a : ℕ) (xs ys : List ℕ) → In a (xs ++ ys) ↔ (In a xs ⊎ In a ys)
In-append a [] ys = ground arith
In-append a (x ∷ xs) ys = ground (arith, In-append a xs ys)

In-insert_desc : (a n : ℕ) (xs : List ℕ) → In a (insert_desc n xs) ↔ ((a ≡ n) ⊎ In a xs)
unfolding insert_desc
In-insert_desc a n [] = ground arith
In-insert_desc a n (x ∷ xs) = ground (arith, In-insert_desc a n xs)

pub In-sort_desc : (a : ℕ) (xs : List ℕ) → In a (sort_desc xs) ↔ In a xs
unfolding sort_desc
In-sort_desc a [] = ground arith
In-sort_desc a (x ∷ xs) = ground (arith, In-sort_desc a xs, In-insert_desc a x (sort_desc xs))

pub In-dedup : (a : ℕ) (xs : List ℕ) → In a (dedup xs) ↔ In a xs
unfolding dedup
In-dedup a [] = ground arith
In-dedup a (x ∷ []) = ground arith
In-dedup a (x ∷ y ∷ xs) = ground (arith, In-dedup a (y ∷ xs))

-- What comes from an end that is not skipped, and from nothing else.
pub In-each_end→ :
    (skip : ℕ → Bool) (f : ℕ → List ℕ) (a : ℕ) (xs : List ℕ)
    → In a (each_end skip f xs)
    → (x : ℕ) × In x xs × (skip x ≡ false) × In a (f x)
unfolding each_end
In-each_end→ skip f a [] h = absurd h
In-each_end→ skip f a (x ∷ xs) h = elim (Bool-cases (skip x)) [
  | inl idle ↦ let (y, m, e, l) = In-each_end→ skip f a xs (rw idle at h) in (y, inr m, e, l)
  | inr moves ↦ elim ((In-append a (f x) (each_end skip f xs)).0 (rw moves at h)) [
    | inl l ↦ (x, inl refl, moves, l)
    | inr r ↦ let (y, m, e, l) = In-each_end→ skip f a xs r in (y, inr m, e, l)
  ]
]

pub In-each_end← :
    (skip : ℕ → Bool) (f : ℕ → List ℕ) (a x : ℕ) (xs : List ℕ)
    → In x xs
    → skip x ≡ false
    → In a (f x)
    → In a (each_end skip f xs)
unfolding each_end
In-each_end← skip f a x [] m e l = absurd m
In-each_end← skip f a x (y ∷ xs) m e l = ground (
  arith,
  In-append a (f y) (each_end skip f xs),
  λ (m' : In x xs). In-each_end← skip f a x xs m' e l,
)
