-- ===== src/Evals/Regex/Reads.antt =====
-- core/crates/evals/src/regex_mini.rs: well formed patterns, and the rules by which a step of the
-- parser reads one.
use native.Mathlib.Nat.{le_refl, le_trans}
use aite.Base.{
  Bool-cases, Option-cases, eqb, if◌then◌else◌, length, ℕ, ◌≤◌, String, ◌≡◌, refl, ◌≢◌, inl, inr,
  Bool, true, false, not, ◌&&◌, Option, none, some, List, [], ◌∷◌, ◌++◌, arith,
}
use aite.Evals.Regex.Reading.{
  Bounds, Parsed, Parser, after, bounds_of, brace_body, braces_or_once, checked_bounds, class_items,
  class_of, exact_bounds, is_anchor, is_once, kept_before, next_is, parse_usize, parsed,
  range_or_one, single_class, tail, unfinished, wrong,
}
use aite.Evals.Regex.Syntax.{
  Alts, Atom, ClassItem, Pieces, alt, any_char, at_end, at_start, char, class, group, no_alts,
  no_pieces, piece,
}

abbrev pub HasAlt : Alts → Type 0
HasAlt no_alts = ⊥
HasAlt (alt ps others) = Unit

unfoldable mutual
  pub IsFormed : Atom → Type 0
  IsFormed (class cls) = cls.items ≢ []
  IsFormed (group alts) = HasAlt alts × AltsFormed alts
  IsFormed _ = Unit

  pub PiecesFormed : Pieces → Type 0
  PiecesFormed no_pieces = Unit
  PiecesFormed (piece a low high ps) =
      IsFormed a × (is_anchor a ≡ true → is_once (low, high) ≡ true) × PiecesFormed ps

  pub AltsFormed : Alts → Type 0
  AltsFormed no_alts = Unit
  AltsFormed (alt ps others) = PiecesFormed ps × AltsFormed others

-- A result that is no lack of fuel, and whose value has a property, with at most `n` characters left.
unfoldable pub Reads : {A : Type 0} → (A → Type 0) → ℕ → Parsed A → Type 0
Reads P n (parsed a rest) = P a × (length rest ≤ n)
Reads P n (wrong e) = Unit
Reads P n unfinished = ⊥

pub parsed-Reads :
    {A : Type 0} (P : A → Type 0) (n : ℕ) (a : A) (rest : List ℕ)
    → P a
    → length rest ≤ n
    → Reads P n (parsed a rest)
unfolding Reads
parsed-Reads P n a rest p le = (p, le)

pub wrong-Reads : {A : Type 0} (P : A → Type 0) (n : ℕ) (e : String) → Reads P n (wrong e)
unfolding Reads
wrong-Reads P n e = tt

pub Reads-after :
    {A B : Type 0} {P : A → Type 0} (Q : B → Type 0) {n : ℕ} (m : ℕ) (r : Parsed A)
    (f : A → Parser B)
    → Reads P n r
    → ((a : A) (rest : List ℕ) → P a → length rest ≤ n → Reads Q m (f a rest))
    → Reads Q m (after r f)
unfolding Reads
Reads-after Q m (parsed a rest) f h k = k a rest h.0 h.1
Reads-after Q m (wrong e) f h k = tt
Reads-after Q m unfinished f h k = h

pub Reads-if :
    {A : Type 0} (P : A → Type 0) (n : ℕ) (b : Bool) (r s : Parsed A)
    → (b ≡ true → Reads P n r)
    → (b ≡ false → Reads P n s)
    → Reads P n (if b then r else s)
Reads-if P n true r s h k = h refl
Reads-if P n false r s h k = k refl

pub Reads-less :
    {A : Type 0} (P : A → Type 0) {n : ℕ} (m : ℕ) (r : Parsed A) → Reads P n r → n ≤ m → Reads P m r
unfolding Reads
Reads-less P m (parsed a rest) h le = (h.0, le_trans h.1 le)
Reads-less P m (wrong e) h le = tt
Reads-less P m unfinished h le = h

pub not_first : (closing first : Bool) → (closing && not first) ≡ true → ¬ (first ≡ true)
not_first closing first e h = ground arith

pub cons-ne-nil : (x : ClassItem) (xs : List ClassItem) → x ∷ xs ≢ []
cons-ne-nil x xs e = cc

pub range_or_one-length : (low : ℕ) (cs : List ℕ) → length (range_or_one low cs).1 ≤ length cs
unfolding range_or_one
range_or_one-length low [] = omega arith
range_or_one-length low (c ∷ []) = omega arith
range_or_one-length low (c ∷ d ∷ cs) = ground arith

pub class_items-Reads :
    (a : Atom) (cs : List ℕ)
    → IsFormed a
    → Reads (λ items. items ≢ []) (length cs) (class_items a cs)
unfolding class_items IsFormed
class_items-Reads (char x) cs f = parsed-Reads _ _ _ _ (cons-ne-nil _ _) (range_or_one-length x cs)
class_items-Reads (class cls) cs f = parsed-Reads _ _ _ _ f (le_refl _)
class_items-Reads any_char cs f = wrong-Reads _ _ _
class_items-Reads (group alts) cs f = wrong-Reads _ _ _
class_items-Reads at_start cs f = wrong-Reads _ _ _
class_items-Reads at_end cs f = wrong-Reads _ _ _

pub single_class-Reads :
    (item : ClassItem) (cs : List ℕ) → Reads IsFormed (length cs) (parsed (single_class item) cs)
unfolding IsFormed single_class
single_class-Reads item cs = parsed-Reads _ _ _ _ (cons-ne-nil _ _) (le_refl _)

pub char-Reads : (c : ℕ) (cs : List ℕ) → Reads IsFormed (length cs) (parsed (char c) cs)
unfolding IsFormed
char-Reads c cs = parsed-Reads _ _ _ _ tt (le_refl _)

pub append-ne-nil : (xs ys : List ClassItem) → xs ≢ [] → xs ++ ys ≢ []
append-ne-nil [] ys h e = absurd (h refl)
append-ne-nil (x ∷ xs) ys h e = cc

pub tail_if-length : (b : Bool) (cs : List ℕ) → length (if b then tail cs else cs) ≤ length cs
tail_if-length true [] = omega arith
tail_if-length true (c ∷ cs) = omega arith
tail_if-length false cs = omega arith

pub class_of-Reads :
    (negated : Bool) (items : List ClassItem) (cs : List ℕ)
    → Reads IsFormed (length cs) (class_of negated items cs)
unfolding class_of IsFormed
class_of-Reads negated [] cs = wrong-Reads _ _ _
class_of-Reads negated (item ∷ items) cs = parsed-Reads _ _ _ _ (cons-ne-nil item items) (le_refl _)

pub kept_before-rest :
    (c : ℕ) (o : Option (List ℕ × List ℕ)) (body rest : List ℕ)
    → kept_before c o ≡ some (body, rest)
    → (shorter : List ℕ) × (o ≡ some (shorter, rest))
kept_before-rest c none body rest h = cc
kept_before-rest c (some (b, r)) body rest h = (b, cc)

pub brace_body-length :
    (cs body rest : List ℕ) → brace_body cs ≡ some (body, rest) → length rest ≤ length cs
unfolding brace_body
brace_body-length [] body rest h = cc
brace_body-length (c ∷ cs) body rest h = elim (Bool-cases (eqb c b'}')) [
  | inl closes ↦ ground (arith, rw closes at h)
  | inr goes_on ↦
      let (shorter, e) = kept_before-rest c (brace_body cs) body rest (rw goes_on at h) in
      omega (arith, brace_body-length cs shorter rest e)
]

pub exact_bounds-Reads :
    (o : Option ℕ) (cs : List ℕ) → Reads (λ _. Unit {0}) (length cs) (exact_bounds o cs)
unfolding exact_bounds
exact_bounds-Reads none cs = wrong-Reads _ _ _
exact_bounds-Reads (some n) cs = parsed-Reads _ _ _ _ tt (le_refl _)

pub bounds_of-Reads :
    (o : Option ℕ) (high cs : List ℕ) → Reads (λ _. Unit {0}) (length cs) (bounds_of o high cs)
unfolding bounds_of
bounds_of-Reads none high cs = wrong-Reads _ _ _
bounds_of-Reads (some low) [] cs = parsed-Reads _ _ _ _ tt (le_refl _)
bounds_of-Reads (some low) (c ∷ high) cs = elim (Option-cases (parse_usize (c ∷ high))) [
  | inl n ↦ rw (n, bounds_of) (wrong-Reads _ _ _)
  | inr (h, e) ↦ rw (e, bounds_of) (parsed-Reads _ _ _ _ tt (le_refl _))
]

pub braces_or_once-length :
    (n : ℕ) (cs : List ℕ) (r : Parsed Bounds)
    → Reads (λ _. Unit {0}) n r
    → n ≤ length cs
    → length (braces_or_once cs r).1 ≤ length cs
unfolding Reads
braces_or_once-length n cs (parsed bounds rest) h le = omega (arith, h.1)
braces_or_once-length n cs (wrong e) h le = le_refl _
braces_or_once-length n cs unfinished h le = le_refl _

pub once_if_anchor :
    (anchor once : Bool) → (anchor && not once) ≡ false → anchor ≡ true → once ≡ true
once_if_anchor anchor once e h = ground arith

pub checked_bounds-Reads :
    (a : Atom) (bounds : Bounds) (cs : List ℕ)
    → Reads (λ b. is_anchor a ≡ true → is_once b ≡ true) (length cs) (checked_bounds a bounds cs)
unfolding checked_bounds
checked_bounds-Reads a bounds cs =
    Reads-if _ _ (next_is b'?' cs && not (is_once bounds)) _ _ (λ _. wrong-Reads _ _ _)
      λ _.
        Reads-if _ _ (is_anchor a && not (is_once bounds)) _ _ (λ _. wrong-Reads _ _ _)
          λ e.
            parsed-Reads _ _ bounds cs (once_if_anchor (is_anchor a) (is_once bounds) e) (le_refl _)
