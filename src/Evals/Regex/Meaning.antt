-- ===== src/Evals/Regex/Meaning.antt =====
-- What a pattern of core/crates/evals/src/regex_mini.rs means, apart from any matcher: which parts
-- of a text it matches. A repetition is a number of rounds between its bounds; there is no order
-- of trying, no greed and no rule on rounds that do not move.
use aite.Base.{
  eqb, get_elem?, ℕ, zero, suc, ◌+◌, ◌≤◌, ◌≡◌, ◌⊎◌, Bool, true, not, Option, none, some, List,
}
use aite.Evals.Regex.Engine.{class_matches, is_at_end}
use aite.Evals.Regex.Syntax.{
  Alts, Atom, Pieces, alt, any_char, at_end, at_start, char, class, group, no_alts, no_pieces,
  piece,
}

-- `n` steps of a relation.
abbrev pub Times : (ℕ → ℕ → Type 0) → ℕ → ℕ → ℕ → Type 0
Times R zero i j = i ≡ j
Times R (suc n) i j = (k : ℕ) × R i k × Times R n k j

abbrev pub Within : ℕ → Option ℕ → Type 0
Within n none = Unit
Within n (some m) = n ≤ m

-- The character at a position satisfies a test, and the part is that character.
abbrev pub IsOneChar : (ℕ → Bool) → List ℕ → ℕ → ℕ → Type 0
IsOneChar p s i j = (c : ℕ) × (get_elem? s i ≡ some c) × (p c ≡ true) × (j ≡ i + 1)

module _ (alphanumeric whitespace : ℕ → Bool) where
  unfoldable mutual
    pub AtomMatches : Atom → List ℕ → ℕ → ℕ → Type 0
    AtomMatches (char c) s i j = IsOneChar (λ d. eqb d c) s i j
    AtomMatches any_char s i j = IsOneChar (λ d. not (eqb d 10)) s i j
    AtomMatches (class cc) s i j = IsOneChar (class_matches alphanumeric whitespace cc) s i j
    AtomMatches (group alts) s i j = AltsMatch alts s i j
    AtomMatches at_start s i j = (i ≡ 0) × (j ≡ i)
    AtomMatches at_end s i j = (is_at_end s i ≡ true) × (j ≡ i)

    pub AltsMatch : Alts → List ℕ → ℕ → ℕ → Type 0
    AltsMatch no_alts s i j = ⊥
    AltsMatch (alt ps others) s i j = SeqMatches ps s i j ⊎ AltsMatch others s i j

    pub SeqMatches : Pieces → List ℕ → ℕ → ℕ → Type 0
    SeqMatches no_pieces s i j = i ≡ j
    SeqMatches (piece a low high ps) s i j =
        (n : ℕ) × (k : ℕ) × (low ≤ n)
        × Within n high
        × Times (AtomMatches a s) n i k
        × SeqMatches ps s k j
