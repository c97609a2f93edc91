-- ===== src/Contracts/TaskNo.antt =====
-- encode_task_no of core/crates/contracts/src/session.rs: the number of a task as users see it.
pub mod Codec
use Prim.Native.Char.{Char}
use aite.Base.{
  ltb, eqb, if◌then◌else◌, ℕ, zero, suc, ◌/◌, ◌%◌, String, true, false, List, [], ◌∷◌, reverse,
}
use aite.Base.Exec.{Result, err, ok}

-- `B32`, the Crockford base 32 alphabet.
abbrev pub b32 : List Char
b32 =
    "0" ∷ "1" ∷ "2" ∷ "3" ∷ "4" ∷ "5" ∷ "6" ∷ "7" ∷ "8" ∷ "9" ∷ "A" ∷ "B" ∷ "C" ∷ "D" ∷ "E" ∷ "F"
    ∷ "G" ∷ "H" ∷ "J" ∷ "K" ∷ "M" ∷ "N" ∷ "P" ∷ "Q" ∷ "R" ∷ "S" ∷ "T" ∷ "V" ∷ "W" ∷ "X" ∷ "Y" ∷ "Z"
    ∷ []

abbrev pub char_of : List Char → ℕ → Char
char_of [] i = "0"
char_of (c ∷ cs) zero = c
char_of (c ∷ cs) (suc i) = char_of cs i

pub digit : ℕ → Char
digit d = char_of b32 d

-- The loop `while n > 0`, least digit first. Each round divides by 32, so `n` rounds are enough.
pub digits : ℕ → ℕ → List Char
digits zero n = []
digits (suc fuel) n = elim (eqb n 0) [ true ↦ [] | false ↦ digit (n % 32) ∷ digits fuel (n / 32) ]

abbrev pub extend : List Char → String
extend [] = ""
extend (c ∷ cs) = String.◌∷◌ c (extend cs)

pub record TaskNoError : Type 0 where
  pub count : ℕ

-- The counter is a `u64`; the code only divides it, so no bound is needed.
unfoldable pub encode_task_no : ℕ → Result TaskNoError String
unfolding digits digit
encode_task_no n =
    if ltb n 1
    then err (record { count = n })
    else ok (String.◌∷◌ "#" (String.◌∷◌ "A" (extend (reverse (digits n n)))))
