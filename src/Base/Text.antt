-- ===== src/Base/Text.antt =====
-- Building texts.
use Prim.Native.Nat.{ℕ, zero, suc, ◌/◌, ◌%◌}
use Prim.Native.Char.{Char}
use Prim.Native.String.{String, ◌++◌, len, count}
use mathlib.Core.List.{List, [], ◌∷◌, reverse}
use aite.Base.Tests.{eqb}
use mathlib.Core.Bool.{true, false}

-- `format!`: the parts one after the other.
unfoldable pub render : List String → String
render [] = ""
render (s ∷ parts) = s ++ render parts

-- `join`
unfoldable pub join : String → List String → String
join sep [] = ""
join sep (s ∷ []) = s
join sep (s ∷ t ∷ parts) = s ++ (sep ++ join sep (t ∷ parts))

-- `String::len`: the bytes of a text.
abbrev pub text_len : String → ℕ
text_len s = len s

pub digit_char : ℕ → Char
digit_char zero = "0"
digit_char (suc zero) = "1"
digit_char (suc (suc zero)) = "2"
digit_char (suc (suc (suc zero))) = "3"
digit_char (suc (suc (suc (suc zero)))) = "4"
digit_char (suc (suc (suc (suc (suc zero))))) = "5"
digit_char (suc (suc (suc (suc (suc (suc zero)))))) = "6"
digit_char (suc (suc (suc (suc (suc (suc (suc zero))))))) = "7"
digit_char (suc (suc (suc (suc (suc (suc (suc (suc zero)))))))) = "8"
digit_char _ = "9"

-- The decimal digits of a number above 0, least first; `n` rounds are enough.
decimal_digits : ℕ → ℕ → List Char
unfolding digit_char
decimal_digits zero n = []
decimal_digits (suc fuel) n = elim (eqb n 0) [
  | true ↦ []
  | false ↦ digit_char (n % 10) ∷ decimal_digits fuel (n / 10)
]

abbrev pub of_chars : List Char → String
of_chars [] = ""
of_chars (c ∷ cs) = String.◌∷◌ c (of_chars cs)

-- A number as `{}` prints it.
unfoldable pub decimal : ℕ → String
unfolding decimal_digits
decimal zero = "0"
decimal (suc n) = of_chars (reverse (decimal_digits (suc n) (suc n)))

-- `chars().count()`
abbrev pub char_count : String → ℕ
char_count s = count s

-- The first characters of a text.
abbrev pub take_chars : ℕ → String → String
take_chars zero s = ""
take_chars (suc n) String.[] = ""
take_chars (suc n) (String.◌∷◌ c s) = String.◌∷◌ c (take_chars n s)
