-- ===== src/Contracts/TaskNo/Codec.antt =====
-- A task number stands for the count that it was made from.
-- The value of one digit: its place in the alphabet.
use Prim.Native.Char.{Char, code}
use mathlib.Core.List.{reverse-reverse}
use aite.Base.{
  eqb_iff, eqb, if◌then◌else◌, ℕ, zero, suc, ◌+◌, ◌*◌, ◌/◌, ◌%◌, ◌≤◌, ◌<◌, String, ◌≡◌, refl, ap,
  Bool, true, ◌&&◌, List, [], ◌∷◌, reverse, arith,
}
use aite.Base.Exec.{Result, err, ok}
use aite.Contracts.TaskNo.{TaskNoError, b32, digit, digits, encode_task_no, extend}

abbrev place : ℕ → List Char → Char → ℕ
place i [] c = 0
place i (d ∷ ds) c = if eqb (code d) (code c) then i else place (suc i) ds c

pub digit_value : Char → ℕ
digit_value c = place 0 b32 c

-- Positional value, least digit first.
pub value : List Char → ℕ
value [] = 0
value (c ∷ cs) = digit_value c + 32 * value cs

abbrev chars : String → List Char
chars String.[] = []
chars (String.◌∷◌ c s) = c ∷ chars s

-- The count that a task number stands for: the base 32 value of what follows `#A`.
pub count_of : String → ℕ
count_of String.[] = 0
count_of (String.◌∷◌ _ String.[]) = 0
count_of (String.◌∷◌ _ (String.◌∷◌ _ s)) = value (reverse (chars s))

-- Whether the test passes on every number under a bound.
passes : (ℕ → Bool) → ℕ → Bool
passes test zero = true
passes test (suc last) = passes test last && test last

passes_at : (test : ℕ → Bool) (bound i : ℕ) → i < bound → passes test bound ≡ true → test i ≡ true
unfolding passes
passes_at test zero i below passed = absurd (omega arith)
passes_at test (suc last) i below passed = ground (arith, passes_at test last i)

digit_table : passes (λ d. eqb (digit_value (digit d)) d) 32 ≡ true
unfolding passes digit_value digit
digit_table = refl

digit_value-digit : (d : ℕ) → d < 32 → digit_value (digit d) ≡ d
digit_value-digit d h =
    (eqb_iff (digit_value (digit d)) d).0
      (passes_at (λ d. eqb (digit_value (digit d)) d) 32 d h digit_table)

value-digits : (fuel n : ℕ) → n ≤ fuel → value (digits fuel n) ≡ n
unfolding value digits
value-digits zero n h = omega arith
value-digits (suc fuel) n h = ground (arith, digit_value-digit (n % 32), value-digits fuel (n / 32))

chars-extend : (cs : List Char) → chars (extend cs) ≡ cs
chars-extend [] = refl
chars-extend (c ∷ cs) = ap (◌∷◌ c) (chars-extend cs)

abbrev pub StandsFor : ℕ → Result TaskNoError String → Type 0
StandsFor zero r = r ≡ err (record { count = 0 })
StandsFor (suc n) r = (s : String) × (r ≡ ok s) × (count_of s ≡ suc n)

-- `encode_task_no` fails with the count on 0. On every other count it returns a task number, and
-- the base 32 value of what follows the number's first two characters is the count, so different
-- counts have different task numbers.
pub encode_task_no-StandsFor : (n : ℕ) → StandsFor n (encode_task_no n)
unfolding encode_task_no count_of
encode_task_no-StandsFor zero = refl
encode_task_no-StandsFor (suc n) = (
  String.◌∷◌ "#" (String.◌∷◌ "A" (extend (reverse (digits (suc n) (suc n))))),
  ground arith,
  rw (chars-extend (reverse (digits (suc n) (suc n))), reverse-reverse (digits (suc n) (suc n)))
      (value-digits (suc n) (suc n) (omega arith)),
)

encode_h : encode_task_no 17 ≡ ok "#AH"
unfolding encode_task_no
encode_h = refl

encode_1000 : encode_task_no 1000 ≡ ok "#AZ8"
unfolding encode_task_no
encode_1000 = refl
