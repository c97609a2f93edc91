-- ===== src/Worker/Scan.antt =====
-- What core/crates/worker uses of Rust's strings: prefixes, `replace`, `take_while`, `contains`.
use Prim.Native.Char.{Char, code}
use aite.Base.{
  eqb, if◌then◌else◌, render, char_count, ℕ, zero, suc, ◌-◌, String, ◌≡◌, refl, Bool, true, false,
  ◌||◌, Option, none, some, [], ◌∷◌,
}

unfoldable pub starts_with : String → String → Bool
starts_with String.[] s = true
starts_with (String.◌∷◌ p prefix) String.[] = false
starts_with (String.◌∷◌ p prefix) (String.◌∷◌ c s) =
    let rest = starts_with prefix s in if eqb (code p) (code c) then rest else false

abbrev pub drop_chars : ℕ → String → String
drop_chars zero s = s
drop_chars (suc n) String.[] = ""
drop_chars (suc n) (String.◌∷◌ c s) = drop_chars n s

-- `strip_prefix`
abbrev pub strip_prefix : String → String → Option String
strip_prefix prefix s =
    if starts_with prefix s then some (drop_chars (char_count prefix) s) else none

abbrev pub take_while : (Char → Bool) → String → String
take_while f String.[] = ""
take_while f (String.◌∷◌ c s) = let rest = take_while f s in if f c then String.◌∷◌ c rest else ""

abbrev pub head_char : String → Option Char
head_char String.[] = none
head_char (String.◌∷◌ c s) = some c

abbrev pub has_char : ℕ → String → Bool
has_char n String.[] = false
has_char n (String.◌∷◌ c s) = eqb (code c) n || has_char n s

-- `split_once(mark)`, its second half.
unfoldable pub split_once : String → String → Option String
split_once mark String.[] = strip_prefix mark ""
split_once mark (String.◌∷◌ c s) =
    let rest = split_once mark s in
    elim (strip_prefix mark (String.◌∷◌ c s)) [ none ↦ rest | some tail ↦ some tail ]

-- `replace`, of a text that is not empty: `skip` characters belong to the last match.
abbrev replaced : ℕ → String → String → String → String
replaced skip from to String.[] = ""
replaced (suc skip) from to (String.◌∷◌ c s) = replaced skip from to s
replaced zero from to (String.◌∷◌ c s) =
    let found = starts_with from (String.◌∷◌ c s) in
    let rest = replaced (if found then char_count from - 1 else 0) from to s in
    render ((if found then to else String.◌∷◌ c "") ∷ rest ∷ [])

unfoldable pub replace : String → String → String → String
unfolding starts_with render
replace from to s = replaced 0 from to s

replace_twice : replace ">>" "-" "a>>b>>>" ≡ "a-b->"
unfolding replace
replace_twice = refl

split_at_mark : split_once "ms=" "a ms=12" ≡ some "12"
unfolding split_once starts_with
split_at_mark = refl
