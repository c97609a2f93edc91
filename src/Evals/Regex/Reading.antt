-- ===== src/Evals/Regex/Reading.antt =====
-- core/crates/evals/src/regex_mini.rs: the parts of the parser that do not recur. The parser's
-- position is the list of the characters that are left; `unfinished` says that fuel ran out.
use aite.Base.{
  ltb, leb, eqb, if◌then◌else◌, ℕ, ◌+◌, ◌-◌, ◌*◌, ◌^◌, String, Bool, true, false, not, ◌&&◌, ◌||◌,
  Option, none, some, List, [], ◌∷◌,
}
use aite.Evals.Regex.Syntax.{Atom, ClassItem, at_end, at_start, char, class, one, range}

pub data Parsed (A : Type 0) : Type 0 where
  parsed : A → List ℕ → Parsed A
  wrong : String → Parsed A
  unfinished : Parsed A

abbrev pub Parser : Type 0 → Type 0
Parser A = List ℕ → Parsed A

module _ {A : Type 0} where
  abbrev pub pure : A → Parser A
  pure a cs = parsed a cs

  abbrev pub fails : String → Parser A
  fails message cs = wrong message

module _ {A B : Type 0} where
  abbrev pub after : Parsed A → (A → Parser B) → Parsed B
  after (parsed a cs) f = f a cs
  after (wrong e) f = wrong e
  after unfinished f = unfinished

  infixl 5 ◌>>=◌ ◌>>◌
  abbrev pub ◌>>=◌ : Parser A → (A → Parser B) → Parser B
  ◌>>=◌ m f cs = after (m cs) f

  abbrev pub ◌>>◌ : Parser A → Parser B → Parser B
  ◌>>◌ m n cs = after (m cs) (λ _. n)

abbrev pub run : {A : Type 0} → List ℕ → Parser A → Parsed A
run cs m = m cs

-- Whether the next character is this one.
abbrev pub next_is : ℕ → List ℕ → Bool
next_is c [] = false
next_is c (d ∷ cs) = eqb c d

abbrev pub tail : List ℕ → List ℕ
tail [] = []
tail (c ∷ cs) = cs

abbrev pub is_decimal : ℕ → Bool
is_decimal c = leb b'0' c && leb c b'9'

abbrev pub ascii_alphanumeric : ℕ → Bool
ascii_alphanumeric c = is_decimal c || ((leb b'a' c && leb c b'z') || (leb b'A' c && leb c b'Z'))

-- `str::parse::<usize>`: a sign `+` is accepted, and a number of more than 64 bits is not.
pub parse_digits : ℕ → List ℕ → Option ℕ
parse_digits acc [] = some acc
parse_digits acc (c ∷ cs) =
    let acc' = acc * 10 + (c - b'0') in
    let rest = parse_digits acc' cs in if is_decimal c && ltb acc' (2 ^ 64) then rest else none

unfoldable pub parse_usize : List ℕ → Option ℕ
unfolding parse_digits
parse_usize [] = none
parse_usize (c ∷ []) = if is_decimal c then some (c - b'0') else none
parse_usize (c ∷ d ∷ cs) = parse_digits 0 (if eqb c b'+' then d ∷ cs else c ∷ d ∷ cs)

abbrev pub kept_before : ℕ → Option (List ℕ × List ℕ) → Option (List ℕ × List ℕ)
kept_before c none = none
kept_before c (some (before, rest)) = some (c ∷ before, rest)

-- What stands before `}`, and what behind it.
unfoldable pub brace_body : List ℕ → Option (List ℕ × List ℕ)
brace_body [] = none
brace_body (c ∷ cs) =
    let rest = brace_body cs in if eqb c b'}' then some ([], cs) else kept_before c rest

unfoldable pub split_comma : List ℕ → Option (List ℕ × List ℕ)
split_comma [] = none
split_comma (c ∷ cs) =
    let rest = split_comma cs in if eqb c b',' then some ([], cs) else kept_before c rest

abbrev pub skip_while : (ℕ → Bool) → List ℕ → List ℕ
skip_while p [] = []
skip_while p (c ∷ cs) = let rest = skip_while p cs in if p c then rest else c ∷ cs

abbrev pub Bounds : Type 0
Bounds = ℕ × Option ℕ

abbrev pub is_once : Bounds → Bool
is_once (low, none) = false
is_once (low, some high) = eqb low 1 && eqb high 1

abbrev pub is_anchor : Atom → Bool
is_anchor at_start = true
is_anchor at_end = true
is_anchor _ = false

unfoldable pub single_class : ClassItem → Atom
single_class item = class (record { negated = false; items = item ∷ [] })

-- The upper end of a range, if `-` and a character that does not close the class come next.
unfoldable pub range_or_one : ℕ → List ℕ → ClassItem × List ℕ
range_or_one low (d ∷ high ∷ cs) =
    if eqb d b'-' && not (eqb high b']') then (range low high, cs) else (one low, d ∷ high ∷ cs)
range_or_one low cs = (one low, cs)

-- The items that an atom behind a backslash adds to a class.
unfoldable pub class_items : Atom → List ℕ → Parsed (List ClassItem)
unfolding range_or_one
class_items (char x) cs = let (item, rest) = range_or_one x cs in parsed (item ∷ []) rest
class_items (class cls) cs = parsed cls.items cs
class_items _ cs = wrong "字符类里出现了不该有的转义"

unfoldable pub class_of : Bool → List ClassItem → Parser Atom
class_of negated [] = fails "空的字符类 []"
class_of negated items = pure (class (record { negated = negated; items = items }))

abbrev pub captures : String
captures = "不支持捕获分组：findall 在有分组时返回的是分组而不是整段匹配，                         这里做不到。只想分组请写 (?:…)"

abbrev pub only_plain_groups : String
only_plain_groups = "只支持 (?:…) 这一种扩展分组"

-- `(?:`, its part behind the parenthesis.
unfoldable pub open_group : Parser (Unit {0})
open_group [] = wrong captures
open_group (c ∷ []) = wrong (if eqb c b'?' then only_plain_groups else captures)
open_group (c ∷ d ∷ cs) =
    if not (eqb c b'?')
    then wrong captures
    else if eqb d b':'
    then parsed tt cs
    else wrong only_plain_groups

unfoldable pub close_group : Parser (Unit {0})
close_group [] = wrong "括号没闭合"
close_group (c ∷ cs) = if eqb c b')' then parsed tt cs else wrong "括号没闭合"

unfoldable pub bounds_of : Option ℕ → List ℕ → Parser Bounds
unfolding parse_usize
bounds_of none high = fails "{m,n} 的下界不是数字"
bounds_of (some low) [] = pure (low, none)
bounds_of (some low) (c ∷ cs) = elim (parse_usize (c ∷ cs)) [
  | none ↦ fails "{m,n} 的上界不是数字"
  | some high ↦ pure (low, some high)
]

unfoldable pub exact_bounds : Option ℕ → Parser Bounds
exact_bounds none = fails "{n} 里不是数字"
exact_bounds (some n) = pure (n, some n)

-- A `{` that opens no bounds stays in front, as a plain character.
abbrev pub braces_or_once : List ℕ → Parsed Bounds → Bounds × List ℕ
braces_or_once cs (parsed bounds rest) = (bounds, rest)
braces_or_once cs _ = ((1, some 1), cs)

-- No `?` stands behind a quantifier, and an anchor has none.
unfoldable pub checked_bounds : Atom → Bounds → Parser Bounds
checked_bounds a bounds cs =
    if next_is b'?' cs && not (is_once bounds)
    then wrong "不支持非贪婪量词"
    else if is_anchor a && not (is_once bounds)
    then wrong "锚点不能带量词"
    else parsed bounds cs
