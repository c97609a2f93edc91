-- ===== src/Control/Words.antt =====
-- The texts of a message: `clip` of core/crates/control/src/card.rs, and `is_command`,
-- `parse_command` and `normalize_task_no` of commands/mod.rs. `char::is_whitespace` is Unicode's
-- White_Space; changing case is modelled for the letters A to Z only.
use Prim.Native.Char.{Char, code}
use aite.Base.{
  leb, eqb, if◌then◌else◌, join, render, char_count, take_chars, ℕ, ◌-◌, String, ◌≡◌, refl, Bool,
  true, false, ◌&&◌, ◌||◌, Option, none, some, List, [], ◌∷◌, ◌==◌,
}
use aite.Contracts.TaskNo.{char_of}

unfoldable pub is_whitespace : Char → Bool
is_whitespace c =
    let n = code c in
    (leb 9 n && leb n 13)
    || (eqb n 32
        || (eqb n 133
            || (eqb n 160
                || (eqb n 5760
                    || ((leb 8192 n && leb n 8202)
                        || (eqb n 8232
                            || (eqb n 8233 || (eqb n 8239 || (eqb n 8287 || eqb n 12288)))))))))

unfoldable pub trim_start : String → String
trim_start String.[] = ""
trim_start (String.◌∷◌ c s) =
    let rest = trim_start s in if is_whitespace c then rest else String.◌∷◌ c s

-- Without the white space at the end.
unfoldable pub trim_end : String → String
trim_end String.[] = ""
trim_end (String.◌∷◌ c s) =
    let rest = trim_end s in if (rest == "") && is_whitespace c then "" else String.◌∷◌ c rest

unfoldable pub trim : String → String
unfolding trim_start trim_end
trim s = trim_end (trim_start s)

abbrev pub add_char : Char → List String → List String
add_char c [] = String.◌∷◌ c "" ∷ []
add_char c (word ∷ words) = String.◌∷◌ c word ∷ words

-- `split_whitespace`: the flag says whether the word in front goes on.
unfoldable pub split_words : String → Bool × List String
split_words String.[] = (false, [])
split_words (String.◌∷◌ c s) =
    let (open_word, words) = split_words s in
    if is_whitespace c
    then (false, words)
    else if open_word
    then (true, add_char c words)
    else (true, String.◌∷◌ c "" ∷ words)

-- `clip`: white space folded; at most `limit` characters, the last an ellipsis if any was cut.
unfoldable pub clip : String → ℕ → String
unfolding split_words
clip text limit =
    let folded = join " " (split_words text).1 in
    if leb (char_count folded) limit
    then folded
    else render (take_chars (limit - 1) folded ∷ "…" ∷ [])

abbrev pub max_title_chars : ℕ
max_title_chars = 40

abbrev starts_as_command : String → Bool
starts_as_command String.[] = false
starts_as_command (String.◌∷◌ c s) = eqb (code c) 33 || eqb (code c) 65281

unfoldable pub is_command : String → Bool
unfolding trim_start
is_command text = starts_as_command (trim_start text)

abbrev pub lower_letters : List Char
lower_letters =
    "a" ∷ "b" ∷ "c" ∷ "d" ∷ "e" ∷ "f" ∷ "g" ∷ "h" ∷ "i" ∷ "j" ∷ "k" ∷ "l" ∷ "m" ∷ "n" ∷ "o" ∷ "p"
    ∷ "q" ∷ "r" ∷ "s" ∷ "t" ∷ "u" ∷ "v" ∷ "w" ∷ "x" ∷ "y" ∷ "z" ∷ []

upper_letters : List Char
upper_letters =
    "A" ∷ "B" ∷ "C" ∷ "D" ∷ "E" ∷ "F" ∷ "G" ∷ "H" ∷ "I" ∷ "J" ∷ "K" ∷ "L" ∷ "M" ∷ "N" ∷ "O" ∷ "P"
    ∷ "Q" ∷ "R" ∷ "S" ∷ "T" ∷ "U" ∷ "V" ∷ "W" ∷ "X" ∷ "Y" ∷ "Z" ∷ []

unfoldable pub lower_char : Char → Char
lower_char c = if leb 65 (code c) && leb (code c) 90 then char_of lower_letters (code c - 65) else c

upper_char : Char → Char
unfolding upper_letters
upper_char c =
    if leb 97 (code c) && leb (code c) 122 then char_of upper_letters (code c - 97) else c

abbrev pub map_chars : (Char → Char) → String → String
map_chars f String.[] = ""
map_chars f (String.◌∷◌ c s) = String.◌∷◌ (f c) (map_chars f s)

-- `split_once(char::is_whitespace)`: the texts before and behind the first white space.
unfoldable pub split_head : String → String × String
split_head String.[] = ("", "")
split_head (String.◌∷◌ c s) =
    let (head, rest) = split_head s in
    if is_whitespace c then ("", s) else (String.◌∷◌ c head, rest)

-- A full-width exclamation mark in front becomes `!`.
abbrev half_width : String → String
half_width String.[] = ""
half_width (String.◌∷◌ c s) = if eqb (code c) 65281 then String.◌∷◌ "!" s else String.◌∷◌ c s

-- `ALIASES`, as commands without the mark.
abbrev pub aliases : List (String × String)
aliases =
    ("状态", "!status")
    ∷ ("停止", "!stop")
    ∷ ("重开", "!restart")
    ∷ ("新话题", "!new")
    ∷ ("帮助", "!help")
    ∷ []

abbrev alias_of : String → List (String × String) → Option String
alias_of bare [] = none
alias_of bare ((alias, name) ∷ rest) = if alias == bare then some name else alias_of bare rest

abbrev or_same : Option String → String → String
or_same none s = s
or_same (some name) s = name

abbrev canonical : String → String
canonical String.[] = ""
canonical (String.◌∷◌ c bare) =
    if eqb (code c) 33
    then or_same (alias_of bare aliases) (String.◌∷◌ c bare)
    else String.◌∷◌ c bare

unfoldable pub parse_command : String → String × String
unfolding trim split_head lower_char is_whitespace
parse_command text =
    let (head, rest) = split_head (half_width (trim text)) in
    (canonical (map_chars lower_char head), trim rest)

abbrev with_hash : String → String
with_hash String.[] = ""
with_hash (String.◌∷◌ c s) =
    if eqb (code c) 35 then String.◌∷◌ c s else String.◌∷◌ "#" (String.◌∷◌ c s)

unfoldable pub normalize_task_no : String → String
unfolding trim upper_char is_whitespace
normalize_task_no raw = with_hash (map_chars upper_char (trim raw))

-- The tests of commands/mod.rs.
parse_stop : parse_command "!stop #A17" ≡ ("!stop", "#A17")
unfolding parse_command
parse_stop = refl

parse_restart : parse_command "  !restart   换个思路  " ≡ ("!restart", "换个思路")
unfolding parse_command
parse_restart = refl

parse_alias : parse_command "！停止 a17" ≡ ("!stop", "a17")
unfolding parse_command
parse_alias = refl

normalize_lower : normalize_task_no " #a17 " ≡ "#A17"
unfolding normalize_task_no
normalize_lower = refl
