-- ===== src/Evidence/Bytes.antt =====
-- Lines of bytes, as writer.rs cuts them. 10 is the line feed.
use aite.Base.{eqb, if◌then◌else◌, keep, all, ℕ, Bool, true, false, not, ◌||◌, List, [], ◌∷◌}

abbrev pub push : ℕ → List (List ℕ) → List (List ℕ)
push b [] = (b ∷ []) ∷ []
push b (line ∷ lines) = (b ∷ line) ∷ lines

-- `split(|b| *b == b'\n')`
unfoldable pub split_lines : List ℕ → List (List ℕ)
split_lines [] = [] ∷ []
split_lines (b ∷ bytes) =
    let rest = split_lines bytes in if eqb b 10 then [] ∷ rest else push b rest

-- `u8::is_ascii_whitespace`
abbrev pub is_space : ℕ → Bool
is_space b = eqb b 32 || (eqb b 9 || (eqb b 10 || (eqb b 12 || eqb b 13)))

abbrev pub is_blank : List ℕ → Bool
is_blank bytes = all is_space bytes

abbrev pub filled : List (List ℕ) → List (List ℕ)
filled lines = keep (λ line. not (is_blank line)) lines

abbrev pub is_empty : List ℕ → Bool
is_empty [] = true
is_empty (b ∷ bytes) = false

abbrev pub cut_before : ℕ → List ℕ × List ℕ → List ℕ × List ℕ
cut_before b ([], tail) = if eqb b 10 then (b ∷ [], tail) else ([], b ∷ tail)
cut_before b (h ∷ head, tail) = (b ∷ h ∷ head, tail)

-- The bytes up to the last line feed (`rposition`), and those behind it.
unfoldable pub cut : List ℕ → List ℕ × List ℕ
cut [] = ([], [])
cut (b ∷ bytes) = cut_before b (cut bytes)

-- `str::lines`: a last piece that is empty is no line.
abbrev pub drop_last_empty : List (List ℕ) → List (List ℕ)
drop_last_empty [] = []
drop_last_empty ([] ∷ []) = []
drop_last_empty (line ∷ []) = line ∷ []
drop_last_empty (line ∷ next ∷ lines) = line ∷ drop_last_empty (next ∷ lines)

abbrev pub lines_of : List ℕ → List (List ℕ)
lines_of bytes = drop_last_empty (split_lines bytes)
