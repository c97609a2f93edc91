-- ===== src/Tests/OfRegex.antt =====
-- Runs of the regular expressions of core/crates/evals.
use aite.Base.{
  leb, eqb, take, drop, length, code_points, ℕ, ◌-◌, ◌≤◌, String, ◌≡◌, refl, ◌↔◌, Bool, true, false,
  ◌&&◌, ◌||◌, none, some, List, [], ◌∷◌, map,
}
use aite.Evals.Regex.Compiling.{Compiled, compile-Compiled}
use aite.Evals.Regex.Engine.{find_all, is_match}
use aite.Evals.Regex.Meaning.{AltsMatch}
use aite.Evals.Regex.Parser.{compile}
use aite.Evals.Regex.Reading.{Parsed, parsed, wrong}
use aite.Evals.Regex.Search.{Cuts, find_all-Cuts, is_match_iff}
use aite.Evals.Regex.Syntax.{Regex, alt, char, group, no_alts, no_pieces, piece}

abbrev ascii_word : ℕ → Bool
ascii_word c =
    (leb b'a' c && leb c b'z') || ((leb b'A' c && leb c b'Z') || (leb b'0' c && leb c b'9'))

abbrev ascii_space : ℕ → Bool
ascii_space c = eqb c 32 || eqb c 10

abbrev plain_text : List ℕ → String
plain_text cs = "?"

compiled : String → Parsed Regex
unfolding compile
compiled p = compile ascii_space plain_text plain_text (code_points p)

matches : String → String → Bool
unfolding compiled is_match
matches p s = elim (compiled p) [
  | parsed re _ ↦ is_match ascii_word ascii_space re (code_points s)
  | _ ↦ false
]

found_in : String → String → List (List ℕ)
unfolding compiled find_all
found_in p s = elim (compiled p) [
  | parsed re _ ↦ find_all ascii_word ascii_space re (code_points s)
  | _ ↦ []
]

is_rejected : String → Bool
unfolding compiled
is_rejected p = elim (compiled p) [ wrong e ↦ true | _ ↦ false ]

-- The tests of regex_mini.rs.
group_backtracks :
    (matches "(?:a*)ab" "aab" ≡ true)
    × (matches "(?:a|ab)c" "abc" ≡ true)
    × (matches "(?:ab?)+c" "aababc" ≡ true)
    × (matches "^abc$" "xabc" ≡ false)
    × (matches "x$" "x\n" ≡ true)
    × (matches "x$" "x\n\n" ≡ false)
    × (matches "\\d{3}" "x12" ≡ false)
unfolding matches
group_backtracks = (refl, refl, refl, refl, refl, refl, refl)

find_all_cuts :
    (found_in "om_h[0-9]+" "[om_h1] [om_h35" ≡ code_points "om_h1" ∷ code_points "om_h35" ∷ [])
    × (found_in "aa" "aaaa" ≡ code_points "aa" ∷ code_points "aa" ∷ [])
    × (found_in "a{2,3}" "aaaa" ≡ code_points "aaa" ∷ [])
    × (found_in "a*" "b" ≡ [] ∷ [] ∷ [])
unfolding found_in
find_all_cuts = (refl, refl, refl, refl)

rejected_patterns :
    (is_rejected "(?:ab" ≡ true)
    × (is_rejected "[a-" ≡ true)
    × (is_rejected "\\1" ≡ true)
    × (is_rejected "*abc" ≡ true)
    × (is_rejected "(ab)+" ≡ true)
    × (is_rejected "\\bword" ≡ true)
    × (is_rejected "a+?" ≡ true)
    × (is_rejected "a{2," ≡ false)
unfolding is_rejected
rejected_patterns = (refl, refl, refl, refl, refl, refl, refl, refl)

-- Bounds in the wrong order and ranges in the wrong order are accepted, and match nothing.
accepted_empty :
    (is_rejected "a{3,2}" ≡ false)
    × (matches "a{3,2}" "aaa" ≡ false)
    × (is_rejected "[z-a]" ≡ false)
    × (matches "[z-a]" "m" ≡ false)
unfolding is_rejected matches
accepted_empty = (refl, refl, refl, refl)

-- `(?:a*)ab`
abbrev backtracking : Regex
backtracking = record {
  alts =
      alt
        (piece (group (alt (piece (char b'a') 0 none no_pieces) no_alts)) 1 (some 1)
          (piece (char b'a') 1 (some 1) (piece (char b'b') 1 (some 1) no_pieces)))
        no_alts;
  source = code_points "(?:a*)ab";
}

is_match_iff_example : (is_match ascii_word ascii_space backtracking (code_points "aab") ≡ true) ↔ (
    (i : ℕ) × (j : ℕ) × (i ≤ length (code_points "aab"))
    × AltsMatch ascii_word ascii_space backtracking.alts (code_points "aab") i j)
is_match_iff_example = is_match_iff ascii_word ascii_space backtracking (code_points "aab")

find_all-Cuts_example :
    (spans : List (ℕ × ℕ)) × (find_all ascii_word ascii_space backtracking (code_points "aab ab")
      ≡ map (λ span. take (span.1 - span.0) (drop span.0 (code_points "aab ab"))) spans)
    × Cuts ascii_word ascii_space backtracking.alts (code_points "aab ab") 0 spans
find_all-Cuts_example = find_all-Cuts ascii_word ascii_space backtracking (code_points "aab ab")

compile-Compiled_example :
    Compiled ascii_space plain_text plain_text
      (code_points "(?:a*)ab|[x-z]$")
      (compile ascii_space plain_text plain_text (code_points "(?:a*)ab|[x-z]$"))
compile-Compiled_example =
    compile-Compiled ascii_space plain_text plain_text (code_points "(?:a*)ab|[x-z]$")
