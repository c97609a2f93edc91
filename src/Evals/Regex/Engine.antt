-- ===== src/Evals/Regex/Engine.antt =====
-- core/crates/evals/src/regex_mini.rs: the backtracking matcher. Which code points are
-- alphanumeric and which are white space are the tables of Rust's `char`. A repetition runs on
-- fuel: each further round raises `done` up to `low`, or the position up to the length.
use aite.Base.{
  ltb, leb, eqb, if◌then◌else◌, take, drop, length, get_elem?, any, ℕ, zero, suc, ◌+◌, ◌-◌, Bool,
  true, false, not, ◌&&◌, ◌||◌, Option, none, some, List, [], ◌∷◌, ◌++◌, map,
}
use aite.Evals.Regex.Syntax.{
  Alts, Atom, CharClass, ClassItem, Pieces, Regex, alt, any_char, at_end, at_start, char, class,
  digit, group, no_alts, no_pieces, one, piece, range, space, word,
}

pub same : Bool → Bool → Bool
same true b = b
same false b = not b

-- `done < m`, where there is a bound.
abbrev pub below : ℕ → Option ℕ → Bool
below done none = true
below done (some m) = ltb done m

-- The ends behind one character that satisfies a test.
abbrev pub char_end : (ℕ → Bool) → ℕ → Option ℕ → List ℕ
char_end p i none = []
char_end p i (some c) = if p c then (i + 1) ∷ [] else []

abbrev pub one_char : (ℕ → Bool) → List ℕ → ℕ → List ℕ
one_char p s i = char_end p i (get_elem? s i)

abbrev pub is_at_end : List ℕ → ℕ → Bool
is_at_end s i =
    eqb i (length s)
    || (eqb (i + 1) (length s) && (elim (get_elem? s i) [ none ↦ false | some c ↦ eqb c 10 ]))

-- `sort_unstable_by(|a, b| b.cmp(a))`
unfoldable pub insert_desc : ℕ → List ℕ → List ℕ
insert_desc n [] = n ∷ []
insert_desc n (m ∷ ms) = if leb m n then n ∷ m ∷ ms else m ∷ insert_desc n ms

unfoldable pub sort_desc : List ℕ → List ℕ
unfolding insert_desc
sort_desc [] = []
sort_desc (n ∷ ns) = insert_desc n (sort_desc ns)

-- `dedup`: a number is dropped if it is the next one too.
unfoldable pub dedup : List ℕ → List ℕ
dedup [] = []
dedup (n ∷ []) = n ∷ []
dedup (n ∷ m ∷ ms) = let rest = dedup (m ∷ ms) in if eqb n m then rest else n ∷ rest

-- The loop over the ends of an atom: an end that is skipped adds nothing.
unfoldable pub each_end : (ℕ → Bool) → (ℕ → List ℕ) → List ℕ → List ℕ
each_end skip f [] = []
each_end skip f (n ∷ ns) = let rest = each_end skip f ns in if skip n then rest else f n ++ rest

-- An end that does not move, when enough rounds are done.
abbrev pub is_idle_round : ℕ → ℕ → ℕ → ℕ → Bool
is_idle_round low i done next = eqb next i && leb low done

unfoldable pub rep_match_all : ℕ → (ℕ → List ℕ) → ℕ → Option ℕ → (ℕ → List ℕ) → ℕ → ℕ → List ℕ
unfolding each_end
rep_match_all zero ends low high rest i done = []
rep_match_all (suc fuel) ends low high rest i done =
    let more =
      each_end (is_idle_round low i done)
        (λ next. rep_match_all fuel ends low high rest next (done + 1)) (ends i) in
    (if below done high then more else []) ++ (if leb low done then rest i else [])

abbrev pub or_else : Option ℕ → Option ℕ → Option ℕ
or_else (some j) o = some j
or_else none o = o

-- The first end that leads to a match.
unfoldable pub first_end : (ℕ → Bool) → (ℕ → Option ℕ) → List ℕ → Option ℕ
first_end skip f [] = none
first_end skip f (n ∷ ns) =
    let rest = first_end skip f ns in if skip n then rest else or_else (f n) rest

unfoldable pub rep_match : ℕ → (ℕ → List ℕ) → ℕ → Option ℕ → (ℕ → Option ℕ) → ℕ → ℕ → Option ℕ
unfolding first_end
rep_match zero ends low high rest i done = none
rep_match (suc fuel) ends low high rest i done =
    let more =
      first_end (is_idle_round low i done)
        (λ next. rep_match fuel ends low high rest next (done + 1)) (ends i) in
    or_else (if below done high then more else none) (if leb low done then rest i else none)

abbrev pub span_or : ℕ → Option ℕ → Option (ℕ × ℕ) → Option (ℕ × ℕ)
span_or start (some j) rest = some (start, j)
span_or start none rest = rest

abbrev pub has_span : Option (ℕ × ℕ) → Bool
has_span none = false
has_span (some _) = true

-- Where `find_all` goes on behind a span.
abbrev pub behind : ℕ × ℕ → ℕ
behind (a, b) = if ltb a b then b else a + 1

abbrev pub cut_or : Option (ℕ × ℕ) → List (ℕ × ℕ) → (ℕ → List (ℕ × ℕ)) → List (ℕ × ℕ)
cut_or none rest further = rest
cut_or (some span) rest further = span ∷ further (behind span)

-- Rounds that are enough for a repetition.
abbrev pub rounds_of : ℕ → List ℕ → ℕ
rounds_of low s = low + length s + 1

module _ (alphanumeric whitespace : ℕ → Bool) where
  unfoldable pub item_matches : ClassItem → ℕ → Bool
  unfolding same
  item_matches (one x) c = eqb c x
  item_matches (range a b) c = leb a c && leb c b
  item_matches (digit want) c = same (leb b'0' c && leb c b'9') want
  item_matches (word want) c = same (alphanumeric c || eqb c b'_') want
  item_matches (space want) c = same (whitespace c) want

  unfoldable pub class_matches : CharClass → ℕ → Bool
  unfolding item_matches same
  class_matches cc c = not (same (any (λ item. item_matches item c) cc.items) cc.negated)

  unfoldable mutual
    unfolding sort_desc dedup rep_match_all class_matches

    pub atom_match : Atom → List ℕ → ℕ → List ℕ
    atom_match (char c) s i = one_char (λ d. eqb d c) s i
    atom_match any_char s i = one_char (λ d. not (eqb d 10)) s i
    atom_match (class cc) s i = one_char (class_matches cc) s i
    atom_match (group alts) s i = dedup (sort_desc (alts_match alts s i))
    atom_match at_start s i = if eqb i 0 then i ∷ [] else []
    atom_match at_end s i = if is_at_end s i then i ∷ [] else []

    pub alts_match : Alts → List ℕ → ℕ → List ℕ
    alts_match no_alts s i = []
    alts_match (alt ps others) s i = seq_match_all ps s i ++ alts_match others s i

    pub seq_match_all : Pieces → List ℕ → ℕ → List ℕ
    seq_match_all no_pieces s i = i ∷ []
    seq_match_all (piece a low high ps) s i =
        rep_match_all (rounds_of low s) (atom_match a s) low high (seq_match_all ps s) i 0

  unfoldable pub seq_match : Pieces → List ℕ → ℕ → Option ℕ
  unfolding rep_match atom_match
  seq_match no_pieces s i = some i
  seq_match (piece a low high ps) s i =
      rep_match (rounds_of low s) (atom_match a s) low high (seq_match ps s) i 0

  -- The loop over the alternatives at one start.
  unfoldable pub first_alt : Alts → List ℕ → ℕ → Option ℕ
  unfolding seq_match
  first_alt no_alts s i = none
  first_alt (alt ps others) s i = or_else (seq_match ps s i) (first_alt others s i)

  -- The loop over the starts that are left.
  unfoldable pub find_from : ℕ → Alts → List ℕ → ℕ → Option (ℕ × ℕ)
  unfolding first_alt
  find_from zero alts s start = none
  find_from (suc left) alts s start =
      span_or start (first_alt alts s start) (find_from left alts s (start + 1))

  unfoldable pub find_at : Regex → List ℕ → ℕ → Option (ℕ × ℕ)
  unfolding find_from
  find_at re s from = find_from (length s + 1 - from) re.alts s from

  unfoldable pub is_match : Regex → List ℕ → Bool
  unfolding find_at
  is_match re s = has_span (find_at re s 0)

  -- The spans that `find_all` cuts out, on fuel: the position grows in each round.
  unfoldable pub find_spans : ℕ → Regex → List ℕ → ℕ → List (ℕ × ℕ)
  unfolding find_at
  find_spans zero re s i = []
  find_spans (suc fuel) re s i =
      let found = cut_or (find_at re s i) (find_spans fuel re s (i + 1)) (find_spans fuel re s) in
      if leb i (length s) then found else []

  unfoldable pub find_all : Regex → List ℕ → List (List ℕ)
  unfolding find_spans
  find_all re s =
      map (λ span. take (span.1 - span.0) (drop span.0 s)) (find_spans (length s + 1) re s 0)
