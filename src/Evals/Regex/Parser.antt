-- ===== src/Evals/Regex/Parser.antt =====
-- core/crates/evals/src/regex_mini.rs: `Regex::new` and its parser. Besides the white space of
-- Rust's `char`, the printing of characters by `{}` and by `{:?}` is a parameter. Calls that recur
-- take fuel.
use aite.Base.{
  leb, eqb, if◌then◌else◌, length, render, decimal, ℕ, zero, suc, ◌+◌, ◌-◌, ◌*◌, String, Bool, true,
  false, not, ◌&&◌, ◌||◌, none, some, List, [], ◌∷◌, ◌++◌, reverse,
}
use aite.Evals.Regex.Reading.{
  Bounds, Parsed, Parser, ascii_alphanumeric, bounds_of, brace_body, braces_or_once, checked_bounds,
  class_items, class_of, close_group, exact_bounds, next_is, open_group, parse_usize, parsed, pure,
  range_or_one, run, single_class, skip_while, split_comma, tail, unfinished, wrong, ◌>>=◌, ◌>>◌,
}
use aite.Evals.Regex.Syntax.{
  Alts, Atom, ClassItem, Pieces, Regex, alt, any_char, at_end, at_start, char, digit, group,
  no_alts, no_pieces, piece, space, word,
}

-- `text_of` and `debug` print characters by `{}` and by `{:?}`.
module _ (whitespace : ℕ → Bool) (text_of debug : List ℕ → String) where
  -- What follows a backslash.
  unfoldable pub escaped_atom : ℕ → Parser Atom
  unfolding single_class
  escaped_atom c cs =
      if eqb c b'd'
      then parsed (single_class (digit true)) cs
      else if eqb c b'D'
      then parsed (single_class (digit false)) cs
      else if eqb c b'w'
      then parsed (single_class (word true)) cs
      else if eqb c b'W'
      then parsed (single_class (word false)) cs
      else if eqb c b's'
      then parsed (single_class (space true)) cs
      else if eqb c b'S'
      then parsed (single_class (space false)) cs
      else if eqb c b'n'
      then parsed (char 10) cs
      else if eqb c b't'
      then parsed (char 9) cs
      else if eqb c b'r'
      then parsed (char 13) cs
      else if leb b'1' c && leb c b'9'
      then wrong "不支持反向引用"
      else if ascii_alphanumeric c
      then wrong (render ("不支持 \\" ∷ text_of (c ∷ []) ∷ " 这个转义（词边界 \\b、串锚 \\A \\Z 都没实现）" ∷ []))
      else parsed (char c) cs

  unfoldable pub parse_escape : Parser Atom
  unfolding escaped_atom
  parse_escape [] = wrong "反斜杠后面没东西"
  parse_escape (c ∷ cs) = escaped_atom c cs

  -- The items of a class up to its `]`; one that comes first stands for itself.
  unfoldable pub parse_items : ℕ → Bool → Parser (List ClassItem)
  unfolding parse_escape class_items
  parse_items zero first cs = unfinished
  parse_items (suc fuel) first [] = wrong "字符类 [ 没闭合"
  parse_items (suc fuel) first (c ∷ cs) =
      let (item, rest) = range_or_one c cs in
      let escaped = run cs (do
        a ← parse_escape
        items ← class_items a
        others ← parse_items fuel false
        pure (items ++ others)) in
      let plain = run rest (do others ← parse_items fuel false; pure (item ∷ others)) in
      if eqb c b']' && not first then parsed [] cs else if eqb c b'\\' then escaped else plain

  unfoldable pub parse_class : Parser Atom
  unfolding parse_items class_of
  parse_class cs =
      let negated = next_is b'^' cs in
      let body = if negated then tail cs else cs in
      run body do items ← parse_items (length body + 1) true; class_of negated items

  abbrev pub trim : List ℕ → List ℕ
  trim body = reverse (skip_while whitespace (reverse (skip_while whitespace body)))

  unfoldable pub parse_braces : Parser Bounds
  unfolding parse_usize brace_body split_comma bounds_of exact_bounds
  parse_braces cs = elim (brace_body cs) [
    | none ↦ wrong "{ 没闭合"
    | some (body, rest) ↦ elim (split_comma body) [
      | none ↦ exact_bounds (parse_usize (trim body)) rest
      | some (low, high) ↦ bounds_of (parse_usize (trim low)) (trim high) rest
    ]
  ]

  -- The bounds that come next.
  unfoldable pub bounds_at : List ℕ → Bounds × List ℕ
  unfolding parse_braces
  bounds_at [] = ((1, some 1), [])
  bounds_at (c ∷ cs) =
      if eqb c b'*'
      then ((0, none), cs)
      else if eqb c b'+'
      then ((1, none), cs)
      else if eqb c b'?'
      then ((0, some 1), cs)
      else if eqb c b'{'
      then braces_or_once (c ∷ cs) (parse_braces cs)
      else ((1, some 1), c ∷ cs)

  unfoldable pub parse_quantifier : Atom → Parser Bounds
  unfolding bounds_at checked_bounds
  parse_quantifier a cs = let (bounds, rest) = bounds_at cs in checked_bounds a bounds rest

  -- Each call takes a unit of fuel.
  unfoldable mutual
    unfolding parse_quantifier parse_class parse_escape open_group close_group

    -- The alternatives, each behind a `|` but for the first.
    pub parse_alternation : ℕ → Parser Alts
    parse_alternation zero cs = unfinished
    parse_alternation (suc fuel) cs =
        run cs do ps ← parse_sequence fuel; others ← parse_others fuel; pure (alt ps others)

    pub parse_others : ℕ → Parser Alts
    parse_others zero cs = unfinished
    parse_others (suc fuel) cs =
        let more =
          run (tail cs)
            (do ps ← parse_sequence fuel; others ← parse_others fuel; pure (alt ps others)) in
        if next_is b'|' cs then more else parsed no_alts cs

    pub parse_sequence : ℕ → Parser Pieces
    parse_sequence zero cs = unfinished
    parse_sequence (suc fuel) [] = parsed no_pieces []
    parse_sequence (suc fuel) (c ∷ cs) =
        let more = run (c ∷ cs) (do
          a ← parse_atom fuel
          (low, high) ← parse_quantifier a
          ps ← parse_sequence fuel
          pure (piece a low high ps)) in
        if eqb c b'|' || eqb c b')' then parsed no_pieces (c ∷ cs) else more

    pub parse_atom : ℕ → Parser Atom
    parse_atom zero cs = unfinished
    parse_atom (suc fuel) [] = wrong "模式提前结束"
    parse_atom (suc fuel) (c ∷ cs) =
        let inner =
          run cs (do open_group; alts ← parse_alternation fuel; close_group; pure (group alts)) in
        if eqb c b'^'
        then parsed at_start cs
        else if eqb c b'$'
        then parsed at_end cs
        else if eqb c b'.'
        then parsed any_char cs
        else if eqb c b'('
        then inner
        else if eqb c b'['
        then parse_class cs
        else if eqb c b'\\'
        then parse_escape cs
        else if eqb c b'*' || (eqb c b'+' || eqb c b'?')
        then wrong (render ("量词 " ∷ debug (c ∷ []) ∷ " 前面没有可重复的东西" ∷ []))
        else parsed (char c) cs

  unfoldable pub whole : List ℕ → Parsed Alts → Parsed Regex
  whole pattern (parsed alts []) = parsed (record { alts = alts; source = pattern }) []
  whole pattern (parsed alts (c ∷ cs)) = wrong (
      render
        ("第 " ∷ decimal (length pattern - length (c ∷ cs)) ∷ " 个字符起看不懂：" ∷ debug (c ∷ cs) ∷ []))
  whole pattern (wrong e) = wrong e
  whole pattern unfinished = unfinished

  -- `Regex::new`
  unfoldable pub compile : List ℕ → Parsed Regex
  unfolding parse_alternation whole
  compile pattern = whole pattern (parse_alternation (3 * length pattern + 3) pattern)
