-- ===== src/Evals/Regex/Compiling.antt =====
-- core/crates/evals/src/regex_mini.rs: the fuel of `Regex::new` is enough, and what it compiles is
-- well formed.
use native.Mathlib.Nat.{le_refl}
use aite.Base.{
  Option-cases, eqb, if◌then◌else◌, length, ℕ, zero, suc, ◌+◌, ◌*◌, ◌≤◌, ◌<◌, String, ◌≡◌, refl,
  ◌≢◌, inl, inr, Bool, true, false, not, ◌&&◌, ◌||◌, List, [], ◌∷◌, arith,
}
use aite.Evals.Regex.Parser.{
  bounds_at, compile, escaped_atom, parse_alternation, parse_atom, parse_braces, parse_class,
  parse_escape, parse_items, parse_others, parse_quantifier, parse_sequence, trim, whole,
}
use aite.Evals.Regex.Reading.{
  Parsed, bounds_of, brace_body, close_group, exact_bounds, is_anchor, is_once, next_is, open_group,
  parse_usize, parsed, pure, range_or_one, run, split_comma, tail, unfinished, wrong, ◌>>=◌, ◌>>◌,
}
use aite.Evals.Regex.Reads.{
  AltsFormed, HasAlt, IsFormed, PiecesFormed, Reads, Reads-after, Reads-if, Reads-less,
  append-ne-nil, bounds_of-Reads, brace_body-length, braces_or_once-length, char-Reads,
  checked_bounds-Reads, class_items-Reads, class_of-Reads, cons-ne-nil, exact_bounds-Reads,
  not_first, parsed-Reads, range_or_one-length, single_class-Reads, tail_if-length, wrong-Reads,
}
use aite.Evals.Regex.Syntax.{Alts, Atom, Regex, group}

module _ (whitespace : ℕ → Bool) (text_of debug : List ℕ → String) where
  escaped_atom-Reads :
      (c : ℕ) (cs : List ℕ)
      → Reads IsFormed (length cs) (escaped_atom whitespace text_of debug c cs)
  unfolding escaped_atom
  escaped_atom-Reads c cs = search (Reads-if, single_class-Reads, char-Reads, wrong-Reads) depth 30

  parse_escape-Reads :
      (cs : List ℕ) → Reads IsFormed (length cs) (parse_escape whitespace text_of debug cs)
  unfolding parse_escape
  parse_escape-Reads [] = wrong-Reads _ _ _
  parse_escape-Reads (c ∷ cs) = Reads-less _ _ _ (escaped_atom-Reads c cs) (omega arith)

  parse_items-Reads :
      (fuel : ℕ) (first : Bool) (cs : List ℕ)
      → length cs < fuel
      → Reads
          (λ items. first ≡ true → items ≢ [])
          (length cs)
          (parse_items whitespace text_of debug fuel first cs)
  unfolding parse_items
  parse_items-Reads zero first cs f = absurd (omega arith)
  parse_items-Reads (suc fuel) first [] f = wrong-Reads _ _ _
  parse_items-Reads (suc fuel) first (c ∷ cs) f =
      Reads-if _ _ (eqb c b']' && not first) _ _
        (λ e.
          parsed-Reads _ (length (c ∷ cs)) _ cs (λ h. absurd (not_first _ first e h)) (omega arith))
        λ _.
          Reads-if _ _ (eqb c b'\\') _ _
            (λ _. Reads-after _ _ _ _ (parse_escape-Reads cs) λ a rest formed le.
              Reads-after _ _ _ _ (class_items-Reads a rest formed) λ items rest' some_items le'.
                Reads-after _ _ _ _ (parse_items-Reads fuel false rest' (omega arith))
                  λ others rest'' _ le''.
                    parsed-Reads _ (length (c ∷ cs)) _ rest''
                      (λ _. append-ne-nil items others some_items) (omega arith))
            λ _.
              Reads-after _ _ _ _
                (parse_items-Reads fuel false (range_or_one c cs).1
                  (omega (arith, range_or_one-length c cs)))
                λ others rest _ le.
                  parsed-Reads _ (length (c ∷ cs)) _ rest (λ _. cons-ne-nil _ _)
                    (omega (arith, range_or_one-length c cs))

  parse_class-Reads :
      (cs : List ℕ) → Reads IsFormed (length cs) (parse_class whitespace text_of debug cs)
  unfolding parse_class
  parse_class-Reads cs =
      let body = if next_is b'^' cs then tail cs else cs in
      Reads-after _ _ _ _ (parse_items-Reads (length body + 1) true body (omega arith))
        λ items rest _ le.
          Reads-less _ _ _ (class_of-Reads (next_is b'^' cs) items rest)
            (omega (arith, tail_if-length (next_is b'^' cs) cs))

  parse_braces-Reads :
      (cs : List ℕ) → Reads (λ _. Unit {0}) (length cs) (parse_braces whitespace text_of debug cs)
  unfolding parse_braces exact_bounds bounds_of
  parse_braces-Reads cs = elim (Option-cases (brace_body cs)) [
    | inl n ↦ rw (n, parse_braces) (wrong-Reads _ _ _)
    | inr ((body, rest), e) ↦ elim (Option-cases (split_comma body)) [
      | inl n ↦
          rw (e, n, parse_braces)
            (Reads-less _ _ _
              (exact_bounds-Reads (parse_usize (trim whitespace text_of debug body)) rest)
              (brace_body-length cs body rest e))
      | inr ((low, high), c) ↦
          rw (e, c, parse_braces)
            (Reads-less _ _ _
              (bounds_of-Reads (parse_usize (trim whitespace text_of debug low))
                (trim whitespace text_of debug high) rest)
              (brace_body-length cs body rest e))
    ]
  ]

  bounds_at-length : (cs : List ℕ) → length (bounds_at whitespace text_of debug cs).1 ≤ length cs
  unfolding bounds_at
  bounds_at-length [] = omega arith
  bounds_at-length (c ∷ cs) = ground (
    arith,
    braces_or_once-length (length cs) (c ∷ cs) (parse_braces whitespace text_of debug cs)
        (parse_braces-Reads cs),
  )

  parse_quantifier-Reads :
      (a : Atom) (cs : List ℕ)
      → Reads
          (λ bounds. is_anchor a ≡ true → is_once bounds ≡ true)
          (length cs)
          (parse_quantifier whitespace text_of debug a cs)
  unfolding parse_quantifier
  parse_quantifier-Reads a cs =
      let (bounds, rest) = bounds_at whitespace text_of debug cs in
      Reads-less _ _ _ (checked_bounds-Reads a bounds rest) (bounds_at-length cs)

  open_group-Reads : (cs : List ℕ) → Reads (λ _. Unit {0}) (length cs) (open_group cs)
  unfolding open_group
  open_group-Reads [] = wrong-Reads _ _ _
  open_group-Reads (c ∷ []) = wrong-Reads _ _ _
  open_group-Reads (c ∷ d ∷ cs) =
      Reads-if _ _ (not (eqb c b'?')) _ _ (λ _. wrong-Reads _ _ _)
        λ _.
          Reads-if _ _ (eqb d b':') _ _
            (λ _. parsed-Reads _ (length (c ∷ d ∷ cs)) _ cs tt (omega arith))
            (λ _. wrong-Reads _ _ _)

  close_group-Reads : (cs : List ℕ) → Reads (λ _. Unit {0}) (length cs) (close_group cs)
  unfolding close_group
  close_group-Reads [] = wrong-Reads _ _ _
  close_group-Reads (c ∷ cs) =
      Reads-if _ _ (eqb c b')') _ _ (λ _. parsed-Reads _ (length (c ∷ cs)) _ cs tt (omega arith))
        (λ _. wrong-Reads _ _ _)

  group-Reads :
      (fuel : ℕ) (cs : List ℕ)
      → ((rest : List ℕ)
          → length rest ≤ length cs
          → Reads
              (λ alts. HasAlt alts × AltsFormed alts)
              (length rest)
              (parse_alternation whitespace text_of debug fuel rest))
      → Reads IsFormed (length cs) (
          run cs (
            open_group
            >> (parse_alternation whitespace text_of debug fuel >>= λ alts.
                close_group >> pure (group alts))))
  unfolding IsFormed
  group-Reads fuel cs h = Reads-after _ _ _ _ (open_group-Reads cs) λ _ rest _ le.
      Reads-after _ _ _ _ (h rest le) λ alts rest' formed le'.
        Reads-after _ _ _ _ (close_group-Reads rest')
          λ _ rest'' _ le''. parsed-Reads _ (length cs) _ rest'' formed (omega arith)

  mutual
    unfolding parse_alternation PiecesFormed

    alternation-Reads :
        (fuel : ℕ) (cs : List ℕ)
        → 3 * length cs + 3 ≤ fuel
        → Reads
            (λ alts. HasAlt alts × AltsFormed alts)
            (length cs)
            (parse_alternation whitespace text_of debug fuel cs)
    alternation-Reads zero cs f = absurd (omega arith)
    alternation-Reads (suc fuel) cs f =
        Reads-after _ _ _ _ (sequence-Reads fuel cs (omega arith)) λ ps rest formed le.
          Reads-after _ _ _ _ (others-Reads fuel rest (omega arith)) λ others rest' formed' le'.
            parsed-Reads _ (length cs) _ rest' (tt, (formed, formed')) (omega arith)

    others-Reads :
        (fuel : ℕ) (cs : List ℕ)
        → 3 * length cs + 2 ≤ fuel
        → Reads AltsFormed (length cs) (parse_others whitespace text_of debug fuel cs)
    others-Reads zero cs f = absurd (omega arith)
    others-Reads (suc fuel) [] f = parsed-Reads _ _ _ _ tt (le_refl _)
    others-Reads (suc fuel) (c ∷ cs) f =
        Reads-if _ _ (next_is b'|' (c ∷ cs)) _ _
          (λ _. Reads-after _ _ _ _ (sequence-Reads fuel cs (omega arith)) λ ps rest formed le.
            Reads-after _ _ _ _ (others-Reads fuel rest (omega arith)) λ others rest' formed' le'.
              parsed-Reads _ (length (c ∷ cs)) _ rest' (formed, formed') (omega arith))
          (λ _. parsed-Reads _ _ _ _ tt (le_refl _))

    sequence-Reads :
        (fuel : ℕ) (cs : List ℕ)
        → 3 * length cs + 2 ≤ fuel
        → Reads PiecesFormed (length cs) (parse_sequence whitespace text_of debug fuel cs)
    sequence-Reads zero cs f = absurd (omega arith)
    sequence-Reads (suc fuel) [] f = parsed-Reads _ _ _ _ tt (le_refl _)
    sequence-Reads (suc fuel) (c ∷ cs) f =
        Reads-if _ _ (eqb c b'|' || eqb c b')') _ _ (λ _. parsed-Reads _ _ _ _ tt (le_refl _))
          λ _. Reads-after _ _ _ _ (atom-Reads fuel c cs (omega arith)) λ a rest formed le.
            Reads-after _ _ _ _ (parse_quantifier-Reads a rest) λ bounds rest' once le'.
              Reads-after _ _ _ _ (sequence-Reads fuel rest' (omega arith))
                λ ps rest'' formed' le''.
                  parsed-Reads _ (length (c ∷ cs)) _ rest'' (formed, once, formed') (omega arith)

    atom-Reads :
        (fuel : ℕ) (c : ℕ) (cs : List ℕ)
        → 3 * length cs + 4 ≤ fuel
        → Reads IsFormed (length cs) (parse_atom whitespace text_of debug fuel (c ∷ cs))
    atom-Reads zero c cs f = absurd (omega arith)
    atom-Reads (suc fuel) c cs f =
        Reads-if _ _ (eqb c b'^') _ _ (λ _. parsed-Reads _ _ _ _ tt (le_refl _))
          λ _.
            Reads-if _ _ (eqb c b'$') _ _ (λ _. parsed-Reads _ _ _ _ tt (le_refl _))
              λ _.
                Reads-if _ _ (eqb c b'.') _ _ (λ _. parsed-Reads _ _ _ _ tt (le_refl _))
                  λ _.
                    Reads-if _ _ (eqb c b'(') _ _
                      (λ _.
                        group-Reads fuel cs (λ rest le. alternation-Reads fuel rest (omega arith)))
                      λ _.
                        Reads-if _ _ (eqb c b'[') _ _ (λ _. parse_class-Reads cs)
                          λ _.
                            Reads-if _ _ (eqb c b'\\') _ _ (λ _. parse_escape-Reads cs)
                              λ _.
                                Reads-if _ _ (eqb c b'*' || (eqb c b'+' || eqb c b'?')) _ _
                                  (λ _. wrong-Reads _ _ _) λ _. parsed-Reads _ _ _ _ tt (le_refl _)

  -- A compiled pattern is well formed and keeps its source; otherwise there is an error, and never
  -- a lack of fuel.
  abbrev pub Compiled : List ℕ → Parsed Regex → Type 0
  Compiled pattern (parsed re rest) =
      HasAlt re.alts × AltsFormed re.alts × (re.source ≡ pattern) × (rest ≡ [])
  Compiled pattern (wrong e) = Unit
  Compiled pattern unfinished = ⊥

  whole-Compiled :
      (pattern : List ℕ) (n : ℕ) (r : Parsed Alts)
      → Reads (λ alts. HasAlt alts × AltsFormed alts) n r
      → Compiled pattern (whole whitespace text_of debug pattern r)
  unfolding whole Reads
  whole-Compiled pattern n (parsed alts []) h = (h.0.0, h.0.1, refl, refl)
  whole-Compiled pattern n (parsed alts (c ∷ cs)) h = tt
  whole-Compiled pattern n (wrong e) h = tt
  whole-Compiled pattern n unfinished h = h

  -- Of any pattern `Regex::new` makes an error or a regex and never runs out of fuel. The regex
  -- has the pattern as its source, no characters are left, no group is without alternatives, no
  -- class is empty, and an anchor has no quantifier.
  pub compile-Compiled :
      (pattern : List ℕ) → Compiled pattern (compile whitespace text_of debug pattern)
  unfolding compile
  compile-Compiled pattern =
      whole-Compiled pattern _ _ (alternation-Reads (3 * length pattern + 3) pattern (le_refl _))
