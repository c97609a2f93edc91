-- ===== src/Evals/Regex/Search.antt =====
-- core/crates/evals/src/regex_mini.rs: `seq_match` gives the first of all ends, and `find_at` the
-- leftmost match.
use native.Mathlib.Decide.{dec_lt}
use aite.Base.{
  leb→le, Bool-cases, Option-cases, leb, if◌then◌else◌, take, drop, length, head?, ℕ, zero, suc,
  ◌+◌, ◌-◌, ◌≤◌, ◌<◌, ◌≡◌, refl, sym, subst, ◌∙◌, ◌↔◌, ◌⊎◌, inl, inr, Bool, true, false, Option,
  none, some, List, [], ◌∷◌, ◌++◌, map, arith,
}
use aite.Evals.Regex.Complete.{alts_match_complete}
use aite.Evals.Regex.Engine.{
  alts_match, atom_match, behind, below, each_end, find_all, find_at, find_from, find_spans,
  first_alt, first_end, is_idle_round, is_match, or_else, rep_match, rep_match_all, rounds_of,
  seq_match, seq_match_all,
}
use aite.Evals.Regex.Meaning.{AltsMatch}
use aite.Evals.Regex.Members.{In}
use aite.Evals.Regex.Sound.{alts_match_sound}
use aite.Evals.Regex.Syntax.{Alts, Pieces, Regex, alt, no_alts, no_pieces, piece}

-- `seq_match` and `rep_match` stop at what `seq_match_all` and `rep_match_all` list first.
head-append : (xs ys : List ℕ) → head? (xs ++ ys) ≡ or_else (head? xs) (head? ys)
head-append [] ys = refl
head-append (x ∷ xs) ys = refl

head?-none : (xs : List ℕ) (a : ℕ) → head? xs ≡ none → ¬ (In a xs)
head?-none [] a e h = h
head?-none (x ∷ xs) a e h = cc

In-head? : (xs : List ℕ) (a : ℕ) → head? xs ≡ some a → In a xs
In-head? [] a e = cc
In-head? (x ∷ xs) a e = inl (cc)

head-if : (b : Bool) (xs : List ℕ) → head? (if b then xs else []) ≡ (if b then head? xs else none)
head-if true xs = refl
head-if false xs = refl

first_end-head :
    (skip : ℕ → Bool) (f : ℕ → Option ℕ) (g : ℕ → List ℕ)
    → ((x : ℕ) → f x ≡ head? (g x))
    → (xs : List ℕ) → first_end skip f xs ≡ head? (each_end skip g xs)
unfolding first_end each_end
first_end-head skip f g e [] = refl
first_end-head skip f g e (x ∷ xs) =
    ground (arith, first_end-head skip f g e xs, e x, head-append (g x) (each_end skip g xs))

module _ (ends rest : ℕ → List ℕ) (first : ℕ → Option ℕ) (low : ℕ) (high : Option ℕ)
    (firsts : (i : ℕ) → first i ≡ head? (rest i)) where
  rep_match-head :
      (fuel i done : ℕ)
      → rep_match fuel ends low high first i done
        ≡ head? (rep_match_all fuel ends low high rest i done)
  unfolding rep_match rep_match_all
  rep_match-head zero i done = refl
  rep_match-head (suc fuel) i done =
      let again = λ (next : ℕ). rep_match_all fuel ends low high rest next (done + 1) in
      let more = each_end (is_idle_round low i done) again (ends i) in
      rw (head-append (if below done high then more else []) (if leb low done then rest i else []))
        (rw
          (
            head-if (below done high) more,
            head-if (leb low done) (rest i),
            firsts i,
            first_end-head (is_idle_round low i done)
                (λ next. rep_match fuel ends low high first next (done + 1)) again
                (λ next. rep_match-head fuel next (done + 1)) (ends i),
          )
          refl)

module _ (alphanumeric whitespace : ℕ → Bool) where
  -- The top level's matcher gives the first of all ends.
  pub seq_match-head :
      (ps : Pieces) (s : List ℕ) (i : ℕ)
      → seq_match alphanumeric whitespace ps s i
        ≡ head? (seq_match_all alphanumeric whitespace ps s i)
  unfolding seq_match seq_match_all
  seq_match-head no_pieces s i = refl
  seq_match-head (piece a low high ps) s i =
      rep_match-head (atom_match alphanumeric whitespace a s)
        (seq_match_all alphanumeric whitespace ps s) (seq_match alphanumeric whitespace ps s) low
        high (λ k. seq_match-head ps s k) (rounds_of low s) i 0

  -- `first_alt` gives the first end of the alternatives.
  pub first_alt-head :
      (alts : Alts) (s : List ℕ) (i : ℕ)
      → first_alt alphanumeric whitespace alts s i
        ≡ head? (alts_match alphanumeric whitespace alts s i)
  unfolding first_alt alts_match
  first_alt-head no_alts s i = refl
  first_alt-head (alt ps others) s i = rw (
    head-append (seq_match_all alphanumeric whitespace ps s i)
        (alts_match alphanumeric whitespace others s i),
    seq_match-head ps s i,
    first_alt-head others s i,
  )

  -- A span that was found is a match, and no match starts earlier; without one there is no match.
  abbrev pub Leftmost : Alts → List ℕ → ℕ → Option (ℕ × ℕ) → Type 0
  Leftmost alts s from none =
      (i j : ℕ) → from ≤ i → i ≤ length s → ¬ (AltsMatch alphanumeric whitespace alts s i j)
  Leftmost alts s from (some (a, b)) =
      (from ≤ a)
      × (a ≤ length s)
      × AltsMatch alphanumeric whitespace alts s a b
      × ((i j : ℕ) → from ≤ i → i < a → ¬ (AltsMatch alphanumeric whitespace alts s i j))

  Leftmost-step :
      (alts : Alts) (s : List ℕ) (from : ℕ) (o : Option (ℕ × ℕ))
      → ((j : ℕ) → ¬ (AltsMatch alphanumeric whitespace alts s from j))
      → Leftmost alts s (from + 1) o
      → Leftmost alts s from o
  Leftmost-step alts s from none h l = λ i j low high m. elim (dec_lt from i) [
    | yes behind_it ↦ l i j (omega arith) high m
    | no now ↦ h j (subst (λ t. AltsMatch alphanumeric whitespace alts s t j) (omega arith) m)
  ]
  Leftmost-step alts s from (some (a, b)) h (low, high, m, l) = (
    omega arith,
    high,
    m,
    λ i j low' before m'. elim (dec_lt from i) [
      | yes behind_it ↦ l i j (omega arith) before m'
      | no now ↦ h j (subst (λ t. AltsMatch alphanumeric whitespace alts s t j) (omega arith) m')
    ],
  )

  find_from-Leftmost :
      (left : ℕ) (alts : Alts) (s : List ℕ) (from : ℕ)
      → left + from ≡ length s + 1
      → Leftmost alts s from (find_from alphanumeric whitespace left alts s from)
  unfolding find_from
  find_from-Leftmost zero alts s from e = λ i j low high. absurd (omega arith)
  find_from-Leftmost (suc left) alts s from e =
      let ends = alts_match alphanumeric whitespace alts s from in
      let first = first_alt-head alts s from in
      elim (Option-cases (first_alt alphanumeric whitespace alts s from)) [
        | inl n ↦
            rw (n, find_from)
              (Leftmost-step alts s from (find_from alphanumeric whitespace left alts s (from + 1))
                (λ j m.
                  head?-none ends j (sym first ∙ n)
                    (alts_match_complete alphanumeric whitespace alts s from j (omega arith) m))
                (find_from-Leftmost left alts s (from + 1) (omega arith)))
        | inr (j, found) ↦ rw found (
          omega arith,
          omega arith,
          alts_match_sound alphanumeric whitespace alts s from j
              (In-head? ends j (sym first ∙ found)),
          λ i k low high. absurd (omega arith),
        )
      ]

  -- `find_at` gives the leftmost match at or behind a position, and nothing only if there is none.
  pub find_at-Leftmost :
      (re : Regex) (s : List ℕ) (from : ℕ)
      → from ≤ length s
      → Leftmost re.alts s from (find_at alphanumeric whitespace re s from)
  unfolding find_at
  find_at-Leftmost re s from le =
      find_from-Leftmost (length s + 1 - from) re.alts s from (omega arith)

  -- `is_match` answers true exactly when the pattern matches some part of the text, which starts
  -- within it.
  pub is_match_iff :
      (re : Regex) (s : List ℕ)
      → (is_match alphanumeric whitespace re s ≡ true)
        ↔ ((i : ℕ) × (j : ℕ) × (i ≤ length s) × AltsMatch alphanumeric whitespace re.alts s i j)
  unfolding is_match
  is_match_iff re s =
      let left = find_at-Leftmost re s 0 (omega arith) in
      elim (Option-cases (find_at alphanumeric whitespace re s 0)) [
        | inl n ↦
            let l : Leftmost re.alts s 0 none = rw n at left in
            rw n (λ h. cc, λ h. absurd (l h.0 h.1 (omega arith) h.2 h.3))
        | inr ((a, b), e) ↦
            let l : Leftmost re.alts s 0 (some (a, b)) = rw e at left in
            rw e (λ h. (a, b, l.1, l.2), λ h. refl)
      ]

  -- Where the search goes on: at the end of a span, or a character behind an empty one.
  abbrev pub GoesOn : ℕ → ℕ → ℕ → Type 0
  GoesOn a b next = ((a < b) × (next ≡ b)) ⊎ ((b ≤ a) × (next ≡ a + 1))

  behind-GoesOn : (a b : ℕ) → GoesOn a b (behind (a, b))
  behind-GoesOn a b = elim (dec_lt a b) [
    | yes l ↦ inl (l, ground arith)
    | no n ↦ inr (omega arith, ground arith)
  ]

  -- Cut by `find_all`: each span is the leftmost match behind the one before, and behind the last
  -- there is none. Behind a span that is empty the next one starts a character later.
  abbrev pub Cuts : Alts → List ℕ → ℕ → List (ℕ × ℕ) → Type 0
  Cuts alts s from [] = Leftmost alts s from none
  Cuts alts s from ((a, b) ∷ spans) =
      Leftmost alts s from (some (a, b)) × (next : ℕ) × GoesOn a b next × Cuts alts s next spans

  Cuts-none :
      (alts : Alts) (s : List ℕ) (from : ℕ) (spans : List (ℕ × ℕ))
      → Leftmost alts s from none
      → Cuts alts s (from + 1) spans
      → Cuts alts s from spans
  Cuts-none alts s from [] l c = l
  Cuts-none alts s from ((a, b) ∷ spans) l c = absurd (l a b (omega arith) c.0.1 c.0.2)

  Cuts-over : (alts : Alts) (s : List ℕ) (from : ℕ) → length s < from → Cuts alts s from []
  Cuts-over alts s from over i j low high m = absurd (omega arith)

  pub find_spans-Cuts :
      (fuel : ℕ) (re : Regex) (s : List ℕ) (from : ℕ)
      → length s < fuel + from
      → Cuts re.alts s from (find_spans alphanumeric whitespace fuel re s from)
  unfolding find_spans
  find_spans-Cuts zero re s from f = Cuts-over re.alts s from (omega arith)
  find_spans-Cuts (suc fuel) re s from f = elim (Bool-cases (leb from (length s))) [
    | inr over ↦ rw over (Cuts-over re.alts s from (ground arith))
    | inl le ↦
        let left = find_at-Leftmost re s from (leb→le from (length s) le) in
        elim (Option-cases (find_at alphanumeric whitespace re s from)) [
          | inl n ↦
              rw (le, n)
                (Cuts-none re.alts s from (find_spans alphanumeric whitespace fuel re s (from + 1))
                  (rw n at left) (find_spans-Cuts fuel re s (from + 1) (omega arith)))
          | inr ((a, b), e) ↦
              let l : Leftmost re.alts s from (some (a, b)) = rw e at left in
              rw (le, e)
                (
                  l,
                  behind (a, b),
                  behind-GoesOn a b,
                  find_spans-Cuts fuel re s (behind (a, b)) (ground arith),
                )
        ]
  ]

  -- What `find_all` gives are the texts of spans, each the leftmost match behind the one before it
  -- (a character later behind an empty one), with no match behind the last.
  pub find_all-Cuts :
      (re : Regex) (s : List ℕ)
      → (spans : List (ℕ × ℕ)) × (find_all alphanumeric whitespace re s
          ≡ map (λ span. take (span.1 - span.0) (drop span.0 s)) spans)
        × Cuts re.alts s 0 spans
  unfolding find_all
  find_all-Cuts re s = (
    find_spans alphanumeric whitespace (length s + 1) re s 0,
    refl,
    find_spans-Cuts (length s + 1) re s 0 (omega arith),
  )
