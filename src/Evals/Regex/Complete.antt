-- ===== src/Evals/Regex/Complete.antt =====
-- core/crates/evals/src/regex_mini.rs: the matcher finds every match, also where it skips rounds
-- that do not move, and within the fuel of a repetition.
use native.Mathlib.Nat.{le_trans}
use aite.Base.{
  Bool-cases, le→leb, leb, lt→ltb, if◌then◌else◌, length, get_elem?, ℕ, zero, suc, ◌+◌, ◌-◌, ◌≤◌,
  ◌<◌, ◌≡◌, refl, sym, subst, inl, inr, Bool, true, false, Option, none, some, List, [], ◌∷◌, arith,
}
use aite.Evals.Regex.Engine.{
  alts_match, atom_match, below, each_end, is_idle_round, rep_match_all, rounds_of, seq_match_all,
  sort_desc,
}
use aite.Evals.Regex.Meaning.{AltsMatch, AtomMatches, SeqMatches, Times, Within}
use aite.Evals.Regex.Members.{In, In-append, In-dedup, In-each_end←, In-sort_desc}
use aite.Evals.Regex.Sound.{In-char_end}
use aite.Evals.Regex.Syntax.{
  Alts, Atom, Pieces, alt, any_char, at_end, at_start, char, class, group, no_alts, no_pieces,
  piece,
}

Within-less : (n m : ℕ) (high : Option ℕ) → n ≤ m → Within m high → Within n high
Within-less n m none h w = tt
Within-less n m (some b) h w = le_trans h w

below_of_Within : (n m : ℕ) (high : Option ℕ) → n < m → Within m high → below n high ≡ true
below_of_Within n m none h w = refl
below_of_Within n m (some b) h w = lt→ltb n b (omega arith)

idle_round_stays : (low i done x : ℕ) → is_idle_round low i done x ≡ true → (x ≡ i) × (low ≤ done)
idle_round_stays low i done x h = ground arith

-- Each round that is made costs a unit of what is left to do.
round_left :
    (low len i done x : ℕ)
    → is_idle_round low i done x ≡ false
    → i ≤ x
    → x ≤ len
    → (low - (done + 1)) + (len - x) < (low - done) + (len - i)
round_left low len i done x h up le = ground arith

module _ (ends rest : ℕ → List ℕ) (R : ℕ → ℕ → Type 0) (len : ℕ)
    (ends_complete : (i k : ℕ) → i ≤ len → R i k → In k (ends i))
    (moves_on : (i k : ℕ) → i ≤ len → R i k → (i ≤ k) × (k ≤ len)) (low : ℕ) (high : Option ℕ) where
  pub rep_match_all_complete :
      (n fuel i done k j : ℕ)
      → i ≤ len
      → (low - done) + (len - i) < fuel
      → low ≤ done + n
      → Within (done + n) high
      → Times R n i k
      → In j (rest k)
      → In j (rep_match_all fuel ends low high rest i done)
  unfolding rep_match_all
  rep_match_all_complete n zero i done k j le f enough w steps h = absurd (omega arith)
  rep_match_all_complete zero (suc fuel) i done k j le f enough w steps h =
      let again = λ (next : ℕ). rep_match_all fuel ends low high rest next (done + 1) in
      let more = each_end (is_idle_round low i done) again (ends i) in
      (In-append j (if below done high then more else []) (if leb low done then rest i else [])).1
        (inr (rw (le→leb low done (omega arith)) (subst (λ t. In j (rest t)) (sym steps) h)))
  rep_match_all_complete (suc n) (suc fuel) i done k j le f enough w (x, r, steps) h =
      let again = λ (next : ℕ). rep_match_all fuel ends low high rest next (done + 1) in
      let more = each_end (is_idle_round low i done) again (ends i) in
      elim (Bool-cases (is_idle_round low i done x)) [
        | inl idle ↦
            let (stays, few) = idle_round_stays low i done x idle in
            rep_match_all_complete n (suc fuel) i done k j le f (omega arith)
              (Within-less (done + n) (done + suc n) high (omega arith) w)
              (subst (λ t. Times R n t k) stays steps) h
        | inr moves ↦
            let (up, within) = moves_on i x le r in
            let left = round_left low len i done x moves up within in
            let found =
              rep_match_all_complete n fuel x (done + 1) k j within (omega arith) (omega arith)
                (subst (λ t. Within t high) (omega arith) w) steps h in
            (In-append j (if below done high then more else [])
                (if leb low done then rest i else [])).1
              (inl (
                rw (below_of_Within done (done + suc n) high (omega arith) w) (
                  In-each_end← (is_idle_round low i done) again j x (ends i)
                    (ends_complete i x le r) moves found)))
      ]

get_elem?-lt : (s : List ℕ) (i c : ℕ) → get_elem? s i ≡ some c → i < length s
get_elem?-lt [] i c h = cc
get_elem?-lt (x ∷ s) zero c h = omega arith
get_elem?-lt (x ∷ s) (suc i) c h = omega (arith, get_elem?-lt s i c h)

Times-moves :
    (R : ℕ → ℕ → Type 0) (len : ℕ)
    → ((i k : ℕ) → i ≤ len → R i k → (i ≤ k) × (k ≤ len))
    → (n i k : ℕ) → i ≤ len
    → Times R n i k
    → (i ≤ k) × (k ≤ len)
Times-moves R len m zero i k le steps = omega arith
Times-moves R len m (suc n) i k le (x, r, steps) =
    let (up, within) = m i x le r in omega (arith, Times-moves R len m n x k within steps)

module _ (alphanumeric whitespace : ℕ → Bool) where
  -- A match ends no earlier than it starts, and within the text.
  mutual
    unfolding AtomMatches

    AtomMatches-moves :
        (a : Atom) (s : List ℕ) (i k : ℕ)
        → i ≤ length s
        → AtomMatches alphanumeric whitespace a s i k
        → (i ≤ k) × (k ≤ length s)
    AtomMatches-moves (char c) s i k le (d, e, h, m) = omega (arith, get_elem?-lt s i d e)
    AtomMatches-moves any_char s i k le (d, e, h, m) = omega (arith, get_elem?-lt s i d e)
    AtomMatches-moves (class cls) s i k le (d, e, h, m) = omega (arith, get_elem?-lt s i d e)
    AtomMatches-moves (group alts) s i k le h = AltsMatch-moves alts s i k le h
    AtomMatches-moves at_start s i k le h = omega arith
    AtomMatches-moves at_end s i k le h = (omega (arith, h.1), omega (arith, h.1))

    AltsMatch-moves :
        (alts : Alts) (s : List ℕ) (i k : ℕ)
        → i ≤ length s
        → AltsMatch alphanumeric whitespace alts s i k
        → (i ≤ k) × (k ≤ length s)
    AltsMatch-moves no_alts s i k le h = absurd h
    AltsMatch-moves (alt ps others) s i k le (inl h) = SeqMatches-moves ps s i k le h
    AltsMatch-moves (alt ps others) s i k le (inr h) = AltsMatch-moves others s i k le h

    SeqMatches-moves :
        (ps : Pieces) (s : List ℕ) (i j : ℕ)
        → i ≤ length s
        → SeqMatches alphanumeric whitespace ps s i j
        → (i ≤ j) × (j ≤ length s)
    SeqMatches-moves no_pieces s i j le h = omega arith
    SeqMatches-moves (piece a low high ps) s i j le (n, k, enough, w, steps, h) =
        let (up, within) =
          Times-moves (AtomMatches alphanumeric whitespace a s) (length s)
            (λ x y. AtomMatches-moves a s x y) n i k le steps in
        omega (arith, SeqMatches-moves ps s k j within h)

  mutual
    unfolding atom_match AtomMatches

    atom_match_complete :
        (a : Atom) (s : List ℕ) (i j : ℕ)
        → i ≤ length s
        → AtomMatches alphanumeric whitespace a s i j
        → In j (atom_match alphanumeric whitespace a s i)
    atom_match_complete (char c) s i j le h = (In-char_end _ i j (get_elem? s i)).1 h
    atom_match_complete any_char s i j le h = (In-char_end _ i j (get_elem? s i)).1 h
    atom_match_complete (class cls) s i j le h = (In-char_end _ i j (get_elem? s i)).1 h
    atom_match_complete (group alts) s i j le h =
        let found = alts_match alphanumeric whitespace alts s i in
        (In-dedup j (sort_desc found)).1
          ((In-sort_desc j found).1 (alts_match_complete alts s i j le h))
    atom_match_complete at_start s i j le h = ground arith
    atom_match_complete at_end s i j le h = rw (h.0) (inl h.1)

    pub alts_match_complete :
        (alts : Alts) (s : List ℕ) (i j : ℕ)
        → i ≤ length s
        → AltsMatch alphanumeric whitespace alts s i j
        → In j (alts_match alphanumeric whitespace alts s i)
    alts_match_complete no_alts s i j le h = h
    alts_match_complete (alt ps others) s i j le (inl h) =
        (In-append j (seq_match_all alphanumeric whitespace ps s i)
            (alts_match alphanumeric whitespace others s i)).1
          (inl (seq_match_all_complete ps s i j le h))
    alts_match_complete (alt ps others) s i j le (inr h) =
        (In-append j (seq_match_all alphanumeric whitespace ps s i)
            (alts_match alphanumeric whitespace others s i)).1
          (inr (alts_match_complete others s i j le h))

    pub seq_match_all_complete :
        (ps : Pieces) (s : List ℕ) (i j : ℕ)
        → i ≤ length s
        → SeqMatches alphanumeric whitespace ps s i j
        → In j (seq_match_all alphanumeric whitespace ps s i)
    seq_match_all_complete no_pieces s i j le h = inl (sym h)
    seq_match_all_complete (piece a low high ps) s i j le (n, k, enough, w, steps, h) =
        let (up, within) =
          Times-moves (AtomMatches alphanumeric whitespace a s) (length s)
            (λ x y. AtomMatches-moves a s x y) n i k le steps in
        rep_match_all_complete (atom_match alphanumeric whitespace a s)
          (seq_match_all alphanumeric whitespace ps s) (AtomMatches alphanumeric whitespace a s)
          (length s) (λ x y l m. atom_match_complete a s x y l m)
          (λ x y l m. AtomMatches-moves a s x y l m) low high n (rounds_of low s) i 0 k j le
          (omega arith) (omega arith) (subst (λ t. Within t high) (omega arith) w) steps
          (seq_match_all_complete ps s k j within h)
