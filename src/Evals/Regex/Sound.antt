-- ===== src/Evals/Regex/Sound.antt =====
-- core/crates/evals/src/regex_mini.rs: what the matcher finds is a match.
use aite.Base.{
  leb→le, Bool-cases, leb, if◌then◌else◌, get_elem?, ℕ, zero, suc, ◌+◌, ◌≤◌, ◌≡◌, refl, ap, subst,
  ◌↔◌, inl, inr, Bool, true, Option, none, some, List, [], arith,
}
use aite.Evals.Regex.Engine.{
  alts_match, atom_match, below, char_end, each_end, is_idle_round, rep_match_all, rounds_of,
  seq_match_all, sort_desc,
}
use aite.Evals.Regex.Meaning.{AltsMatch, AtomMatches, SeqMatches, Times, Within}
use aite.Evals.Regex.Members.{In, In-append, In-dedup, In-each_end→, In-sort_desc}
use aite.Evals.Regex.Syntax.{
  Alts, Atom, Pieces, alt, any_char, at_end, at_start, char, class, group, no_alts, no_pieces,
  piece,
}

Within-zero : (high : Option ℕ) → Within 0 high
Within-zero none = tt
Within-zero (some m) = omega arith

some_eq : (a b : ℕ) → ◌≡◌ {A = Option ℕ} (some a) (some b) → a ≡ b
some_eq a b h = cc

Within-below : (n : ℕ) (high : Option ℕ) → below n high ≡ true → Within (n + 1) high
Within-below n none h = tt
Within-below n (some m) h = ground arith

-- What a repetition found: the rounds that are still made, and where the rest takes over.
abbrev Repeats : (ℕ → ℕ → Type 0) → ℕ → Option ℕ → (ℕ → ℕ → Type 0) → ℕ → ℕ → ℕ → Type 0
Repeats R low high Q i done j =
    (n : ℕ) × (k : ℕ) × (low ≤ done + n) × Within (done + n) high × Times R n i k × Q k j

module _ (ends rest : ℕ → List ℕ) (R Q : ℕ → ℕ → Type 0)
    (ends_sound : (i k : ℕ) → In k (ends i) → R i k)
    (rest_sound : (i k : ℕ) → In k (rest i) → Q i k) (low : ℕ) (high : Option ℕ) where
  stop_found :
      (i done j : ℕ)
      → Within done high
      → In j (if leb low done then rest i else [])
      → Repeats R low high Q i done j
  stop_found i done j w h = elim (Bool-cases (leb low done)) [
    | inl enough ↦ (
      0,
      i,
      omega (arith, leb→le low done enough),
      subst (λ n. Within n high) (omega arith) w,
      refl,
      rest_sound i j (rw enough at h),
    )
    | inr few ↦ absurd (rw few at h)
  ]

  pub rep_match_all_sound :
      (fuel i done j : ℕ)
      → Within done high
      → In j (rep_match_all fuel ends low high rest i done)
      → Repeats R low high Q i done j
  unfolding rep_match_all
  rep_match_all_sound zero i done j w h = absurd h
  rep_match_all_sound (suc fuel) i done j w h =
      let again = λ (next : ℕ). rep_match_all fuel ends low high rest next (done + 1) in
      let skip = is_idle_round low i done in
      let more = each_end skip again (ends i) in
      elim ((In-append j (if below done high then more else [])
          (if leb low done then rest i else [])).0
        h) [
          | inr l ↦ stop_found i done j w l
          | inl l ↦ elim (Bool-cases (below done high)) [
            | inr full ↦ absurd (rw full at l)
            | inl room ↦
                let (x, m, e, found) = In-each_end→ skip again j (ends i) (rw room at l) in
                let (n, k, enough, bound, steps, q) =
                  rep_match_all_sound fuel x (done + 1) j (Within-below done high room) found in
                (
                  suc n,
                  k,
                  omega arith,
                  subst (λ t. Within t high) (omega arith) bound,
                  (x, ends_sound i x m, steps),
                  q,
                )
          ]
        ]

-- The characters at a position, as `one_char` reads them.
pub In-char_end :
    (p : ℕ → Bool) (i j : ℕ) (o : Option ℕ)
    → In j (char_end p i o) ↔ ((c : ℕ) × (o ≡ some c) × (p c ≡ true) × (j ≡ i + 1))
In-char_end p i j none = (λ h. absurd h, λ h. cc h.1)
In-char_end p i j (some c) =
    (λ h. (c, refl, ground arith, ground arith), λ h. ground (arith, ap p (some_eq c h.0 h.1)))

module _ (alphanumeric whitespace : ℕ → Bool) where
  mutual
    unfolding atom_match AtomMatches

    atom_match_sound :
        (a : Atom) (s : List ℕ) (i j : ℕ)
        → In j (atom_match alphanumeric whitespace a s i)
        → AtomMatches alphanumeric whitespace a s i j
    atom_match_sound (char c) s i j h = (In-char_end _ i j (get_elem? s i)).0 h
    atom_match_sound any_char s i j h = (In-char_end _ i j (get_elem? s i)).0 h
    atom_match_sound (class cls) s i j h = (In-char_end _ i j (get_elem? s i)).0 h
    atom_match_sound (group alts) s i j h =
        let found = alts_match alphanumeric whitespace alts s i in
        alts_match_sound alts s i j ((In-sort_desc j found).0 ((In-dedup j (sort_desc found)).0 h))
    atom_match_sound at_start s i j h = ground arith
    atom_match_sound at_end s i j h = ground arith

    pub alts_match_sound :
        (alts : Alts) (s : List ℕ) (i j : ℕ)
        → In j (alts_match alphanumeric whitespace alts s i)
        → AltsMatch alphanumeric whitespace alts s i j
    alts_match_sound no_alts s i j h = h
    alts_match_sound (alt ps others) s i j h =
        elim ((In-append j (seq_match_all alphanumeric whitespace ps s i) _).0 h) [
          | inl l ↦ inl (seq_match_all_sound ps s i j l)
          | inr r ↦ inr (alts_match_sound others s i j r)
        ]

    pub seq_match_all_sound :
        (ps : Pieces) (s : List ℕ) (i j : ℕ)
        → In j (seq_match_all alphanumeric whitespace ps s i)
        → SeqMatches alphanumeric whitespace ps s i j
    seq_match_all_sound no_pieces s i j h = ground arith
    seq_match_all_sound (piece a low high ps) s i j h =
        let (n, k, enough, w, steps, q) =
          rep_match_all_sound (atom_match alphanumeric whitespace a s)
            (seq_match_all alphanumeric whitespace ps s) (AtomMatches alphanumeric whitespace a s)
            (SeqMatches alphanumeric whitespace ps s) (λ k l. atom_match_sound a s k l)
            (λ k l. seq_match_all_sound ps s k l) low high (rounds_of low s) i 0 j
            (Within-zero high) h in
        (n, k, omega arith, subst (λ t. Within t high) (omega arith) w, steps, q)
