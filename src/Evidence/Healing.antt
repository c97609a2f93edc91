-- ===== src/Evidence/Healing.antt =====
-- `heal_torn_tail` after a write that was cut short.
use mathlib.Core.List.{append-nil}
use aite.Base.{
  Bool-cases, eqb, any, ℕ, String, ◌≡◌, refl, sym, ap, ◌∙◌, ◌⊎◌, inl, inr, true, false, none, some,
  List, [], ◌∷◌, ◌++◌, arith,
}
use aite.Evidence.{Codec, healed, tail_is_a_whole_record}
use aite.Evidence.Bytes.{cut, cut_before}

cut-feedless : (bytes : List ℕ) → any (λ b. eqb b 10) bytes ≡ false → cut bytes ≡ ([], bytes)
unfolding cut
cut-feedless [] h = refl
cut-feedless (b ∷ bytes) h = ground (arith, cut-feedless bytes)

abbrev pub extend_tail : List ℕ → List ℕ × List ℕ → List ℕ × List ℕ
extend_tail more (head, tail) = (head, tail ++ more)

cut_before-extend :
    (b : ℕ) (p : List ℕ × List ℕ) (more : List ℕ)
    → cut_before b (extend_tail more p) ≡ extend_tail more (cut_before b p)
cut_before-extend b ([], tail) more = ground arith
cut_before-extend b (h ∷ head, tail) more = refl

-- Bytes with no line feed only lengthen the tail.
pub cut-append :
    (xs more : List ℕ)
    → any (λ b. eqb b 10) more ≡ false
    → cut (xs ++ more) ≡ extend_tail more (cut xs)
unfolding cut
cut-append [] more h = cut-feedless more h
cut-append (b ∷ xs) more h =
    ap (cut_before b) (cut-append xs more h) ∙ cut_before-extend b (cut xs) more

pub cut-terminated : (xs : List ℕ) → cut (xs ++ 10 ∷ []) ≡ (xs ++ 10 ∷ [], [])
unfolding cut
cut-terminated [] = refl
cut-terminated (b ∷ []) = refl
cut-terminated (b ∷ d ∷ xs) = ap (cut_before b) (cut-terminated (d ∷ xs))

-- What is cut off at the last line feed is a suffix: nothing before it changes.
pub cut-concat : (bytes : List ℕ) → (cut bytes).0 ++ (cut bytes).1 ≡ bytes
unfolding cut
cut-concat [] = refl
cut-concat (b ∷ bytes) = before (cut bytes) (cut-concat bytes)
  where
    before :
        (p : List ℕ × List ℕ)
        → p.0 ++ p.1 ≡ bytes
        → (cut_before b p).0 ++ (cut_before b p).1 ≡ b ∷ bytes
    before ([], tail) h = ground arith
    before (h' ∷ head, tail) h = ap (◌∷◌ b) h

-- Ends with a line feed, or is empty.
abbrev pub IsWhole : List ℕ → Type 0
IsWhole bytes = cut bytes ≡ (bytes, [])

cut-head : (bytes : List ℕ) → IsWhole (cut bytes).0
unfolding cut
cut-head [] = refl
cut-head (b ∷ bytes) = before (cut bytes) (cut-head bytes)
  where
    before : (p : List ℕ × List ℕ) → IsWhole p.0 → IsWhole (cut_before b p).0
    before ([], tail) h = elim (Bool-cases (eqb b 10)) [
      | inl e ↦ ground arith
      | inr e ↦ ground arith
    ]
    before (h' ∷ head, tail) h = ap (cut_before b) h

module _ (c : Codec) (task_id : String) where
  pub healed_whole : (bytes : List ℕ) → IsWhole bytes → healed c task_id bytes ≡ (bytes, none)
  unfolding healed
  healed_whole bytes w = rw w refl

  -- The two outcomes of a tail that is not empty.
  pub healed_torn :
      (bytes head tail : List ℕ) (b : ℕ)
      → cut bytes ≡ (head, b ∷ tail)
      → (healed c task_id bytes ≡ (bytes ++ 10 ∷ [], some true))
        ⊎ (healed c task_id bytes ≡ (head, some false))
  unfolding healed
  healed_torn bytes head tail b e =
      elim (Bool-cases (tail_is_a_whole_record c task_id head (b ∷ tail))) [
        | inl kept ↦ inl (rw (e, kept))
        | inr dropped ↦ inr (rw (e, dropped))
      ]

  unparsed :
      (head tail : List ℕ)
      → c.parse_event tail ≡ none
      → tail_is_a_whole_record c task_id head tail ≡ false
  unfolding tail_is_a_whole_record
  unparsed head tail p = rw (p, tail_is_a_whole_record)

  pub healed_unparsed :
      (bytes head tail : List ℕ) (b : ℕ)
      → cut bytes ≡ (head, b ∷ tail)
      → c.parse_event (b ∷ tail) ≡ none
      → healed c task_id bytes ≡ (head, some false)
  unfolding healed
  healed_unparsed bytes head tail b e p = rw (e, unparsed head (b ∷ tail) p)

  healed_cases :
      (bytes : List ℕ) (p : List ℕ × List ℕ)
      → cut bytes ≡ p
      → IsWhole p.0
      → IsWhole (healed c task_id bytes).0
  healed_cases bytes (head, []) e w =
      let same : head ≡ bytes =
        sym (append-nil head)
        ∙ (ap (λ (q : List ℕ × List ℕ). q.0 ++ q.1) (sym e) ∙ cut-concat bytes) in
      rw (healed_whole bytes (e ∙ ap (λ (h : List ℕ). (h, [])) same))
        (e ∙ ap (λ (h : List ℕ). (h, [])) same)
  healed_cases bytes (head, b ∷ tail) e w = elim (healed_torn bytes head tail b e) [
    | inl h ↦ rw h (cut-terminated bytes)
    | inr h ↦ rw h w
  ]

  -- What `heal_torn_tail` leaves of any file has no torn tail.
  pub healed-IsWhole : (bytes : List ℕ) → IsWhole (healed c task_id bytes).0
  healed-IsWhole bytes = healed_cases bytes (cut bytes) refl (cut-head bytes)
