-- ===== src/Evidence/Crash.antt =====
-- A record that was being appended when the process stopped or the disk was full.
use mathlib.Core.List.{append-nil, append_assoc}
use native.Mathlib.Decide.{dec_lt}
use aite.Base.{
  eqb, take, length-append, length, any, ℕ, zero, suc, ◌≤◌, ◌<◌, String, ◌≡◌, refl, ap, ◌∙◌, ◌⊎◌,
  inl, inr, Bool, false, Option, none, List, [], ◌∷◌, ◌++◌, arith,
}
use aite.Evidence.{Codec, healed}
use aite.Evidence.Bytes.{cut}
use aite.Evidence.Healing.{
  IsWhole, cut-append, cut-terminated, extend_tail, healed_torn, healed_unparsed, healed_whole,
}

take-prefix : (k : ℕ) (xs ys : List ℕ) → k ≤ length xs → take k (xs ++ ys) ≡ take k xs
take-prefix zero xs ys h = refl
take-prefix (suc k) [] ys h = elim h [ ]
take-prefix (suc k) (x ∷ xs) ys h = ap (◌∷◌ x) (take-prefix k xs ys (omega arith))

take_all : (k : ℕ) (xs : List ℕ) → length xs ≤ k → take k xs ≡ xs
take_all zero [] h = refl
take_all zero (x ∷ xs) h = elim h [ ]
take_all (suc k) [] h = refl
take_all (suc k) (x ∷ xs) h = ap (◌∷◌ x) (take_all k xs (omega arith))

any-take : (p : ℕ → Bool) (k : ℕ) (xs : List ℕ) → any p xs ≡ false → any p (take k xs) ≡ false
any-take p zero xs h = refl
any-take p (suc k) [] h = refl
any-take p (suc k) (x ∷ xs) h = ground (arith, any-take p k xs)

module _ (c : Codec) (task_id : String) (old body : List ℕ) (whole : IsWhole old)
    (feedless : any (λ b. eqb b 10) body ≡ false)
    (partial : (k : ℕ) → k < length body → c.parse_event (take k body) ≡ none) where
  abbrev left_by : ℕ → List ℕ
  left_by k = (healed c task_id (old ++ take k (body ++ 10 ∷ []))).0

  cut_torn : (tail : List ℕ) → any (λ b. eqb b 10) tail ≡ false → cut (old ++ tail) ≡ (old, tail)
  cut_torn tail h = cut-append old tail h ∙ ap (extend_tail tail) whole

  healed_short :
      (tail : List ℕ)
      → any (λ b. eqb b 10) tail ≡ false
      → c.parse_event tail ≡ none
      → (healed c task_id (old ++ tail)).0 ≡ old
  healed_short [] f p =
      rw append-nil (ap (λ (r : List ℕ × Option Bool). r.0) (healed_whole c task_id old whole))
  healed_short (b ∷ tail) f p =
      ap (λ (r : List ℕ × Option Bool). r.0)
        (healed_unparsed c task_id (old ++ b ∷ tail) old tail b (cut_torn (b ∷ tail) f) p)

  healed_unended :
      (tail : List ℕ)
      → any (λ b. eqb b 10) tail ≡ false
      → ((healed c task_id (old ++ tail)).0 ≡ old)
        ⊎ ((healed c task_id (old ++ tail)).0 ≡ (old ++ tail) ++ 10 ∷ [])
  healed_unended [] f =
      inl
        (rw append-nil (ap (λ (r : List ℕ × Option Bool). r.0) (healed_whole c task_id old whole)))
  healed_unended (b ∷ tail) f =
      elim (healed_torn c task_id (old ++ b ∷ tail) old tail b (cut_torn (b ∷ tail) f)) [
        | inl h ↦ inr (ap (λ (r : List ℕ × Option Bool). r.0) h)
        | inr h ↦ inl (ap (λ (r : List ℕ × Option Bool). r.0) h)
      ]

  left_of :
      (k : ℕ) (t : List ℕ)
      → take k (body ++ 10 ∷ []) ≡ t
      → left_by k ≡ (healed c task_id (old ++ t)).0
  left_of k t e = ap (λ (x : List ℕ). (healed c task_id (old ++ x)).0) e

  abbrev Outcome : ℕ → Type 0
  Outcome k =
      ((k ≤ length body) × (left_by k ≡ old))
      ⊎ ((length body ≤ k) × (left_by k ≡ old ++ (body ++ 10 ∷ [])))

  full_line : IsWhole (old ++ (body ++ 10 ∷ []))
  full_line = rw (← append_assoc) (cut-terminated (old ++ body))

  length-line : length (body ++ 10 ∷ []) ≡ suc (length body)
  length-line = omega (arith, length-append {0} body (10 ∷ []))

  -- Of a file of whole records, the writer cut off while it appended `body` and a line feed after
  -- any number `k` of bytes, `heal_torn_tail` leaves the file as it was before, or the file with
  -- the whole new record. The first is so only if `k` is at most the length of `body`, the second
  -- only if it is at least that. (A record holds no line feed, and no proper prefix of it parses.)
  pub heal_after_crash : (k : ℕ) → Outcome k
  heal_after_crash k = elim (dec_lt k (length body)) [
    | yes short ↦ inl (
      omega arith,
      left_of k (take k body) (take-prefix k body (10 ∷ []) (omega arith))
          ∙ (healed_short (take k body) (any-take (λ b. eqb b 10) k body feedless)
              (partial k short)),
    )
    | no long ↦ elim (dec_lt (length body) k) [
      | yes past ↦ inr (
        omega arith,
        left_of k (body ++ 10 ∷ []) (take_all k (body ++ 10 ∷ []) (omega (arith, length-line)))
            ∙ (ap (λ (r : List ℕ × Option Bool). r.0)
                (healed_whole c task_id (old ++ (body ++ 10 ∷ [])) full_line)),
      )
      | no met ↦
          let fits : take k (body ++ 10 ∷ []) ≡ body =
            take-prefix k body (10 ∷ []) (omega arith) ∙ take_all k body (omega arith) in
          elim (healed_unended body feedless) [
            | inl h ↦ inl (omega arith, left_of k body fits ∙ h)
            | inr h ↦ inr (omega arith, left_of k body fits ∙ (h ∙ append_assoc old body (10 ∷ [])))
          ]
    ]
  ]
