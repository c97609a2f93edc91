-- ===== src/Worker/Trimming.antt =====
-- What the trimming of the context keeps (core/crates/worker/src/context/mod.rs).
-- A message without the content of a tool's result.
use aite.Base.{
  Bool-cases, ltb, leb, if◌then◌else◌, char_count, ℕ, ◌+◌, ◌-◌, ◌≤◌, ◌≡◌, refl, sym, ap, inl, inr,
  Bool, true, false, ◌&&◌, List, [], ◌∷◌, map, arith,
}
use aite.Contracts.Protocol.{Message}
use aite.Worker.Context.{estimate_tokens, is_tool, message_tokens, trim_from, trim_to_budget}
use aite.Worker.Texts.{tool_result_trimmed}

abbrev pub bare : Message → Message
bare m = if is_tool m.role then record m { content = "" } else m

abbrev cut_content : Bool → Message → Message
cut_content b m = if b then record m { content = tool_result_trimmed (char_count m.content) } else m

abbrev cut_total : Bool → Message → ℕ → ℕ
cut_total b m total =
    if b
    then total - char_count m.content + char_count (tool_result_trimmed (char_count m.content))
    else total

module _ (budget : ℕ) where
  -- The whole that is counted changes by what the contents change.
  abbrev Counted : ℕ → List Message → Type 0
  Counted total messages =
      (trim_from budget total messages).1 + estimate_tokens messages
      ≡ total + estimate_tokens (trim_from budget total messages).0

  cut_lem :
      (b : Bool) (m : Message) (messages : List Message) (total : ℕ)
      → message_tokens m + estimate_tokens messages ≤ total
      → Counted (cut_total b m total) messages
      → (trim_from budget (cut_total b m total) messages).1
          + (message_tokens m + estimate_tokens messages)
        ≡ total
          + (message_tokens (cut_content b m)
              + estimate_tokens (trim_from budget (cut_total b m total) messages).0)
  cut_lem true m messages total h ih = omega arith
  cut_lem false m messages total h ih = omega arith

  fits_lem :
      (b : Bool) (m : Message) (rest total : ℕ)
      → message_tokens m + rest ≤ total
      → rest ≤ cut_total b m total
  fits_lem true m rest total h = omega arith
  fits_lem false m rest total h = omega arith

  trim_from-Counted :
      (total : ℕ) (messages : List Message)
      → estimate_tokens messages ≤ total
      → Counted total messages
  unfolding trim_from estimate_tokens
  trim_from-Counted total [] h = refl
  trim_from-Counted total (m ∷ messages) h =
      let len = char_count m.content in
      let b =
        (is_tool m.role && ltb budget total) && ltb (char_count (tool_result_trimmed len)) len in
      cut_lem b m messages total h (
        trim_from-Counted (cut_total b m total) messages
          (fits_lem b m (estimate_tokens messages) total h))

  bare_lem :
      (b : Bool) (m : Message)
      → (b ≡ true → is_tool m.role ≡ true)
      → bare (cut_content b m) ≡ bare m
  bare_lem true m h = rw (h refl) refl
  bare_lem false m h = refl

  and_left : (a b c : Bool) → ((a && b) && c) ≡ true → a ≡ true
  and_left true b c h = refl
  and_left false b c h = h

  trim_from-bare :
      (total : ℕ) (messages : List Message)
      → map bare (trim_from budget total messages).0 ≡ map bare messages
  unfolding trim_from
  trim_from-bare total [] = refl
  trim_from-bare total (m ∷ messages) =
      let len = char_count m.content in
      let short = ltb (char_count (tool_result_trimmed len)) len in
      let b = (is_tool m.role && ltb budget total) && short in
      ap_cons (bare_lem b m (and_left (is_tool m.role) (ltb budget total) short))
        (trim_from-bare (cut_total b m total) messages)
    where
      ap_cons :
          {x y : Message} {xs ys : List Message}
          → x ≡ y
          → xs ≡ ys
          → ◌≡◌ {A = List Message} (x ∷ xs) (y ∷ ys)
      ap_cons e f = cc

-- Trimming changes nothing but the contents of tool results: the messages keep their number and
-- their order, and all else of them stays.
pub trim_to_budget-bare :
    (messages : List Message) (budget : ℕ)
    → map bare (trim_to_budget messages budget).0 ≡ map bare messages
unfolding trim_to_budget
trim_to_budget-bare messages budget = elim (Bool-cases (leb (estimate_tokens messages) budget)) [
  | inl e ↦ rw e refl
  | inr e ↦ rw e (trim_from-bare budget (estimate_tokens messages) messages)
]

-- The answer of the trimming is right about the messages it gives: it is true exactly when their
-- own estimate is within the budget.
pub trim_to_budget-estimate_tokens :
    (messages : List Message) (budget : ℕ)
    → (trim_to_budget messages budget).1
      ≡ leb (estimate_tokens (trim_to_budget messages budget).0) budget
unfolding trim_to_budget
trim_to_budget-estimate_tokens messages budget =
    elim (Bool-cases (leb (estimate_tokens messages) budget)) [
      | inl e ↦ rw e (sym e)
      | inr e ↦
          let total = estimate_tokens messages in
          let h = trim_from-Counted budget total messages (omega arith) in
          rw e (ap (λ n. leb n budget) (left_lem total messages budget h))
    ]
  where
    left_lem :
        (total : ℕ) (messages : List Message) (budget : ℕ)
        → (trim_from budget total messages).1 + total
          ≡ total + estimate_tokens (trim_from budget total messages).0
        → (trim_from budget total messages).1 ≡ estimate_tokens (trim_from budget total messages).0
    left_lem total messages budget h = omega arith
