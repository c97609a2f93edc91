-- ===== src/Worker/Transcript.antt =====
-- What of a transcript the model is given (core/crates/worker/src/context/transcript.rs).
use aite.Base.{
  Bool-cases, leb, take, drop, length, render, decimal, map-Pairs, Pairs, ℕ, zero, suc, ◌-◌, ◌≤◌,
  ◌<◌, ◌≡◌, refl, sym, ap, ◌∙◌, ◌⊎◌, inl, inr, none, List, [], ◌∷◌, ◌++◌, map, arith,
}
use aite.Contracts.Protocol.{Message, Role, text_message}
use aite.Contracts.Session.{Turn, TurnRole}
use aite.Worker.Context.{max_transcript_turns, role_of, transcript_messages, turn_message}
use aite.Worker.Texts.{omitted_turns}

-- Whose words a message gives.
abbrev pub Speaks : TurnRole → Role → Type 0
Speaks TurnRole.user r = r ≡ Role.user
Speaks TurnRole.assistant r = r ≡ Role.assistant
Speaks TurnRole.system_note r = r ≡ Role.system

-- The message says what was said in the turn, and nothing else.
abbrev pub Tells : Turn → Message → Type 0
Tells t m =
    Speaks t.role m.role
    × (m.content ≡ t.content)
    × (m.tool_calls ≡ [])
    × (m.tool_call_id ≡ none)
    × (m.name ≡ none)

abbrev pub omission : ℕ → Message
omission omitted = text_message Role.system (render ("[中间省略 " ∷ decimal omitted ∷ " 轮]" ∷ []))

-- All turns, or the first two, a note of how many were left out, and the last thirty.
abbrev pub Transcribes : List Turn → List Message → Type 0
Transcribes turns messages =
    ((length turns ≤ 40) × Pairs Tells turns messages)
    ⊎ ((40 < length turns)
        × (head : List Turn) × (middle : List Turn) × (tail : List Turn) × (turns
            ≡ head ++ (middle ++ tail))
        × (length head ≡ 2)
        × (length tail ≡ 30)
        × (first : List Message) × (last : List Message) × (messages
            ≡ first ++ omission (length middle) ∷ last)
        × Pairs Tells head first
        × Pairs Tells tail last)

module _ {A : Type 0} where
  length-drop : (n : ℕ) (xs : List A) → length (drop n xs) ≡ length xs - n
  length-drop zero xs = omega arith
  length-drop (suc n) [] = omega arith
  length-drop (suc n) (x ∷ xs) = omega (arith, length-drop n xs)

  length-take : (n : ℕ) (xs : List A) → n ≤ length xs → length (take n xs) ≡ n
  length-take zero xs h = refl
  length-take (suc n) [] h = absurd (omega arith)
  length-take (suc n) (x ∷ xs) h = ap suc (length-take n xs (omega arith))

  take-append-drop : (n : ℕ) (xs : List A) → xs ≡ take n xs ++ drop n xs
  take-append-drop zero xs = refl
  take-append-drop (suc n) [] = refl
  take-append-drop (suc n) (x ∷ xs) = ap (λ ys. x ∷ ys) (take-append-drop n xs)

  drop-nil : (n : ℕ) → drop {A = A} n [] ≡ []
  drop-nil zero = refl
  drop-nil (suc n) = refl

  drop-two : (n : ℕ) (xs : List A) → drop n (drop 2 xs) ≡ drop (suc (suc n)) xs
  drop-two n [] = drop-nil n
  drop-two n (x ∷ []) = drop-nil n
  drop-two n (x ∷ y ∷ xs) = refl

turn_message-Tells : (t : Turn) → Tells t (turn_message t)
turn_message-Tells t = (role_of-Speaks t.role, refl, refl, refl, refl)
  where
    role_of-Speaks : (r : TurnRole) → Speaks r (role_of r)
    role_of-Speaks TurnRole.user = refl
    role_of-Speaks TurnRole.assistant = refl
    role_of-Speaks TurnRole.system_note = refl

abbrev middle_of : List Turn → List Turn
middle_of turns = take (length turns - 32) (drop 2 turns)

two_and :
    (turns : List Turn) → 32 ≤ length turns → suc (suc (length turns - 32)) ≡ length turns - 30
two_and turns h = omega arith

three_parts :
    (turns : List Turn)
    → 32 ≤ length turns
    → turns ≡ take 2 turns ++ (middle_of turns ++ drop (length turns - 30) turns)
three_parts turns h =
    take-append-drop 2 turns
    ∙ ap (λ xs. take 2 turns ++ xs)
        (take-append-drop (length turns - 32) (drop 2 turns)
          ∙ ap (λ xs. middle_of turns ++ xs)
              (drop-two (length turns - 32) turns ∙ ap (λ n. drop n turns) (two_and turns h)))

length-middle_of :
    (turns : List Turn) → 32 ≤ length turns → length (middle_of turns) ≡ length turns - 2 - 30
length-middle_of turns h =
    omega
      (arith, length-take (length turns - 32) (drop 2 turns) (omega (arith, length-drop 2 turns)))

cut-Transcribes :
    (turns : List Turn)
    → 40 < length turns
    → Transcribes turns (
        map turn_message (take 2 turns)
        ++ text_message Role.system (omitted_turns (length turns - 2 - 30))
          ∷ map turn_message (drop (length turns - 30) turns))
unfolding omitted_turns
cut-Transcribes turns h = inr (
  h,
  take 2 turns,
  middle_of turns,
  drop (length turns - 30) turns,
  three_parts turns (omega arith),
  length-take 2 turns (omega arith),
  omega (arith, length-drop (length turns - 30) turns),
  map turn_message (take 2 turns),
  map turn_message (drop (length turns - 30) turns),
  ap
      (λ n.
        map turn_message (take 2 turns)
        ++ omission n ∷ map turn_message (drop (length turns - 30) turns))
      (sym (length-middle_of turns (omega arith))),
  map-Pairs Tells turn_message turn_message-Tells (take 2 turns),
  map-Pairs Tells turn_message turn_message-Tells (drop (length turns - 30) turns),
)

-- What the model is given of a transcript. Of at most 40 turns: one message for each, in their
-- order, with the role of its speaker and its content, and no tool call. Of more turns: the first
-- two and the last 30 so, and between them one note of the system with the number of the turns left out.
pub transcript_messages-Transcribes :
    (turns : List Turn) → Transcribes turns (transcript_messages turns)
unfolding transcript_messages
transcript_messages-Transcribes turns =
    elim (Bool-cases (leb (length turns) max_transcript_turns)) [
      | inl e ↦ rw e (inl (ground arith, map-Pairs Tells turn_message turn_message-Tells turns))
      | inr e ↦ rw e (cut-Transcribes turns (ground arith))
    ]
