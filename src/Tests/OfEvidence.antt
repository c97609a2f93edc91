-- ===== src/Tests/OfEvidence.antt =====
-- Runs of the theorems on the evidence files, with a parser that knows one record, `{}`.
use aite.Base.{
  take, ℕ, zero, suc, ◌≤◌, ◌<◌, ◌≡◌, refl, ◌⊎◌, true, Option, none, some, List, [], ◌∷◌, ◌++◌,
  arith,
}
use aite.Contracts.Evidence.{EvidenceEvent, EvidenceKind, genesis}
use aite.Evidence.{Codec, healed}
use aite.Evidence.Bytes.{cut}
use aite.Evidence.Crash.{heal_after_crash}
use aite.Evidence.Healing.{IsWhole, healed-IsWhole}

abbrev event_zero : EvidenceEvent
event_zero = record {
  task_id = "t1";
  seq = 0;
  kind = EvidenceKind.task_created;
  payload_hash = "";
  payload_ref = none;
  payload = none;
  prev_hash = genesis;
  hash = "";
  created_at = 1;
}

abbrev parse : List ℕ → Option EvidenceEvent
parse [] = none
parse (a ∷ []) = none
parse (a ∷ b ∷ rest) = some event_zero

abbrev codec : Codec
codec = record {
  parse_event = parse;
  print_event = λ e. 123 ∷ 125 ∷ [];
  parse_object = λ s. none;
  is_utf8 = λ bytes. true;
  sha256_hex = λ s. s;
}

parse_partial : (k : ℕ) → k < 2 → parse (take k (123 ∷ 125 ∷ [])) ≡ none
parse_partial zero h = refl
parse_partial (suc zero) h = refl
parse_partial (suc (suc k)) h = absurd (omega arith)

abbrev old : List ℕ
old = 123 ∷ 125 ∷ 10 ∷ []

heal_after_crash_example :
    ((1 ≤ 2) × ((healed codec "t1" (old ++ 123 ∷ [])).0 ≡ old))
    ⊎ ((2 ≤ 1) × ((healed codec "t1" (old ++ 123 ∷ [])).0 ≡ old ++ old))
unfolding cut
heal_after_crash_example =
    heal_after_crash codec "t1" old (123 ∷ 125 ∷ []) refl refl parse_partial 1

healed-IsWhole_example : IsWhole (healed codec "t1" (123 ∷ 125 ∷ 10 ∷ 123 ∷ [])).0
healed-IsWhole_example = healed-IsWhole codec "t1" (123 ∷ 125 ∷ 10 ∷ 123 ∷ [])
