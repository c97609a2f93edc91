-- ===== src/Worker/Masked.antt =====
-- What evidence shows of the arguments of a call (core/crates/worker/src/redact.rs, and the entry
-- that loop.rs and the tools write in front of each call).
use Prim.Native.Char.{Char, code}
use aite.Base.{
  Bool-cases, at_each, leb, eqb_iff, holds_to, eqb, Decides, eq-Decides, Some, any-Decides, ℕ, ◌+◌,
  ◌-◌, ◌≤◌, ◌<◌, String, ◌≡◌, refl, sym, subst, ◌∙◌, ◌⊎◌, inl, inr, Bool, true, false, ◌&&◌, List,
  [], ◌∷◌, ◌++◌, arith, ◌==◌, Char-path,
}
use aite.Base.Exec.{Result, err, ok}
use aite.Contracts.Evidence.{Elements, EvidenceKind, Members, Value}
use aite.Contracts.Protocol.{ToolCallRequest}
use aite.Contracts.TaskNo.{char_of}
use aite.Control.Plane.{Entry, IngressError, append_evidence, port}
use aite.Control.Words.{lower_char, lower_letters, map_chars}
use aite.Store.Calls.{call}
use aite.Worker.Desk.{Desk, Ports, RunError, act, acted, reads, record_event}
use aite.Worker.Redact.{
  is_secret_key, redact_args, redact_items, redact_text, redact_value, secret_keys, value_or_mask,
}
use aite.Worker.Tools.{call_payload, note_call}

-- A letter A to Z and its small letter, or twice the same other character.
abbrev pub SameLetter : Char → Char → Type 0
SameLetter c d =
    ((65 ≤ code c) × (code c ≤ 90) × (code d ≡ code c + 32))
    ⊎ (((code c < 65) ⊎ (90 < code c)) × (d ≡ c))

-- The second text is the first in small letters.
abbrev pub Spells : String → String → Type 0
Spells String.[] String.[] = Unit
Spells (String.◌∷◌ c s) (String.◌∷◌ d r) = SameLetter c d × Spells s r
Spells _ _ = ⊥

abbrev pub IsSecret : String → Type 0
IsSecret key =
    Some (λ s. Spells key s)
      ("api_key" ∷ "apikey" ∷ "token" ∷ "access_token" ∷ "password" ∷ "passwd" ∷ "secret"
        ∷ "app_secret" ∷ "client_secret" ∷ "authorization" ∷ [])

small_letter : ℕ → Bool
small_letter n = eqb (code (char_of lower_letters n)) (n + 97)

small_letters : holds_to small_letter 25 ≡ true
unfolding holds_to small_letter
small_letters = refl

code-letter : (n : ℕ) → n ≤ 25 → code (char_of lower_letters n) ≡ n + 97
unfolding small_letter
code-letter n h =
    (eqb_iff (code (char_of lower_letters n)) (n + 97)).0
      (at_each small_letter 25 n h small_letters)

lower_char-SameLetter : (c : Char) → SameLetter c (lower_char c)
unfolding lower_char
lower_char-SameLetter c = elim (Bool-cases (leb 65 (code c) && leb (code c) 90)) [
  | inl e ↦
      rw e
        (inl (ground arith, ground arith, code-letter (code c - 65) (ground arith) ∙ ground arith))
  | inr e ↦ rw e (inr (ground arith, refl))
]

SameLetter-unique : (c d e : Char) → SameLetter c d → SameLetter c e → d ≡ e
SameLetter-unique c d e (inl (a, b, p)) (inl (f, g, q)) = Char-path d e (p ∙ sym q)
SameLetter-unique c d e (inl (a, b, p)) (inr (f, q)) = absurd (ground arith)
SameLetter-unique c d e (inr (f, p)) (inl (a, b, q)) = absurd (ground arith)
SameLetter-unique c d e (inr (a, p)) (inr (b, q)) = p ∙ sym q

map_chars-Spells : (s : String) → Spells s (map_chars lower_char s)
map_chars-Spells String.[] = tt
map_chars-Spells (String.◌∷◌ c s) = (lower_char-SameLetter c, map_chars-Spells s)

Spells-unique : (s r q : String) → Spells s r → Spells s q → r ≡ q
Spells-unique String.[] String.[] String.[] h k = refl
Spells-unique String.[] String.[] (String.◌∷◌ e q) h k = elim k [ ]
Spells-unique String.[] (String.◌∷◌ d r) q h k = elim h [ ]
Spells-unique (String.◌∷◌ c s) String.[] q h k = elim h [ ]
Spells-unique (String.◌∷◌ c s) (String.◌∷◌ d r) String.[] h k = elim k [ ]
Spells-unique (String.◌∷◌ c s) (String.◌∷◌ d r) (String.◌∷◌ e q) (h, hs) (k, ks) =
    let first : d ≡ e = SameLetter-unique c d e h k in
    let rest : r ≡ q = Spells-unique s r q hs ks in λ i. String.◌∷◌ (first i) (rest i)

spelled-Decides : (key s : String) → Decides (s == map_chars lower_char key) (Spells key s)
spelled-Decides key s = elim (eq-Decides s (map_chars lower_char key)) [
  | inl (e, h) ↦ inl (e, subst (Spells key) (sym h) (map_chars-Spells key))
  | inr (e, n) ↦
      inr (e, λ h. n (Spells-unique key s (map_chars lower_char key) h (map_chars-Spells key)))
]

is_secret_key-Decides : (key : String) → Decides (is_secret_key key) (IsSecret key)
unfolding is_secret_key
is_secret_key-Decides key =
    any-Decides (λ s. s == map_chars lower_char key) (λ s. Spells key s) (spelled-Decides key)
      secret_keys

-- What is shown of a value, at any depth of arrays and objects: the value of a secret key is the
-- mask; all other entries stand where they did, texts with their secrets masked.
abbrev mutual
  pub Shows : (Char → Bool) → Value → Value → Type 0
  Shows p (Value.array items) (Value.array shown) = ShowsItems p items shown
  Shows p (Value.object args) (Value.object shown) = ShowsArgs p args shown
  Shows p (Value.text s) w = w ≡ Value.text (redact_text p s)
  Shows p (Value.null) w = w ≡ Value.null
  Shows p (Value.bool b) w = w ≡ Value.bool b
  Shows p (Value.number n) w = w ≡ Value.number n
  Shows p _ _ = ⊥

  pub ShowsItems : (Char → Bool) → Elements → Elements → Type 0
  ShowsItems p Elements.no_elements Elements.no_elements = Unit
  ShowsItems p (Elements.element v items) (Elements.element w shown) =
      Shows p v w × ShowsItems p items shown
  ShowsItems p _ _ = ⊥

  pub ShowsArgs : (Char → Bool) → Members → Members → Type 0
  ShowsArgs p Members.no_members Members.no_members = Unit
  ShowsArgs p (Members.member k v args) (Members.member j w shown) =
      (j ≡ k)
      × ((IsSecret k × (w ≡ Value.text "***")) ⊎ (¬ IsSecret k × Shows p v w))
      × ShowsArgs p args shown
  ShowsArgs p _ _ = ⊥

module _ (is_alphanumeric : Char → Bool) where
  secret_lem :
      (k : String) (v w : Value)
      → Shows is_alphanumeric v w
      → (IsSecret k × (value_or_mask is_alphanumeric (is_secret_key k) w ≡ Value.text "***"))
        ⊎ (¬ IsSecret k
            × Shows is_alphanumeric v (value_or_mask is_alphanumeric (is_secret_key k) w))
  secret_lem k v w h = elim (is_secret_key-Decides k) [
    | inl (e, s) ↦ rw e (inl (s, refl))
    | inr (e, n) ↦ rw e (inr (n, h))
  ]

  mutual
    unfolding redact_value redact_items redact_args

    redact_value-Shows : (v : Value) → Shows is_alphanumeric v (redact_value is_alphanumeric v)
    redact_value-Shows Value.null = refl
    redact_value-Shows (Value.bool b) = refl
    redact_value-Shows (Value.number n) = refl
    redact_value-Shows (Value.text s) = refl
    redact_value-Shows (Value.array items) = redact_items-Shows items
    redact_value-Shows (Value.object args) = redact_args-Shows args

    redact_items-Shows :
        (items : Elements) → ShowsItems is_alphanumeric items (redact_items is_alphanumeric items)
    redact_items-Shows Elements.no_elements = tt
    redact_items-Shows (Elements.element v items) = (redact_value-Shows v, redact_items-Shows items)

    redact_args-Shows :
        (args : Members) → ShowsArgs is_alphanumeric args (redact_args is_alphanumeric args)
    redact_args-Shows Members.no_members = tt
    redact_args-Shows (Members.member k v args) = (
      refl,
      secret_lem k v (redact_value is_alphanumeric v) (redact_value-Shows v),
      redact_args-Shows args,
    )

-- What the entry in front of a call does to the evidence.
abbrev pub Notes : Ports → ToolCallRequest → Desk → Result {0, 0} RunError Unit × Desk → Type 0
Notes p call d (err e, d') = d'.world.entries ≡ d.world.entries
Notes p call d (ok u, d') =
    (shown : Members) × ShowsArgs p.is_alphanumeric call.arguments shown
    × (d'.world.entries
        ≡ d.world.entries
          ++ record {
            task_id = d.ctx.task.id;
            kind = EvidenceKind.tool_call;
            payload = Members.member "call_id" (Value.text call.call_id) (
                Members.member "name" (Value.text call.name)
                  (Members.member "arguments" (Value.object shown) Members.no_members));
          }
            ∷ [])

abbrev entry_of : Ports → ToolCallRequest → Desk → Entry
entry_of p call d = record {
  task_id = d.ctx.task.id;
  kind = EvidenceKind.tool_call;
  payload = call_payload p call;
}

port-Notes :
    (p : Ports) (call : ToolCallRequest) (d : Desk) (faults : List Bool)
    → Notes p call d (
        acted d (
          port faults IngressError.evidence
            (λ v. record v { entries = v.entries ++ entry_of p call d ∷ [] })
            d.world))
port-Notes p call d [] = (
  redact_args p.is_alphanumeric call.arguments,
  redact_args-Shows p.is_alphanumeric call.arguments,
  refl,
)
port-Notes p call d (true ∷ faults) = refl
port-Notes p call d (false ∷ faults) = (
  redact_args p.is_alphanumeric call.arguments,
  redact_args-Shows p.is_alphanumeric call.arguments,
  refl,
)

-- If `note_call` fails, the evidence is as before. If it succeeds, it added one entry, of the run's
-- task, with the id, the name and the arguments of the call: at any depth of objects and arrays all
-- keys stand as they did, the value of a key that is one of the ten secret ones, in any case of the
-- letters A to Z, is the mask, and any other value is shown, texts as `redact_text` makes them.
pub note_call-Notes :
    (p : Ports) (call : ToolCallRequest) (d : Desk) → Notes p call d (note_call p call d)
unfolding note_call record_event append_evidence reads act aite.Worker.Desk.◌>>=◌
note_call-Notes p call d = port-Notes p call d d.world.faults
