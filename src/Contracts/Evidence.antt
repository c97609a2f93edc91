-- ===== src/Contracts/Evidence.antt =====
-- core/crates/contracts/src/evidence.rs: the events of an evidence chain and their hashes. The
-- digest (crate sha2) is a parameter. A JSON number is its printed form (serde_json).
use Prim.Native.Char.{Char, code}
use aite.Base.{
  ltb, eqb, if◌then◌else◌, sort_by, key_leb, lex_leb, join, render, ℕ, ◌/◌, ◌%◌, String, ◌≡◌, refl,
  Bool, true, false, Option, List, [], ◌∷◌, map,
}
use aite.Contracts.TaskNo.{char_of}

pub data EvidenceKind : Type 0 where
  task_created event_received model_call checklist_op tool_call tool_result artifact : EvidenceKind
  delivered failed cancelled : EvidenceKind

mutual
  pub data Value : Type 0 where
    null : Value
    bool : Bool → Value
    number : String → Value
    text : String → Value
    array : Elements → Value
    object : Members → Value

  pub data Elements : Type 0 where
    no_elements : Elements
    element : Value → Elements → Elements

  pub data Members : Type 0 where
    no_members : Members
    member : String → Value → Members → Members

-- Lower-case hexadecimal, two digits: the last two of `{:04x}` of a code below 0x20.
hex_digit : ℕ → String
hex_digit d = String.◌∷◌ (char_of hex d) ""
  where
    hex : List Char
    hex =
        "0" ∷ "1" ∷ "2" ∷ "3" ∷ "4" ∷ "5" ∷ "6" ∷ "7" ∷ "8" ∷ "9" ∷ "a" ∷ "b" ∷ "c" ∷ "d" ∷ "e"
        ∷ "f" ∷ []

unfoldable pub escape : Char → String
unfolding hex_digit
escape c =
    let n = code c in
    if eqb n 34
    then "\\\""
    else if eqb n 92
    then "\\\\"
    else if eqb n 10
    then "\\n"
    else if eqb n 13
    then "\\r"
    else if eqb n 9
    then "\\t"
    else if eqb n 8
    then "\\b"
    else if eqb n 12
    then "\\f"
    else if ltb n 32
    then render ("\\u00" ∷ hex_digit (n / 16) ∷ hex_digit (n % 16) ∷ [])
    else String.◌∷◌ c ""

escaped : String → List String
escaped String.[] = []
escaped (String.◌∷◌ c s) = escape c ∷ escaped s

unfoldable pub write_string : String → String
unfolding escape escaped
write_string s = render ("\"" ∷ render (escaped s) ∷ "\"" ∷ [])

unfoldable pub write_bool : Bool → String
write_bool true = "true"
write_bool false = "false"

-- The members of an object are written in the order of their keys.
pub write_members : List (String × String) → String
unfolding write_string
write_members members = render (
    "{"
    ∷ join ","
        (map (λ m. render (write_string m.0 ∷ ":" ∷ m.1 ∷ [])) (sort_by (λ m. (0, m.0)) members))
    ∷ "}"
    ∷ [])

unfoldable mutual
  pub write_value : Value → String
  write_value Value.null = "null"
  write_value (Value.bool b) = write_bool b
  write_value (Value.number n) = n
  write_value (Value.text s) = write_string s
  write_value (Value.array items) = render ("[" ∷ join "," (write_items items) ∷ "]" ∷ [])
  write_value (Value.object fields) = write_members (write_fields fields)

  pub write_items : Elements → List String
  write_items Elements.no_elements = []
  write_items (Elements.element v items) = write_value v ∷ write_items items

  pub write_fields : Members → List (String × String)
  write_fields Members.no_members = []
  write_fields (Members.member k v fields) = (k, write_value v) ∷ write_fields fields

unfoldable pub canonical_json : Members → String
unfolding write_value write_items write_fields write_members write_bool render join sort_by key_leb
    lex_leb
canonical_json payload = write_members (write_fields payload)

pub record EvidenceEvent : Type 0 where
  pub task_id : String
  pub seq : ℕ
  pub kind : EvidenceKind
  pub payload_hash : String
  pub payload_ref : Option String
  pub payload : Option Members
  pub prev_hash : String
  pub hash : String
  pub created_at : ℕ

abbrev pub genesis : String
genesis = "0000000000000000000000000000000000000000000000000000000000000000"

module _ (sha256_hex : String → String) where
  unfoldable pub chain_hash : String → String → String
  chain_hash prev_hash payload_hash = sha256_hex (render (prev_hash ∷ payload_hash ∷ []))

  unfoldable pub payload_hash_of : Members → String
  payload_hash_of payload = sha256_hex (canonical_json payload)

-- The test vectors of evidence.rs.
canonical_a :
    canonical_json (Members.member "a" (Value.number "1") Members.no_members) ≡ "{\"a\":1}"
unfolding canonical_json
canonical_a = refl
