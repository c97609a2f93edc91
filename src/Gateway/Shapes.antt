-- ===== src/Gateway/Shapes.antt =====
-- core/crates/gateway/src/schema.rs: JSON objects and schemas, and the errors of the crate
-- jsonschema. An object is its members; a schema that is no object has no members.
use aite.Base.{
  if◌then◌else◌, sort_by, join, render, char_count, decimal, ℕ, suc, String, Option, none, some,
  List, [], ◌∷◌, map, ◌==◌,
}
use aite.Contracts.Evidence.{Elements, Members, Value}
use aite.Contracts.Protocol.{get_member}

abbrev pub get : String → Value → Option Value
get key (Value.object fields) = get_member key fields
get key _ = none

abbrev pub as_object : Option Value → Option Members
as_object (some (Value.object fields)) = some fields
as_object _ = none

abbrev pub keys : Members → List String
keys Members.no_members = []
keys (Members.member k v rest) = k ∷ keys rest

-- `Map::insert`
unfoldable pub insert_member : String → Value → Members → Members
insert_member k v Members.no_members = Members.member k v Members.no_members
insert_member k v (Members.member j w rest) =
    let more = insert_member k v rest in
    if j == k then Members.member j v rest else Members.member j w more

unfoldable pub texts_of : Elements → List String
texts_of Elements.no_elements = []
texts_of (Elements.element (Value.text s) items) = s ∷ texts_of items
texts_of (Elements.element _ items) = texts_of items

abbrev pub texts_in : Option Value → List String
texts_in (some (Value.array items)) = texts_of items
texts_in _ = []

unfoldable pub render_list : List String → String
render_list items =
    render ("[" ∷ join ", " (map (λ s. render ("\"" ∷ s ∷ "\"" ∷ [])) items) ∷ "]" ∷ [])

abbrev pub sorted_texts : List String → List String
sorted_texts = sort_by (λ s. (0, s))

-- `types.join("/")` of what the schema declares: one name, or a list of names.
unfoldable pub declared_types : Value → List String
unfolding texts_of
declared_types schema = elim (get "type" schema) [
  | some (Value.text t) ↦ t ∷ []
  | some (Value.array items) ↦ texts_of items
  | _ ↦ []
]

unfoldable pub display_path : String → String
display_path path = if path == "" then "arguments" else path

abbrev pub kind_of : Value → String
kind_of Value.null = "null"
kind_of (Value.bool b) = "boolean"
kind_of (Value.number n) = "number"
kind_of (Value.text s) = "string"
kind_of (Value.array items) = "array"
kind_of (Value.object fields) = "object"

-- What the crate jsonschema reports: where, on what, and which rule.
pub data Segment : Type 0 where
  property : String → Segment
  index : ℕ → Segment

pub data ViolationKind : Type 0 where
  single_type : String → ViolationKind
  multiple_types : List String → ViolationKind
  not_in_enum minimum maximum exclusive_minimum exclusive_maximum : Value → ViolationKind
  min_length max_length min_items max_items : ℕ → ViolationKind
  required_property : Value → ViolationKind
  other_rule : String → ViolationKind

pub record ValidationError : Type 0 where
  pub instance_path : List Segment
  pub value : Value
  pub kind : ViolationKind

unfoldable pub python_path : String → List Segment → String
python_path out [] = out
python_path out (Segment.property name ∷ segments) =
    python_path (if out == "" then name else render (out ∷ "." ∷ name ∷ [])) segments
python_path out (Segment.index i ∷ segments) =
    python_path (render (out ∷ "[" ∷ decimal i ∷ "]" ∷ [])) segments

abbrev pub value_chars : Value → ℕ
value_chars (Value.text s) = char_count s
value_chars _ = 0

pub count_items : Elements → ℕ
count_items Elements.no_elements = 0
count_items (Elements.element v items) = suc (count_items items)

unfoldable pub items_in : Value → ℕ
unfolding count_items
items_in (Value.array items) = count_items items
items_in _ = 0
