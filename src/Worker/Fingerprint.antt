-- ===== src/Worker/Fingerprint.antt =====
-- core/crates/worker/src/fingerprint.rs: the signature of a tool call. Strings are escaped as JSON's
-- are in Contracts/Evidence.
use Prim.Native.Char.{Char, code}
use aite.Base.{
  eqb, if◌then◌else◌, sort_by, key_leb, lex_leb, join, render, ℕ, String, ◌≡◌, refl, Bool, true,
  false, not, ◌&&◌, Option, none, some, List, [], ◌∷◌, map,
}
use aite.Contracts.Evidence.{Elements, Members, Value, write_bool, write_string}
use aite.Contracts.Protocol.{ToolCallRequest}
use aite.Store.Calls.{call}
use aite.Worker.Scan.{has_char}

pub write_object : List (String × String) → String
unfolding write_string
write_object members = render (
    "{"
    ∷ join ", "
        (map (λ m. render (write_string m.0 ∷ ": " ∷ m.1 ∷ [])) (sort_by (λ m. (0, m.0)) members))
    ∷ "}"
    ∷ [])

unfoldable mutual
  pub stringify : Value → String
  stringify Value.null = "null"
  stringify (Value.bool b) = write_bool b
  stringify (Value.number n) = n
  stringify (Value.text s) = write_string s
  stringify (Value.array items) = render ("[" ∷ join ", " (stringify_items items) ∷ "]" ∷ [])
  stringify (Value.object members) = write_object (stringify_members members)

  pub stringify_items : Elements → List String
  stringify_items Elements.no_elements = []
  stringify_items (Elements.element v items) = stringify v ∷ stringify_items items

  pub stringify_members : Members → List (String × String)
  stringify_members Members.no_members = []
  stringify_members (Members.member k v members) = (k, stringify v) ∷ stringify_members members

unfoldable pub call_signature : ToolCallRequest → String
unfolding stringify stringify_items stringify_members write_object write_bool render join sort_by
    key_leb lex_leb
call_signature call =
    render (call.name ∷ ":" ∷ write_object (stringify_members call.arguments) ∷ [])

-- One character of `repr`: `quote` is the code of the quote around.
unfoldable repr_char : ℕ → Char → String
repr_char quote c =
    let n = code c in
    if eqb n 92
    then "\\\\"
    else if eqb n 10
    then "\\n"
    else if eqb n 13
    then "\\r"
    else if eqb n 9
    then "\\t"
    else if eqb n quote
    then String.◌∷◌ "\\" (String.◌∷◌ c "")
    else String.◌∷◌ c ""

unfoldable repr_chars : ℕ → String → List String
repr_chars quote String.[] = []
repr_chars quote (String.◌∷◌ c s) = repr_char quote c ∷ repr_chars quote s

unfoldable repr_text : Bool → String → String
unfolding repr_chars repr_char
repr_text true s = render ("\"" ∷ render (repr_chars 34 s) ∷ "\"" ∷ [])
repr_text false s = render ("'" ∷ render (repr_chars 39 s) ∷ "'" ∷ [])

unfoldable pub py_repr : Option Value → String
unfolding repr_text stringify
py_repr none = "None"
py_repr (some Value.null) = "None"
py_repr (some (Value.bool true)) = "True"
py_repr (some (Value.bool false)) = "False"
py_repr (some (Value.number n)) = n
py_repr (some (Value.text s)) = repr_text (has_char 39 s && not (has_char 34 s)) s
py_repr (some v) = stringify v

-- The order of the keys does not matter, and the separators have spaces.
sorted_signature :
    call_signature (record {
      call_id = "1";
      name = "f";
      arguments = Members.member "b" (Value.number "2") (
          Members.member "a"
            (Value.array (Elements.element Value.null Elements.no_elements))
            Members.no_members);
    })
    ≡ "f:{\"a\": [null], \"b\": 2}"
unfolding call_signature
sorted_signature = refl
