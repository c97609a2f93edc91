-- ===== src/Worker/Final.antt =====
-- core/crates/worker/src/local_tools/final.rs. A number is truthy when its printed form has a digit
-- other than zero.
-- The code of a `FinalError` is always `InvalidArgs`, so that its text stands for it.
use Prim.Native.Char.{code}
use aite.Base.{
  leb, eqb, if◌then◌else◌, String, Bool, true, false, not, ◌&&◌, ◌||◌, Option, none, some, List, [],
  ◌∷◌, ◌==◌,
}
use aite.Base.Exec.{Result, err, ok}
use aite.Contracts.Evidence.{Elements, Members, Value, write_bool, write_value}
use aite.Contracts.Protocol.{ToolCallRequest, as_str, get_member}
use aite.Control.Plane.{reply}
use aite.Control.Words.{trim}
use aite.Store.Calls.{call}
use aite.Worker.Scan.{take_while}
use aite.Worker.Texts.{final_artifacts_must_be_array, final_reply_required}

unfoldable has_nonzero : String → Bool
has_nonzero String.[] = false
has_nonzero (String.◌∷◌ c s) = (leb 49 (code c) && leb (code c) 57) || has_nonzero s

-- The mantissa of a number: what stands in front of an exponent.
unfoldable mantissa : String → String
mantissa s = take_while (λ c. not (eqb (code c) 101)) s

unfoldable pub is_truthy : Value → Bool
unfolding has_nonzero mantissa
is_truthy Value.null = false
is_truthy (Value.bool b) = b
is_truthy (Value.number n) = has_nonzero (mantissa n)
is_truthy (Value.text s) = not (s == "")
is_truthy (Value.array Elements.no_elements) = false
is_truthy (Value.array (Elements.element v items)) = true
is_truthy (Value.object Members.no_members) = false
is_truthy (Value.object (Members.member k v rest)) = true

unfoldable pub plain_string : Option Value → String
unfolding write_value write_bool
plain_string none = ""
plain_string (some Value.null) = ""
plain_string (some (Value.text s)) = s
plain_string (some v) = write_value v

abbrev pub has_truthy : String → Members → Bool
has_truthy key members = elim (get_member key members) [ none ↦ false | some v ↦ is_truthy v ]

-- The objects among the elements that have a path.
abbrev artifacts_of : Elements → List Members
artifacts_of Elements.no_elements = []
artifacts_of (Elements.element (Value.object m) items) =
    let rest = artifacts_of items in if has_truthy "path" m then m ∷ rest else rest
artifacts_of (Elements.element v items) = artifacts_of items

abbrev pub parse_artifacts : Option Value → Result {0, 0} String (List Members)
parse_artifacts none = ok []
parse_artifacts (some (Value.array items)) = ok (artifacts_of items)
parse_artifacts (some v) = if is_truthy v then err final_artifacts_must_be_array else ok []

abbrev with_reply :
    String → Result {0, 0} String (List Members) → Result {0, 0} String (String × List Members)
with_reply reply (ok artifacts) = ok (reply, artifacts)
with_reply reply (err e) = err e

-- A text that is not blank.
unfoldable pub filled : Option String → Option String
unfolding trim
filled none = none
filled (some s) = if trim s == "" then none else some s

unfoldable pub parse_final : ToolCallRequest → Result {0, 0} String (String × List Members)
unfolding filled get_member is_truthy
parse_final call = elim (filled (as_str (get_member "reply" call.arguments))) [
  | none ↦ err final_reply_required
  | some reply ↦ with_reply reply (parse_artifacts (get_member "artifacts" call.arguments))
]
