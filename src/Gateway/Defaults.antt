-- ===== src/Gateway/Defaults.antt =====
-- core/crates/gateway/src/schema.rs: what the arguments are that a tool is given.
use aite.Base.{
  Option-cases, keep, String, ◌≡◌, refl, ap, subst, ◌∙◌, inl, inr, not, Option, none, some, List,
  [], ◌∷◌,
}
use aite.Base.Exec.{Result, err, ok}
use aite.Contracts.Evidence.{Members, Value}
use aite.Contracts.Protocol.{get_member}
use aite.Gateway.Schema.{
  Validating, Walker, as_arguments, check_known, check_required, check_schema, check_strict_integer,
  check_top, has_key, properties_of, refuse_unknown, validate_arguments, walk, walk_properties,
  walkers,
}
use aite.Gateway.Settling.{
  HasDistinctKeys, Settled, and_then-ok, checked-ok, default_or, get_member-absent, keep-nil,
  object_eq, ok_eq, present_of_member, untouched, walk_properties-Settled, walked_by,
  walker_of-walkers,
}
use aite.Gateway.Shapes.{as_object, get, keys}

module _ (p : Validating) where
  -- What a tool is given under a key: the walk of what the model gave, if it gave something, and else
  -- the default of the schema's property, if there is one.
  abbrev pub Filled : String → Option Value → Option Value → Option Value → Type 0
  Filled k (some subschema) (some given) now =
      (v : Value) × (walk p given subschema k ≡ ok v) × (now ≡ some v)
  Filled k (some subschema) none now = now ≡ get "default" subschema
  Filled k none given now = (given ≡ none) × (now ≡ none)

  default_or-none : (d : Option Value) → default_or p d none ≡ d
  default_or-none none = refl
  default_or-none (some d) = refl

  Filled-of_Settled :
      (k : String) (s : Value) (given now : Option Value)
      → Settled p (walked_by p given) s k given now
      → Filled k (some s) given now
  Filled-of_Settled k s (some v) now h = h
  Filled-of_Settled k s none now h = h ∙ default_or-none (get "default" s)

  refuse_unknown-nil :
      (props : Members) (l : List String) → refuse_unknown p props l ≡ ok tt → l ≡ []
  unfolding refuse_unknown
  refuse_unknown-nil props [] h = refl
  refuse_unknown-nil props (k ∷ l) h = cc

  -- A key that is no property is not among arguments that are known.
  check_known-absent :
      (props arguments : Members) (k : String)
      → check_known p props arguments ≡ ok tt
      → get_member k props ≡ none
      → get_member k arguments ≡ none
  unfolding check_known
  check_known-absent props arguments k e h = get_member-absent k arguments (
      keep-nil (λ j. not (has_key p props j)) (keys arguments) k
        (refuse_unknown-nil props (keep (λ j. not (has_key p props j)) (keys arguments)) e)
        (rw (present_of_member k props h) refl))

  as_arguments-ok :
      (r : Result String Value) (out : Members)
      → as_arguments p r ≡ ok out
      → r ≡ ok (Value.object out)
  unfolding as_arguments
  as_arguments-ok (ok (Value.object fields)) out h =
      ap (λ m. ok (Value.object m)) (ok_eq fields out h)
  as_arguments-ok (ok Value.null) out h = cc
  as_arguments-ok (ok (Value.bool b)) out h = cc
  as_arguments-ok (ok (Value.number n)) out h = cc
  as_arguments-ok (ok (Value.text t)) out h = cc
  as_arguments-ok (ok (Value.array items)) out h = cc
  as_arguments-ok (err e) out h = cc

  walk_properties-Filled :
      (props arguments out : Members) (k : String)
      → HasDistinctKeys props
      → (get_member k props ≡ none → get_member k arguments ≡ none)
      → walk_properties p (walkers p arguments) props "" arguments ≡ ok out
      → Filled k (get_member k props) (get_member k arguments) (get_member k out)
  walk_properties-Filled props arguments out k d known e =
      elim (Option-cases (get_member k props)) [
        | inl n ↦ rw n (
          known n,
          untouched p (walkers p arguments) props "" arguments out k (present_of_member k props n) e
              ∙ known n,
        )
        | inr (s, is_property) ↦ rw is_property (
            Filled-of_Settled k s (get_member k arguments) (get_member k out) (
              subst
                (λ (o : Option (Walker p)).
                  Settled p o s k (get_member k arguments) (get_member k out))
                (walker_of-walkers p k arguments)
                (walk_properties-Settled p (walkers p arguments) props "" arguments out k s d
                  is_property e)))
      ]

  walk-Filled :
      (schema : Value) (arguments out : Members) (k : String)
      → HasDistinctKeys (properties_of p schema)
      → (get_member k (properties_of p schema) ≡ none → get_member k arguments ≡ none)
      → walk p (Value.object arguments) schema "" ≡ ok (Value.object out)
      → Filled k (get_member k (properties_of p schema)) (get_member k arguments) (get_member k out)
  unfolding walk get_member
  walk-Filled schema arguments out k d known e =
      let (strict, e') =
        checked-ok (check_strict_integer p (Value.object arguments) schema "") _ (Value.object out)
          e in
      elim (Option-cases (as_object (get "properties" schema))) [
        | inl n ↦
            let same = object_eq arguments out (rw n at e') in
            let absent : get_member k arguments ≡ none = known (rw n refl) in
            rw n (absent, subst (λ (m : Members). get_member k m ≡ none) same absent)
        | inr (props, is_object) ↦
            let (out', walked, same) =
              and_then-ok (walk_properties p (walkers p arguments) props "" arguments) _
                (Value.object out) (rw is_object at e') in
            rw is_object (
              walk_properties-Filled props arguments out k (rw is_object at d)
                (rw is_object at known) (walked ∙ ap (λ m. ok m) (object_eq out' out same)))
      ]

  -- When arguments are accepted, and no property of the schema stands twice: under a key that is a
  -- property stands the walk of what was given, or else the property's default, or nothing if
  -- there is none; under any other key nothing was given and nothing stands.
  pub validate_arguments-Filled :
      (schema : Value) (arguments out : Members) (k : String)
      → HasDistinctKeys (properties_of p schema)
      → validate_arguments p schema arguments ≡ ok out
      → Filled k (get_member k (properties_of p schema)) (get_member k arguments) (get_member k out)
  unfolding validate_arguments
  validate_arguments-Filled schema arguments out k d e =
      let (top, e1) = checked-ok (check_top p (get "type" schema)) _ out e in
      let (known, e2) = checked-ok (check_known p (properties_of p schema) arguments) _ out e1 in
      let (present, e3) = checked-ok (check_required p schema arguments) _ out e2 in
      let (right, e4) = checked-ok (check_schema p schema arguments) _ out e3 in
      walk-Filled schema arguments out k d
        (check_known-absent (properties_of p schema) arguments k known)
        (as_arguments-ok (walk p (Value.object arguments) schema "") out e4)
