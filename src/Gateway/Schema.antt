-- ===== src/Gateway/Schema.antt =====
-- core/crates/gateway/src/schema.rs: `validate_arguments`. The validation by the crate jsonschema,
-- the printing of a JSON value, and whether a number is written as an integer are parameters.
use aite.Base.{
  if◌then◌else◌, keep, contains, join, render, decimal, take_chars, ℕ, ◌+◌, String, Bool, false,
  not, ◌||◌, Option, none, some, List, [], ◌∷◌, ◌==◌,
}
use aite.Base.Exec.{Result, err, ok}
use aite.Contracts.Evidence.{Elements, Members, Value}
use aite.Gateway.Shapes.{
  ValidationError, ViolationKind, as_object, declared_types, display_path, get, insert_member,
  items_in, keys, kind_of, python_path, render_list, sorted_texts, texts_in, texts_of, value_chars,
}

-- The operator `?`.
abbrev pub and_then : {A B : Type 0} → Result String A → (A → Result String B) → Result String B
and_then (ok a) f = f a
and_then (err e) f = err e

abbrev pub checked : {A : Type 0} → Result String (Unit {0}) → Result String A → Result String A
checked (ok _) r = r
checked (err e) r = err e

-- `validator_for` and the first error of `iter_errors`, or why the schema is refused.
pub record Validating : Type 0 where
  pub show : Value → String
  pub is_integral : String → Bool
  pub first_error : Value → Value → Result String (Option ValidationError)

module _ (p : Validating) where
  unfoldable pub received : Value → String
  received Value.null = "null"
  received v = take_chars 80 (render (kind_of v ∷ "(" ∷ p.show v ∷ ")" ∷ []))

  unfoldable pub rule_text : String → Value → ViolationKind → String
  unfolding received items_in
  rule_text path v (ViolationKind.single_type t) =
      render (path ∷ " 应该是 " ∷ t ∷ "，收到 " ∷ received v ∷ [])
  rule_text path v (ViolationKind.multiple_types ts) =
      render (path ∷ " 应该是 " ∷ join "/" ts ∷ "，收到 " ∷ received v ∷ [])
  rule_text path v (ViolationKind.not_in_enum options) =
      render (path ∷ " 只能是 " ∷ p.show options ∷ " 之一，收到 " ∷ p.show v ∷ [])
  rule_text path v (ViolationKind.minimum limit) =
      render (path ∷ " 不能小于 " ∷ p.show limit ∷ "，收到 " ∷ p.show v ∷ [])
  rule_text path v (ViolationKind.maximum limit) =
      render (path ∷ " 不能大于 " ∷ p.show limit ∷ "，收到 " ∷ p.show v ∷ [])
  rule_text path v (ViolationKind.exclusive_minimum limit) =
      render (path ∷ " 必须大于 " ∷ p.show limit ∷ "，收到 " ∷ p.show v ∷ [])
  rule_text path v (ViolationKind.exclusive_maximum limit) =
      render (path ∷ " 必须小于 " ∷ p.show limit ∷ "，收到 " ∷ p.show v ∷ [])
  rule_text path v (ViolationKind.min_length n) =
      render (path ∷ " 至少要 " ∷ decimal n ∷ " 个字符，收到 " ∷ decimal (value_chars v) ∷ " 个" ∷ [])
  rule_text path v (ViolationKind.max_length n) =
      render (path ∷ " 最多 " ∷ decimal n ∷ " 个字符，收到 " ∷ decimal (value_chars v) ∷ " 个" ∷ [])
  rule_text path v (ViolationKind.min_items n) =
      render (path ∷ " 至少要 " ∷ decimal n ∷ " 项，收到 " ∷ decimal (items_in v) ∷ " 项" ∷ [])
  rule_text path v (ViolationKind.max_items n) =
      render (path ∷ " 最多 " ∷ decimal n ∷ " 项，收到 " ∷ decimal (items_in v) ∷ " 项" ∷ [])
  rule_text path v (ViolationKind.required_property name) =
      render (path ∷ " 缺少必填字段 [" ∷ p.show name ∷ "]" ∷ [])
  rule_text path v (ViolationKind.other_rule text) = render (path ∷ " 不合 schema：" ∷ text ∷ [])

  unfoldable pub render_violation : ValidationError → String
  unfolding python_path display_path rule_text
  render_violation e = rule_text (display_path (python_path "" e.instance_path)) e.value e.kind

  abbrev pub is_fraction : Value → Bool
  is_fraction (Value.number n) = not (p.is_integral n)
  is_fraction _ = false

  -- An integer is written as one: `50.0` is none.
  unfoldable pub check_strict_integer : Value → Value → String → Result String (Unit {0})
  unfolding declared_types display_path received
  check_strict_integer v schema path =
      let types = declared_types schema in
      if (not (contains types "integer") || contains types "number") || not (is_fraction v)
      then ok tt
      else err (render (display_path path ∷ " 应该是 " ∷ join "/" types ∷ "，收到 " ∷ received v ∷ []))

  -- The properties of an object schema one after the other: a given one is walked through, a
  -- missing one takes its default.
  abbrev pub Walker : Type 0
  Walker = Value → String → Result String Value

  abbrev pub child_path : String → String → String
  child_path path name = if path == "" then name else render (path ∷ "." ∷ name ∷ [])

  abbrev pub set_default : String → Option Value → Members → Members
  set_default name none out = out
  set_default name (some v) out = insert_member name v out

  abbrev pub walker_of : String → List (String × Walker) → Option Walker
  walker_of name [] = none
  walker_of name ((k, w) ∷ ws) = if k == name then some w else walker_of name ws

  -- One property: what it makes of the arguments so far.
  unfoldable pub settle_property :
      String → Option Walker → Value → String → Members → Result String Members
  unfolding insert_member
  settle_property name none subschema path out = ok (set_default name (get "default" subschema) out)
  settle_property name (some walker) subschema path out =
      and_then (walker subschema path) λ v. ok (insert_member name v out)

  unfoldable pub walk_properties :
      List (String × Walker) → Members → String → Members → Result String Members
  unfolding settle_property
  walk_properties given Members.no_members path out = ok out
  walk_properties given (Members.member name subschema props) path out =
      and_then (settle_property name (walker_of name given) subschema (child_path path name) out)
        λ out'. walk_properties given props path out'

  abbrev pub item_schema : Value → Option Value
  item_schema schema = elim (get "items" schema) [
    | some (Value.object fields) ↦ some (Value.object fields)
    | _ ↦ none
  ]

  unfoldable mutual
    unfolding check_strict_integer walk_properties

    pub walk : Value → Walker
    walk (Value.object fields) schema path =
        checked (check_strict_integer (Value.object fields) schema path)
          (elim (as_object (get "properties" schema)) [
            | none ↦ ok (Value.object fields)
            | some props ↦
                and_then (walk_properties (walkers fields) props path fields)
                  λ out. ok (Value.object out)
          ])
    walk (Value.array items) schema path =
        checked (check_strict_integer (Value.array items) schema path) (elim (item_schema schema) [
          | none ↦ ok (Value.array items)
          | some subschema ↦
              and_then (walk_items items subschema path 0) λ walked. ok (Value.array walked)
        ])
    walk Value.null schema path =
        checked (check_strict_integer Value.null schema path) (ok Value.null)
    walk (Value.bool b) schema path =
        checked (check_strict_integer (Value.bool b) schema path) (ok (Value.bool b))
    walk (Value.number n) schema path =
        checked (check_strict_integer (Value.number n) schema path) (ok (Value.number n))
    walk (Value.text s) schema path =
        checked (check_strict_integer (Value.text s) schema path) (ok (Value.text s))

    -- `map.get(name)` with the walk of the value that it finds.
    pub walkers : Members → List (String × Walker)
    walkers Members.no_members = []
    walkers (Members.member k v rest) = (k, walk v) ∷ walkers rest

    pub walk_items : Elements → Value → String → ℕ → Result String Elements
    walk_items Elements.no_elements subschema path i = ok Elements.no_elements
    walk_items (Elements.element v items) subschema path i =
        and_then (walk v subschema (render (path ∷ "[" ∷ decimal i ∷ "]" ∷ []))) λ w.
          and_then (walk_items items subschema path (i + 1))
            λ walked. ok (Elements.element w walked)

  abbrev pub members_or_empty : Option Members → Members
  members_or_empty (some props) = props
  members_or_empty none = Members.no_members

  abbrev pub properties_of : Value → Members
  properties_of schema = members_or_empty (as_object (get "properties" schema))

  abbrev pub has_key : Members → String → Bool
  has_key fields = contains (keys fields)

  unfoldable pub top_error : Value → String
  top_error other = render ("工具的 parameters 顶层必须是 object，schema 写的是 " ∷ p.show other ∷ [])

  unfoldable pub check_top : Option Value → Result String (Unit {0})
  unfolding top_error
  check_top none = ok tt
  check_top (some (Value.text t)) = if t == "object" then ok tt else err (top_error (Value.text t))
  check_top (some other) = err (top_error other)

  unfoldable pub known_text : List String → String
  unfolding render_list
  known_text [] = "[\"（这个工具不接受任何参数）\"]"
  known_text (k ∷ ks) = render_list (k ∷ ks)

  unfoldable pub refuse_unknown : Members → List String → Result String (Unit {0})
  unfolding render_list known_text
  refuse_unknown props [] = ok tt
  refuse_unknown props (k ∷ ks) = err (
      render (
        "不认识的参数 "
        ∷ render_list (sorted_texts (k ∷ ks))
        ∷ "；可用的是 "
        ∷ known_text (sorted_texts (keys props))
        ∷ []))

  unfoldable pub check_known : Members → Members → Result String (Unit {0})
  unfolding refuse_unknown
  check_known props arguments =
      refuse_unknown props (keep (λ k. not (has_key props k)) (keys arguments))

  unfoldable pub refuse_missing : List String → Result String (Unit {0})
  unfolding render_list
  refuse_missing [] = ok tt
  refuse_missing (k ∷ ks) = err (render ("缺少必填参数 " ∷ render_list (k ∷ ks) ∷ []))

  unfoldable pub check_required : Value → Members → Result String (Unit {0})
  unfolding texts_of refuse_missing
  check_required schema arguments =
      refuse_missing (keep (λ k. not (has_key arguments k)) (texts_in (get "required" schema)))

  unfoldable pub check_schema : Value → Members → Result String (Unit {0})
  unfolding render_violation
  check_schema schema arguments = elim (p.first_error schema (Value.object arguments)) [
    | err e ↦ err (render ("工具的 parameters schema 有问题：" ∷ e ∷ []))
    | ok none ↦ ok tt
    | ok (some e) ↦ err (render_violation e)
  ]

  unfoldable pub as_arguments : Result String Value → Result String Members
  as_arguments (ok (Value.object fields)) = ok fields
  as_arguments (ok other) = err (render ("校验后的 arguments 不是对象：" ∷ p.show other ∷ []))
  as_arguments (err e) = err e

  unfoldable pub validate_arguments : Value → Members → Result String Members
  unfolding check_top check_known check_required check_schema walk as_arguments
  validate_arguments schema arguments = checked (check_top (get "type" schema)) (
      checked (check_known (properties_of schema) arguments) (
        checked (check_required schema arguments) (
          checked (check_schema schema arguments)
            (as_arguments (walk (Value.object arguments) schema "")))))
