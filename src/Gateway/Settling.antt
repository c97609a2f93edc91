-- ===== src/Gateway/Settling.antt =====
-- core/crates/gateway/src/schema.rs: what the walk through the properties makes of each key.
use aite.Base.{
  Bool-cases, ==_refl, if◌then◌else◌, keep, contains, String, ◌≡◌, refl, sym, ap, subst, ◌∙◌, inl,
  inr, Bool, true, false, Option, none, some, List, [], ◌∷◌, arith, ◌==◌, eq_iff,
}
use aite.Base.Exec.{Result, err, ok}
use aite.Contracts.Evidence.{Members, Value}
use aite.Contracts.Protocol.{get_member}
use aite.Gateway.Schema.{
  Validating, Walker, and_then, checked, child_path, set_default, settle_property, walk,
  walk_properties, walker_of, walkers,
}
use aite.Gateway.Shapes.{get, insert_member, keys}

pub get-insert :
    (j k : String) (v : Value) (m : Members)
    → get_member j (insert_member k v m) ≡ (if k == j then some v else get_member j m)
unfolding get_member insert_member
get-insert j k v Members.no_members = refl
get-insert j k v (Members.member i w m) =
    ground (arith, eq_iff k j, eq_iff i k, eq_iff i j, get-insert j k v m)

-- No key stands twice, as in a map.
abbrev pub HasDistinctKeys : Members → Type 0
HasDistinctKeys Members.no_members = Unit
HasDistinctKeys (Members.member k v rest) = (contains (keys rest) k ≡ false) × HasDistinctKeys rest

pub get_member-absent :
    (k : String) (m : Members) → contains (keys m) k ≡ false → get_member k m ≡ none
unfolding get_member
get_member-absent k Members.no_members h = refl
get_member-absent k (Members.member j v m) h = ground (arith, get_member-absent k m)

pub and_then-ok :
    {A B : Type 0} (r : Result String A) (f : A → Result String B) (b : B)
    → and_then r f ≡ ok b
    → (a : A) × (r ≡ ok a) × (f a ≡ ok b)
and_then-ok (ok a) f b h = (a, refl, h)
and_then-ok (err e) f b h = cc

pub ok_eq : {A : Type 0} (a b : A) → ◌≡◌ {A = Result String A} (ok a) (ok b) → a ≡ b
ok_eq a b h = cc

pub object_eq :
    (a b : Members)
    → ◌≡◌ {A = Result String Value} (ok (Value.object a)) (ok (Value.object b))
    → a ≡ b
object_eq a b h = cc

pub some_eq : (a b : Value) → ◌≡◌ {A = Option Value} (some a) (some b) → a ≡ b
some_eq a b h = cc

pub present_of_member :
    (k : String) (m : Members) → get_member k m ≡ none → contains (keys m) k ≡ false
unfolding get_member
present_of_member k Members.no_members h = refl
present_of_member k (Members.member j v m) h = ground (arith, present_of_member k m)

pub keep-nil :
    (f : String → Bool) (l : List String) (k : String)
    → keep f l ≡ []
    → f k ≡ true
    → contains l k ≡ false
keep-nil f [] k e h = refl
keep-nil f (x ∷ l) k e h = elim (Bool-cases (f x)) [
  | inl kept ↦ cc (rw kept at e)
  | inr dropped ↦ ground (arith, keep-nil f l k (rw dropped at e) h, eq_iff x k, ap f)
]

pub checked-ok :
    {A : Type 0} (r : Result String (Unit {0})) (s : Result String A) (b : A)
    → checked r s ≡ ok b
    → (r ≡ ok tt) × (s ≡ ok b)
checked-ok (ok tt) s b h = (refl, h)
checked-ok (err e) s b h = cc

module _ (p : Validating) where
  abbrev pub walked_by : Option Value → Option (Walker p)
  walked_by none = none
  walked_by (some v) = some (walk p v)

  pub walker_of-walkers :
      (k : String) (fields : Members)
      → walker_of p k (walkers p fields) ≡ walked_by (get_member k fields)
  unfolding walkers get_member
  walker_of-walkers k Members.no_members = refl
  walker_of-walkers k (Members.member j v rest) = ground (arith, walker_of-walkers k rest)

  abbrev pub default_or : Option Value → Option Value → Option Value
  default_or (some d) o = some d
  default_or none o = o

  pub get-set_default :
      (j name : String) (d : Option Value) (out : Members)
      → get_member j (set_default p name d out)
        ≡ (if name == j then default_or d (get_member j out) else get_member j out)
  get-set_default j name none out = ground arith
  get-set_default j name (some d) out = get-insert j name d out

  -- What a property of a schema makes of a key: the walk of what is given, or the default.
  abbrev pub Settled : Option (Walker p) → Value → String → Option Value → Option Value → Type 0
  Settled (some walker) subschema path before now =
      (v : Value) × (walker subschema path ≡ ok v) × (now ≡ some v)
  Settled none subschema path before now = now ≡ default_or (get "default" subschema) before

  pub settle_property-other :
      (name : String) (o : Option (Walker p)) (s : Value) (path : String) (start out : Members)
      (k : String)
      → (name == k) ≡ false
      → settle_property p name o s path start ≡ ok out
      → get_member k out ≡ get_member k start
  unfolding settle_property
  settle_property-other name none s path start out k d e =
      rw (← ok_eq _ _ e) (get-set_default k name (get "default" s) start ∙ rw d refl)
  settle_property-other name (some walker) s path start out k d e =
      let (v, r, q) = and_then-ok (walker s path) _ out e in
      rw (← ok_eq _ _ q) (get-insert k name v start ∙ rw d refl)

  pub settle_property-Settled :
      (name : String) (o : Option (Walker p)) (s : Value) (path : String) (start out : Members)
      → settle_property p name o s path start ≡ ok out
      → Settled o s path (get_member name start) (get_member name out)
  unfolding settle_property
  settle_property-Settled name none s path start out e =
      rw (← ok_eq _ _ e)
        (get-set_default name name (get "default" s) start ∙ rw (==_refl name) refl)
  settle_property-Settled name (some walker) s path start out e =
      let (v, r, q) = and_then-ok (walker s path) _ out e in
      (v, r, rw (← ok_eq _ _ q) (get-insert name name v start ∙ rw (==_refl name) refl))

  pub untouched :
      (given : List (String × Walker p)) (props : Members) (path : String) (start out : Members)
      (k : String)
      → contains (keys props) k ≡ false
      → walk_properties p given props path start ≡ ok out
      → get_member k out ≡ get_member k start
  unfolding walk_properties
  untouched given Members.no_members path start out k absent e = rw (ok_eq _ _ e) refl
  untouched given (Members.member name s props) path start out k absent e =
      let (mid, first, rest) =
        and_then-ok
          (settle_property p name (walker_of p name given) s (child_path p path name) start) _ out
          e in
      untouched given props path mid out k (ground arith) rest
      ∙ settle_property-other name (walker_of p name given) s (child_path p path name) start mid k
          (ground arith) first

  pub walk_properties-Settled :
      (given : List (String × Walker p)) (props : Members) (path : String) (start out : Members)
      (k : String) (s : Value)
      → HasDistinctKeys props
      → get_member k props ≡ some s
      → walk_properties p given props path start ≡ ok out
      → Settled
          (walker_of p k given)
          s
          (child_path p path k)
          (get_member k start)
          (get_member k out)
  unfolding walk_properties get_member
  walk_properties-Settled given Members.no_members path start out k s d h e = cc
  walk_properties-Settled given (Members.member name t props) path start out k s d h e =
      let (mid, first, rest) =
        and_then-ok
          (settle_property p name (walker_of p name given) t (child_path p path name) start) _ out
          e in
      elim (Bool-cases (name == k)) [
        | inl same ↦
            let settled =
              settle_property-Settled name (walker_of p name given) t (child_path p path name) start
                mid first in
            let kept = untouched given props path mid out name d.0 rest in
            subst
              (λ (n : String).
                Settled (walker_of p n given) s (child_path p path n) (get_member n start)
                  (get_member n out))
              ((eq_iff name k).0 same)
              (subst
                (λ (u : Value).
                  Settled (walker_of p name given) u (child_path p path name)
                    (get_member name start) (get_member name out))
                (some_eq t s (rw same at h))
                (subst
                  (λ (o : Option Value).
                    Settled (walker_of p name given) t (child_path p path name)
                      (get_member name start) o)
                  (sym kept) settled))
        | inr other ↦
            subst
              (λ (o : Option Value).
                Settled (walker_of p k given) s (child_path p path k) o (get_member k out))
              (settle_property-other name (walker_of p name given) t (child_path p path name) start
                mid k other first)
              (walk_properties-Settled given props path mid out k s d.1 (rw other at h) rest)
      ]
