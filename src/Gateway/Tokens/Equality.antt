-- ===== src/Gateway/Tokens/Equality.antt =====
-- core/crates/gateway/src/gateway.rs: the comparison of tokens in constant time decides equality.
use Prim.Native.Nat.{bit_or, bit_xor, max}
use aite.Base.{
  ltb, at_each, eqb_iff, holds_to, eqb, if◌then◌else◌, All, length, ℕ, zero, suc, ◌+◌, ◌<◌, ◌≡◌,
  refl, sym, ap, subst, ◌∙◌, ◌↔◌, Bool, true, not, ◌&&◌, List, [], ◌∷◌, arith,
}
use aite.Gateway.Tokens.{byte_or_zero, constant_time_eq, differences}

-- The tables of the two operations on bytes.
xor_row : ℕ → ℕ → Bool
xor_row a b = ltb (bit_xor a b) 256 && (if eqb (bit_xor a b) 0 then eqb a b else not (eqb a b))

or_row : ℕ → ℕ → Bool
or_row a b =
    ltb (bit_or a b) 256
    && (if eqb (bit_or a b) 0 then eqb a 0 && eqb b 0 else not (eqb a 0 && eqb b 0))

xor_table : holds_to (λ a. holds_to (xor_row a) 255) 255 ≡ true
unfolding holds_to xor_row
xor_table = refl

or_table : holds_to (λ a. holds_to (or_row a) 255) 255 ≡ true
unfolding holds_to or_row
or_table = refl

xor_byte : (a b : ℕ) → a < 256 → b < 256 → ((bit_xor a b ≡ 0) ↔ (a ≡ b)) × (bit_xor a b < 256)
unfolding xor_row
xor_byte a b la lb =
    let row : xor_row a b ≡ true =
      at_each (xor_row a) 255 b (omega arith)
        (at_each (λ x. holds_to (xor_row x) 255) 255 a (omega arith) xor_table) in
    ground arith

or_byte :
    (a b : ℕ) → a < 256 → b < 256 → ((bit_or a b ≡ 0) ↔ ((a ≡ 0) × (b ≡ 0))) × (bit_or a b < 256)
unfolding or_row
or_byte a b la lb =
    let row : or_row a b ≡ true =
      at_each (or_row a) 255 b (omega arith)
        (at_each (λ x. holds_to (or_row x) 255) 255 a (omega arith) or_table) in
    ground arith

abbrev pub IsByte : ℕ → Type 0
IsByte b = b < 256

byte_or_zero-IsByte : (bytes : List ℕ) (i : ℕ) → All IsByte bytes → byte_or_zero bytes i < 256
byte_or_zero-IsByte [] i h = omega arith
byte_or_zero-IsByte (b ∷ bytes) zero h = h.0
byte_or_zero-IsByte (b ∷ bytes) (suc i) h = byte_or_zero-IsByte bytes i h.1

-- The places at which two texts agree.
abbrev Agree : List ℕ → List ℕ → ℕ → ℕ → Type 0
Agree e g i zero = Unit
Agree e g i (suc n) = (byte_or_zero e i ≡ byte_or_zero g i) × Agree e g (i + 1) n

differences-zero :
    (rounds : ℕ) (e g : List ℕ) (i diff : ℕ)
    → All IsByte e
    → All IsByte g
    → diff < 256
    → (differences rounds e g i diff ≡ 0) ↔ ((diff ≡ 0) × Agree e g i rounds)
unfolding differences
differences-zero zero e g i diff he hg b = (λ h. (h, tt), λ h. h.0)
differences-zero (suc rounds) e g i diff he hg b =
    let x = bit_xor (byte_or_zero e i) (byte_or_zero g i) in
    let (equal, small) =
      xor_byte (byte_or_zero e i) (byte_or_zero g i) (byte_or_zero-IsByte e i he)
        (byte_or_zero-IsByte g i hg) in
    let (none_set, small') = or_byte diff x b small in
    let (fwd, back) = differences-zero rounds e g (i + 1) (bit_or diff x) he hg small' in
    (
      λ h. ((none_set.0 (fwd h).0).0, (equal.0 (none_set.0 (fwd h).0).1, (fwd h).1)),
      λ h. back (none_set.1 (h.0, equal.1 h.1.0), h.1.1),
    )

byte_or_zero-cons : (x : ℕ) (e : List ℕ) (i : ℕ) → byte_or_zero (x ∷ e) (i + 1) ≡ byte_or_zero e i
byte_or_zero-cons x e i = ap (byte_or_zero (x ∷ e)) (let next : i + 1 ≡ suc i = omega arith in next)

and_true : (a b : Bool) → (a && b) ≡ true → (a ≡ true) × (b ≡ true)
and_true a b h = ground arith

true_and : (a b : Bool) → a ≡ true → b ≡ true → (a && b) ≡ true
true_and a b h k = ground arith

Agree-tail : (x y : ℕ) (e g : List ℕ) (i n : ℕ) → Agree (x ∷ e) (y ∷ g) (i + 1) n → Agree e g i n
Agree-tail x y e g i zero h = tt
Agree-tail x y e g i (suc n) h = (
  sym (byte_or_zero-cons x e i) ∙ h.0 ∙ byte_or_zero-cons y g i,
  Agree-tail x y e g (i + 1) n h.1,
)

eq_of_Agree : (e g : List ℕ) → length e ≡ length g → Agree e g 0 (length e) → e ≡ g
eq_of_Agree [] [] l h = refl
eq_of_Agree [] (y ∷ g) l h = absurd (omega arith)
eq_of_Agree (x ∷ e) [] l h = absurd (omega arith)
eq_of_Agree (x ∷ e) (y ∷ g) l h =
    cc (h.0, eq_of_Agree e g (omega arith) (Agree-tail x y e g 0 (length e) h.1))

Agree-self : (e : List ℕ) (i n : ℕ) → Agree e e i n
Agree-self e i zero = tt
Agree-self e i (suc n) = (refl, Agree-self e (i + 1) n)

-- The comparison in constant time decides equality of bytes.
pub constant_time_eq_iff :
    (expected got : List ℕ)
    → All IsByte expected
    → All IsByte got
    → (constant_time_eq expected got ≡ true) ↔ (expected ≡ got)
unfolding constant_time_eq
constant_time_eq_iff expected got he hg =
    let rounds = max (length expected) (length got) in
    let (fwd, back) = differences-zero rounds expected got 0 0 he hg (omega arith) in
    (
      λ h.
          let (no_difference, lengths) = and_true _ _ h in
          let same_length = (eqb_iff (length expected) (length got)).0 lengths in
          eq_of_Agree expected got same_length (
            subst (Agree expected got 0) (omega (arith, same_length))
              (fwd ((eqb_iff (differences rounds expected got 0 0) 0).0 no_difference)).1),
      λ same.
          true_and _ _
            ((eqb_iff (differences rounds expected got 0 0) 0).1 (
              back
                (refl, subst (λ g. Agree expected g 0 rounds) same (Agree-self expected 0 rounds))))
            ((eqb_iff (length expected) (length got)).1 (ap length same)),
    )
