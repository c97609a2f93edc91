-- ===== src/Gateway/Tokens.antt =====
-- core/crates/gateway/src/gateway.rs: `constant_time_eq`, on bytes.
pub mod Equality
use Prim.Native.Nat.{bit_or, bit_xor, max}
use aite.Base.{eqb, length, get_elem?, ℕ, zero, suc, ◌+◌, Bool, ◌&&◌, none, some, List}

abbrev pub byte_or_zero : List ℕ → ℕ → ℕ
byte_or_zero bytes i = elim (get_elem? bytes i) [ none ↦ 0 | some b ↦ b ]

-- The loop over the places from `i` on, `rounds` of them.
unfoldable pub differences : ℕ → List ℕ → List ℕ → ℕ → ℕ → ℕ
differences zero expected got i diff = diff
differences (suc rounds) expected got i diff =
    differences rounds expected got (i + 1)
      (bit_or diff (bit_xor (byte_or_zero expected i) (byte_or_zero got i)))

unfoldable pub constant_time_eq : List ℕ → List ℕ → Bool
unfolding differences
constant_time_eq expected got =
    eqb (differences (max (length expected) (length got)) expected got 0 0) 0
    && eqb (length expected) (length got)
