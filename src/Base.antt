-- ===== src/Base.antt =====
-- Names and helpers that every part shares: the libraries' names, tests, lists over the native
-- numbers, results and the monad of fallible calls on a state.
pub mod Tests
pub mod Lists
pub mod Exec
pub mod Order
pub mod Text
pub mod Picking
unfoldable pub use Tests.*
pub use Lists.*
unfoldable pub use Order.*
unfoldable pub use Text.*
pub use Picking.*
pub use Prim.Native.Nat.{ℕ, zero, suc, ◌+◌, ◌-◌, ◌*◌, ◌/◌, ◌%◌, ◌^◌, ◌≤◌, ◌<◌}
pub use Prim.Native.String.{String}
pub use mathlib.Core.Path.{◌≡◌, refl, sym, ap, subst, ◌∙◌}
pub use mathlib.Core.Logic.{◌≢◌, ◌↔◌, ◌⊎◌, inl, inr}
pub use mathlib.Core.Bool.{Bool, true, false, not, ◌&&◌, ◌||◌}
pub use mathlib.Core.Option.{Option, none, some}
pub use mathlib.Core.List.{List, [], ◌∷◌, ◌++◌, map, reverse, Mem, Perm}
pub use native.Mathlib.Omega.{arith}
pub use text.Mathlib.Text.{◌==◌}
pub use text.Mathlib.TextEquality.{eq_iff, Char-path}
