-- ===== src/Common.antt =====
-- The names that the other modules share: those of the libraries, passed on, and the Boolean tests
-- and list functions over the native numbers that the C code's conditions and arrays become.
mod Tests
mod Lists
mod Ints
mod Chars
mod Outcome
pub use Tests.*
pub use Lists.*
unfoldable pub use Ints.*
unfoldable pub use Chars.*
pub use Outcome.*
pub use Prim.Native.Nat.{ℕ, zero, suc, ◌+◌, ◌-◌, ◌*◌, ◌/◌, ◌%◌, ◌^◌, ◌≤◌, ◌<◌, min, max}
pub use mathlib.Core.Path.{◌≡◌, refl, sym, ap, ◌∙◌, subst, fun_ext}
pub use mathlib.Core.Logic.{◌≢◌, ◌↔◌, ◌⊎◌, inl, inr}
pub use mathlib.Core.Bool.{Bool, true, false, ◌&&◌, ◌||◌, not}
pub use mathlib.Core.Option.{Option, none, some}
pub use mathlib.Core.List.{List, [], ◌∷◌, ◌++◌, map, append-nil, append_assoc}
pub use native.Mathlib.Omega.{arith}
