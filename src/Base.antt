-- ===== src/Base.antt =====
-- What the modules of this library share: the libraries' names passed on, Boolean tests, lists
-- over the native numbers, texts as lists of bytes, signed integers, and faults as values.
mod Tests
mod Lists
mod Int
mod Effects
mod Vector
unfoldable pub use Tests.*
pub use Lists.*
unfoldable pub use Int.*
pub use Effects.*
pub use Vector.*
pub use Prim.Native.Nat.{ℕ, zero, suc, ◌+◌, ◌-◌, ◌*◌, ◌/◌, ◌%◌, ◌^◌, ◌≤◌, ◌<◌}
pub use mathlib.Core.Path.{◌≡◌, refl, sym, ap, ◌∙◌}
pub use mathlib.Core.Logic.{◌≢◌, ◌↔◌, ◌⊎◌, inl, inr}
pub use mathlib.Core.Bool.{Bool, true, false, not, ◌&&◌, ◌||◌}
pub use mathlib.Core.Option.{Option, none, some}
pub use mathlib.Core.List.{List, [], ◌∷◌, ◌++◌, map, append_assoc, append-nil}
pub use native.Mathlib.Omega.{arith}
