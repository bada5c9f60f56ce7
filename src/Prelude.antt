-- ===== src/Prelude.antt =====
-- The names that the modules share: those of the libraries, and those of the children.
pub mod Tests
pub mod Lists
pub mod Text
pub mod Pairs
pub mod Members
pub mod Assoc
pub mod Strings
pub use Tests.*
pub use Lists.*
pub use Pairs.*
pub use Members.*
unfoldable pub use Text.*
unfoldable pub use Assoc.*
unfoldable pub use Strings.*
pub use Prim.Native.Nat.{ℕ, zero, suc, ◌+◌, ◌-◌, ◌*◌, ◌/◌, ◌%◌, ◌^◌, ◌≤◌, ◌<◌}
pub use mathlib.Core.Path.{◌≡◌, refl, sym, ap, ◌∙◌}
pub use mathlib.Core.Logic.{◌≢◌, ◌↔◌, ◌⊎◌, inl, inr}
pub use mathlib.Core.Bool.{Bool, true, false, not, ◌&&◌, ◌||◌}
pub use mathlib.Core.Option.{Option, none, some}
pub use mathlib.Core.List.{List, [], ◌∷◌, ◌++◌, map, append_assoc, append-nil}
pub use native.Mathlib.Omega.{arith}
