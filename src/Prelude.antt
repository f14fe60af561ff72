-- ===== src/Prelude.antt =====
-- The names that the modules of this library share: those of the libraries, passed on, the Boolean
-- tests on numbers (Prelude/Tests), list measures (Prelude/Lists), signed numbers (Prelude/Int),
-- ordered maps (Prelude/Maps), results of fallible code (Prelude/Fallible) and equality of keys (Prelude/Equality).
mod Tests
mod Lists
mod Int
mod Fallible
mod Equality
mod Maps
mod Calls
pub use Tests.*
pub use Lists.*
unfoldable pub use Int.*
pub use Fallible.*
unfoldable pub use Maps.*
pub use Calls.*
pub use Equality.*
pub use Prim.Native.Nat.{ℕ, zero, suc, ◌+◌, ◌-◌, ◌*◌, ◌/◌, ◌%◌, ◌^◌, ◌≤◌, ◌<◌, max, min}
pub use mathlib.Core.Path.{◌≡◌, refl, sym, ap, ◌∙◌, subst}
pub use mathlib.Core.Logic.{◌≢◌, ◌↔◌, ◌⊎◌, inl, inr}
pub use mathlib.Core.Bool.{Bool, true, false, ◌&&◌, ◌||◌, not}
pub use mathlib.Core.Option.{Option, none, some}
pub use mathlib.Core.List.{List, [], ◌∷◌, ◌++◌, map}
pub use native.Mathlib.Omega.{arith}
