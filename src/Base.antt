-- ===== src/Base.antt =====
-- The names that the other modules share: the libraries', passed on, and those of the children.
mod Tests
mod Lists
mod Outcome
mod Chain
mod Utf8
mod Bytes
mod Int
mod Split
mod Ascii
mod Lex
mod Trim
mod I64
pub use Tests.*
pub use Lists.*
pub use Int.*
pub use Split.*
pub use Ascii.*
pub use Outcome.*
pub use Chain.*
unfoldable pub use Utf8.*
unfoldable pub use Bytes.*
unfoldable pub use Lex.*
unfoldable pub use Trim.*
unfoldable pub use I64.*
pub use Prim.Native.Nat.{ℕ, zero, suc, ◌+◌, ◌-◌, ◌*◌, ◌/◌, ◌%◌, ◌^◌, ◌≤◌, ◌<◌}
pub use Prim.Native.String.{String}
pub use mathlib.Core.Path.{◌≡◌, refl, sym, ap, ◌∙◌, subst}
pub use mathlib.Core.Logic.{◌≢◌, ◌↔◌, ◌⊎◌, inl, inr}
pub use mathlib.Core.Bool.{Bool, true, false, not, ◌&&◌, ◌||◌}
pub use mathlib.Core.Option.{Option, none, some}
pub use mathlib.Core.List.{List, [], ◌∷◌, ◌++◌, map, append_assoc, append-nil}
pub use native.Mathlib.Omega.{arith}
