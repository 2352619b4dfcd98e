-- ===== src/Shared.antt =====
-- The names that the modules of every component share.
mod Tests
mod Lists
mod Errors
pub mod Order
pub mod Bits
pub mod Words
pub mod Maps
pub mod Exec
mod Strings
pub mod Digests
pub use Tests.*
pub use Lists.*
pub use Errors.*
pub use Strings.{Bytes, bytes_eq_refl, bytes_eq→eq, bytes_lt_irrefl, bytes_lt_trans, bytes_lt_total}
unfoldable pub use Strings.{bytes_eq, bytes_lt, is_utf8}
pub use Prim.Native.Nat.{ℕ, zero, suc, ◌+◌, ◌-◌, ◌*◌, ◌/◌, ◌%◌, ◌^◌, ◌≤◌, ◌<◌, min, max}
pub use Prim.Native.Nat.{bit_and, bit_or}
pub use mathlib.Core.Path.{◌≡◌, refl, sym, ap, ap₂, ◌∙◌, subst}
pub use mathlib.Core.Logic.{◌≢◌, ◌↔◌, ◌⊎◌, inl, inr}
pub use mathlib.Core.Bool.{Bool, true, false, not, ◌&&◌, ◌||◌}
pub use mathlib.Core.Option.{Option, none, some}
pub use mathlib.Core.List.{List, [], ◌∷◌, ◌++◌, map, append-nil, append_assoc}
pub use native.Mathlib.Omega.{arith}
