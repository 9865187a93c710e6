-- ===== src/Base.antt =====
-- The names that the other modules share: the libraries', passed on, and those of the children.
-- Models no code of the repository by itself.
mod Logic
mod Lists
mod Text
mod Error
pub mod Bits
pub mod Decimal
pub mod Join
pub mod Effects
pub use Logic.*
pub use Lists.*
pub use Text.*
unfoldable pub use Text.{
  decimal, negate_u64, split_parts, strsplit_set, strtoull_0, strtoull_auto, strtoull_10,
  strtoull_digits,
}
pub use Error.*
pub use Prim.Native.Nat.{ℕ, zero, suc, ◌+◌, ◌-◌, ◌*◌, ◌/◌, ◌%◌, ◌^◌, ◌≤◌, ◌<◌}
pub use mathlib.Core.Path.{◌≡◌, refl, sym, ap, subst, ◌∙◌}
pub use mathlib.Core.Logic.{◌≢◌, ◌↔◌, ◌⊎◌, inl, inr}
pub use mathlib.Core.Bool.{Bool, true, false, not, ◌&&◌, ◌||◌}
pub use mathlib.Core.Option.{Option, none, some}
pub use mathlib.Core.List.{List, [], ◌∷◌, ◌++◌, map, append-nil, append_assoc}
pub use native.Mathlib.Omega.{arith}
