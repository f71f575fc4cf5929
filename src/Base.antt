-- ===== src/Base.antt =====
-- Names that every module shares: the libraries', passed on, and those of four children.
mod Tests
mod Lists
mod Text
mod Results
pub mod Dict
pub mod Sort
pub mod Decimal
pub mod Split
pub use Tests.*
pub use Lists.*
unfoldable pub use Text.{
  strip_prefix, strip_suffix, has_char, all_chars, partition, is_space, lstrip_where, rstrip_where,
  strip, last_part,
}
pub use Text.*
pub use Results.*
pub use Prim.Native.Nat.{ℕ, zero, suc, ◌+◌, ◌-◌, ◌*◌, ◌/◌, ◌%◌, ◌^◌, ◌≤◌, ◌<◌, min, max}
pub use Prim.Native.Char.{Char, code}
pub use Prim.Native.String.{String}
pub use mathlib.Core.Path.{◌≡◌, refl, sym, ap, ◌∙◌}
pub use mathlib.Core.Logic.{◌≢◌, ◌↔◌, ◌⊎◌, inl, inr}
pub use mathlib.Core.Bool.{Bool, true, false, not, ◌&&◌, ◌||◌}
pub use mathlib.Core.Option.{Option, none, some}
pub use mathlib.Core.List.{List, [], ◌∷◌}
unfoldable pub use mathlib.Core.List.{◌++◌, map}
pub use native.Mathlib.Omega.{arith}
pub use text.Mathlib.TextEquality.{eq_iff}
pub use text.Mathlib.TextPositions.{eq_refl}
