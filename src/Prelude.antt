-- ===== src/Prelude.antt =====
-- The names that the modules share: the libraries', passed on, and those of the children.
pub mod Tests
pub mod Lists
pub mod Texts
pub mod TextOrder
pub mod Times
pub mod Int
pub mod Sets
pub mod Splits
pub use Tests.*
pub use Lists.*
pub use Times.*
unfoldable pub use Texts.{
  Text, codes, text_eq, is_empty, text_lt, is_space, trim_left_by, trim_right_by, trim_space,
  trim_byte, to_lower, lower_byte, index_byte, last_index_byte, has_prefix, has_suffix, trim_prefix,
  trim_suffix, index, last_index, contains, split_byte, fields, is_digit, parse_uint,
}
pub use Texts.{text_eq_iff, text_eq_refl}
pub use Prim.Native.Nat.{ℕ, zero, suc, ◌+◌, ◌-◌, ◌*◌, ◌/◌, ◌%◌, ◌^◌, ◌≤◌, ◌<◌, min, max}
pub use mathlib.Core.Path.{◌≡◌, refl, sym, ap, ◌∙◌, subst}
pub use mathlib.Core.Logic.{◌≢◌, ◌↔◌, ◌⊎◌, inl, inr}
pub use mathlib.Core.Bool.{Bool, true, false, not, ◌&&◌, ◌||◌}
pub use mathlib.Core.Option.{Option, none, some}
pub use mathlib.Core.List.{List, [], ◌∷◌, ◌++◌, map, reverse}
pub use native.Mathlib.Omega.{arith}
