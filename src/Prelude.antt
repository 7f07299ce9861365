-- ===== src/Prelude.antt =====
-- The names that the other modules share: the libraries', passed on, and those of the children.
mod Tests
mod Lists
mod Texts
mod Sort
mod Order
mod Members
mod Distinct
pub use Tests.*
pub use Lists.*
pub use Members.*
pub use Distinct.*
pub use Order.*
unfoldable pub use Texts.{strip, text_le, starts_with, split_commas}
pub use Texts.*
unfoldable pub use Sort.{sort, insert_sorted}
pub use Sort.{
  any-insert_sorted, any-sort, length-sort, length-filter-sort, All-insert_sorted, All-sort,
}
pub use Prim.Native.Nat.{ℕ, zero, suc, ◌+◌, ◌-◌, ◌*◌, ◌/◌, ◌%◌, ◌^◌, ◌≤◌, ◌<◌}
pub use Prim.Native.String.{String}
pub use mathlib.Core.Path.{◌≡◌, refl, sym, ap, ◌∙◌, subst}
pub use mathlib.Core.Logic.{◌≢◌, ◌↔◌, ◌⊎◌, inl, inr}
pub use mathlib.Core.Bool.{Bool, true, false, ◌&&◌, ◌||◌, not}
pub use mathlib.Core.Option.{Option, none, some}
pub use mathlib.Core.List.{List, [], ◌∷◌, ◌++◌, map, append_assoc, append-nil, reverse, reverse_aux}
pub use native.Mathlib.Omega.{arith}
