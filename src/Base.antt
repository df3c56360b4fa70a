-- ===== src/Base.antt =====
-- The names that the other modules share: the libraries', passed on, and those of the children.
mod Tests
mod Lists
mod Texts
mod Effects
mod Decimal
mod Sorting
mod Columns
mod Rows
mod Keys
pub use Keys.{
  Mem-map, Mem-keep, All-of_Mem, Keyed, Keyed-eq, Keyed-keep, Keyed-perm, Keyed-take, Keyed-drop,
  Keyed-of_append, Keyed-append, Keyed-map, All-Mem, All-perm, All-keep_pass, All-of_map,
}
pub use Rows.{
  sort_by-perm, IsStrict, IsSorted-eq-sort_by, count_from, zero_mul, take_all, concat-parts,
}
unfoldable pub use Columns.{ordered}
pub use Columns.{
  Column, ascending, descending, descending_nulls_last, nulls_last_before, before, ordered-IsOrder,
}
unfoldable pub use Sorting.{sort_by}
pub use Sorting.{
  insert_sorted, IsOrder, IsSorted, ties, IsStable, All-insert_sorted, All-sort_by, length-sort_by,
  IsSorted-sort_by, sort_by-IsStable,
}
unfoldable pub use Decimal.{decimal}
pub use Decimal.{value_from, value_from-decimal, decimal_injective, IsDigit, decimal-All}
pub use Tests.*
pub use Lists.*
pub use Texts.*
pub use Effects.*
pub use Prim.Native.Nat.{ℕ, zero, suc, ◌+◌, ◌-◌, ◌*◌, ◌/◌, ◌%◌, ◌^◌, ◌≤◌, ◌<◌, min, max}
pub use mathlib.Core.Path.{◌≡◌, refl, sym, ap, fun_ext, ◌∙◌, ◌≡⟨◌⟩◌, ◌∎, subst}
pub use mathlib.Core.Logic.{◌≢◌, ◌↔◌, ◌⊎◌, inl, inr}
pub use mathlib.Core.Bool.{Bool, true, false, not, ◌&&◌, ◌||◌}
pub use mathlib.Core.Option.{Option, none, some}
pub use mathlib.Core.List.{
  List, [], ◌∷◌, ◌++◌, map, append_assoc, append-nil, map-append, append_cancel_left,
}
pub use native.Mathlib.Omega.{arith}
