-- ===== src/Prelude.antt =====
-- The names that the other modules share: the libraries', passed on, and those of the children.
mod Tests
mod Lists
mod Texts
mod Sort
mod Bytes
mod Signed
mod Maps
unfoldable pub use Sort.{sort_strings}
pub use Sort.{
  contains→mem, mem→contains, sort_strings-perm, sort_strings-IsSorted, IsSorted, not-lt_trans,
  All-sort_strings, sort_strings-All,
}
unfoldable pub use Bytes.{bytes, bytes_eq, hex}
pub use Bytes.{bytes_eq_iff, Avoids, hex-Avoids}
pub use Signed.{ℤ, pos, negsuc, pos_part, neg_part, ltz, difference_parts, parts-+ℤ, parts--ℤ}
unfoldable pub use Signed.{difference, ◌+ℤ◌, ◌-ℤ◌}
pub use Tests.*
pub use Maps.*
pub use Lists.*
unfoldable pub use Texts.{contains, lookup, insert, remove}
pub use Texts.{
  str_append_assoc, str_append-nil, lookup-insert_other, lookup-insert_same, lookup-remove_other,
  lookup-insert, lookup-remove, str_lt, str_lt_trans, str_lt_irrefl, str_lt_total,
}
pub use Prim.Native.Nat.{ℕ, zero, suc, ◌+◌, ◌-◌, ◌*◌, ◌/◌, ◌%◌, ◌^◌, ◌≤◌, ◌<◌, min}
pub use Prim.Native.String.{String, ◌++◌ as str_append}
pub use mathlib.Core.Path.{◌≡◌, refl, sym, ap, ◌∙◌, subst}
pub use mathlib.Core.Logic.{◌≢◌, ◌↔◌, ◌⊎◌, inl, inr}
pub use mathlib.Core.Bool.{Bool, true, false, ◌&&◌, ◌||◌, not}
pub use mathlib.Core.Option.{Option, none, some}
pub use mathlib.Core.List.{List, [], ◌∷◌, ◌++◌, map, Mem, Perm}
pub use native.Mathlib.Omega.{arith}
pub use text.Mathlib.Text.{◌==◌ as str_eq}
pub use text.Mathlib.TextEquality.{eq_iff}
