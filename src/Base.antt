-- ===== src/Base.antt =====
-- The names that the other modules share: the library's, passed on, and those of the children.
mod Tests
mod Lists
mod Text
pub mod Number
pub mod Decimal
pub use Tests.*
pub use Lists.*
pub use Text.{
  Str, codes, starts_with-append, Lacks, split-join, split_first, Lacks-has_char, cut-append,
  cut_last-append, count_char-append, count_char-Lacks, last_or, last_or-append, ends_with_last,
}
unfoldable pub use Text.{
  str_eq, starts_with, strip_prefix, remove_first, ends_with, cut, cut_last, count_char, includes,
  has_char, split, join, to_lower_char, to_lower,
}
pub use mathlib.Core.Option.{map as option_map}
pub use Text.{str_eq_iff, str_eq_ne, str_eq_sym, str_eq_refl, str_eq_inst}
pub use Prim.Native.Nat.{ℕ, zero, suc, ◌+◌, ◌-◌, ◌*◌, ◌/◌, ◌%◌, ◌^◌, ◌≤◌, ◌<◌}
pub use mathlib.Core.Path.{◌≡◌, refl, sym, ap, subst, ◌∙◌}
pub use mathlib.Core.Logic.{◌≢◌, ◌↔◌, ◌⊎◌, inl, inr}
pub use mathlib.Core.Bool.{Bool, true, false, not, ◌&&◌, ◌||◌}
pub use mathlib.Core.Option.{Option, none, some, some-injective}
pub use mathlib.Core.List.{List, [], ◌∷◌, ◌++◌, map, append_assoc, append-nil}
pub use native.Mathlib.Omega.{arith}
