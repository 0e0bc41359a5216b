-- ===== src/Base.antt =====
-- The names that every other module shares: the libraries', passed on, and those of the children.
-- A text that the program only compares is a `String`; a text that it walks is a list of numbers.
mod Tests
mod Lists
mod Sets
mod Int
pub mod Chars
pub use Tests.*
pub use Lists.*
pub use Int.*
pub use Sets.{
  contains, contains-retain, contains-insert, contains-remove, contains-map, Subset,
  Subset-contains,
}
unfoldable pub use Sets.{insert, remove}
pub use Prim.Native.Nat.{ℕ, zero, suc, ◌+◌, ◌-◌, ◌*◌, ◌/◌, ◌%◌, ◌^◌, ◌≤◌, ◌<◌, min, max}
pub use Prim.Native.String.{String}
pub use mathlib.Core.Path.{◌≡◌, refl, sym, ap, ◌∙◌}
pub use mathlib.Core.Logic.{◌≢◌, ◌↔◌, ◌⊎◌, inl, inr}
pub use mathlib.Core.Bool.{Bool, true, false, not, ◌&&◌, ◌||◌}
pub use mathlib.Core.Option.{Option, none, some}
pub use mathlib.Core.List.{List, [], ◌∷◌, ◌++◌, map, reverse}
pub use native.Mathlib.Omega.{arith}
pub use text.Mathlib.Text.{◌==◌ as str_eq}
pub use text.Mathlib.TextEquality.{eq_iff}
