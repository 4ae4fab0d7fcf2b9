-- ===== src/Prelude.antt =====
-- The names that all modules share: those of the libraries, passed on, and those of the children.
-- `Tests` has Boolean tests on numbers and on texts, `Lists` measures and indexes lists by native
-- numbers, `Str` has the methods of Python's `str` that the scripts call.
mod Tests
mod Lists
pub mod Str
pub mod Int
pub mod StrLaws
pub use Tests.*
pub use Lists.*
unfoldable pub use Str.{
  starts_with, ends_with, find, contains, count, replace_all, split_on, is_space, is_space_char,
  is_blank_char, byte_strip, byte_words, lstrip, rstrip, rstrip_char, lstrip_char, strip, to_lower,
  to_upper, lower, upper, words, mem_text, partition, span_to_char, decimal,
}
pub use Prim.Native.Nat.{ℕ, zero, suc, ◌+◌, ◌-◌, ◌*◌, ◌/◌, ◌%◌, ◌^◌, ◌≤◌, ◌<◌}
pub use Prim.Native.String.{String}
pub use mathlib.Core.Path.{◌≡◌, refl, sym, ap, ◌∙◌}
pub use mathlib.Core.Logic.{◌≢◌, ◌↔◌, ◌⊎◌, inl, inr}
pub use mathlib.Core.Bool.{Bool, true, false, ◌&&◌, ◌||◌, not}
pub use mathlib.Core.Option.{Option, none, some}
pub use mathlib.Core.List.{List, [], ◌∷◌, ◌++◌, map, reverse}
pub use native.Mathlib.Omega.{arith}
