-- ===== src/Base.antt =====
-- Names that every module shares: the libraries', passed on, and the Boolean tests, lists, texts,
-- signed integers and binary fractions over the native numbers that the children define.
mod Tests
mod Lists
mod Text
mod Int
mod Fractions
mod Chunks
mod Decimal
mod Base64
mod Sorting
mod Sorted
pub use Tests.*
pub use Lists.*
pub use Text.*
pub use Int.*
pub use Fractions.*
unfoldable pub use Chunks.*
unfoldable pub use Decimal.*
unfoldable pub use Base64.*
pub use Sorting.*
pub use Sorted.*
pub use Prim.Native.Nat.{ℕ, zero, suc, ◌+◌, ◌-◌, ◌*◌, ◌/◌, ◌%◌, ◌^◌, ◌≤◌, ◌<◌, min}
pub use Prim.Native.String.{String, ◌++◌ as str_append}
pub use mathlib.Core.Path.{◌≡◌, refl, sym, ap, ◌∙◌, subst}
pub use mathlib.Core.Logic.{◌≢◌, ◌↔◌, ◌⊎◌, inl, inr}
pub use mathlib.Core.Bool.{Bool, true, false, not, ◌&&◌, ◌||◌}
pub use mathlib.Core.Option.{Option, none, some}
pub use mathlib.Core.List.{List, [], ◌∷◌, ◌++◌, map, append-nil, append_assoc, map-append}
pub use native.Mathlib.Omega.{arith}
unfoldable pub use native.Mathlib.Decide.{dec_lt, ℕ_discrete}
