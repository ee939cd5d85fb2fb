-- ===== src/Prelude.antt =====
-- The names that every part of the development shares: the libraries', passed on, and those of
-- its children (tests on numbers, lists over the native numbers, byte strings, machine words, runs
-- that can fault, maps, numbers in decimal).
mod Tests
mod Lists
mod Strings
mod Word
mod Faults
pub mod Dict
pub mod Decimal
pub use Tests.*
pub use Lists.*
pub use Strings.*
pub use Word.*
pub use Faults.*
unfoldable pub use Tests.{passes_below}
unfoldable pub use Strings.{equal}
unfoldable pub use Word.{be32, read_be32}
pub use Prim.Native.Nat.{ℕ, zero, suc, ◌+◌, ◌-◌, ◌*◌, ◌/◌, ◌%◌, ◌^◌, ◌≤◌, ◌<◌, max, min}
pub use mathlib.Core.Path.{◌≡◌, refl, sym, ap, ◌∙◌}
pub use mathlib.Core.Logic.{◌≢◌, ◌↔◌, ◌⊎◌, inl, inr}
pub use mathlib.Core.Bool.{Bool, true, false, not, ◌&&◌, ◌||◌}
pub use mathlib.Core.Option.{Option, none, some}
pub use mathlib.Core.List.{List, [], ◌∷◌, ◌++◌, map, append_assoc, append-nil}
pub use native.Mathlib.Omega.{arith}
