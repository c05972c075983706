-- ===== src/Base.antt =====
-- The names that the other modules share: the libraries', passed on, and those of the children.
mod Tests
mod Lists
mod Maps
pub mod Texts
pub mod Words
pub mod TextOrder
pub use Tests.{ltb, leb, ◌==◌, if◌then◌else◌, str_eq_iff, str_eq_refl, str_eq_comm}
pub use Tests.{==_iff, and_iff, Bool-cases, Option-cases, if_both, option_both}
unfoldable pub use Tests.{str_eq}
pub use Lists.*
pub use Maps.{Dict, lookup-insert, lookup-erase, lookup-insert_self, lookup-erase_self}
pub use Maps.{NodupKeys, insert-NodupKeys, erase-NodupKeys, All-insert, All-erase, map_equal_iff}
unfoldable pub use Maps.{lookup, insert, erase, map_equal}
pub use Prim.Native.Nat.{ℕ, zero, suc, ◌+◌, ◌-◌, ◌*◌, ◌/◌, ◌%◌, ◌^◌, ◌≤◌, ◌<◌}
pub use Prim.Native.String.{String}
pub use mathlib.Core.Path.{◌≡◌, refl, sym, ap, ap₂, subst, ◌∙◌}
pub use mathlib.Core.Logic.{◌≢◌, ◌↔◌, ◌⊎◌, inl, inr}
pub use mathlib.Core.Bool.{Bool, true, false, not, ◌&&◌, ◌||◌}
pub use mathlib.Core.Option.{Option, none, some}
pub use mathlib.Core.List.{List, [], ◌∷◌, ◌++◌, map}
pub use native.Mathlib.Omega.{arith}
