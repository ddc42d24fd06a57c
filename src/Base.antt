-- ===== src/Base.antt =====
-- The names that the models of linux/src and rtos/src share: the libraries', passed on, and those of
-- the children (tests on numbers, lists indexed by numbers, C's signed integers, commands, answers of the system).
mod Tests
mod Lists
mod Int
mod Command
mod Calls
pub use Tests.*
pub use Lists.*
unfoldable pub use Int.*
pub use Command.*
pub use Calls.*
pub use Prim.Native.Nat.{ℕ, zero, suc, ◌+◌, ◌-◌, ◌*◌, ◌/◌, ◌%◌, ◌^◌, ◌≤◌, ◌<◌}
pub use mathlib.Core.Path.{◌≡◌, refl, sym, ap, ◌∙◌}
pub use mathlib.Core.Logic.{◌≢◌, ◌↔◌, ◌⊎◌, inl, inr}
pub use mathlib.Core.Bool.{Bool, true, false, not, ◌&&◌, ◌||◌}
pub use mathlib.Core.Option.{Option, none, some}
pub use mathlib.Core.List.{append-nil, append_assoc, List, [], ◌∷◌, ◌++◌, map}
pub use native.Mathlib.Omega.{arith}
