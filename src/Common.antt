-- ===== src/Common.antt =====
-- What the other modules share: the library's names passed on, tests on numbers and texts, Go's
-- maps and string helpers, lists of native length, and the outcome of a call.
pub mod Outcome
pub mod Keeps
mod Tests
mod Lists
mod Texts
pub mod GoMap
pub use Tests.*
pub use Lists.*
unfoldable pub use Lists.{count}
pub use Texts.*
unfoldable pub use Texts.{has_prefix, trim_prefix}
pub use Prim.Native.Nat.{ℕ, zero, suc, ◌+◌, ◌-◌, ◌*◌, ◌/◌, ◌%◌, ◌^◌, ◌≤◌, ◌<◌}
pub use Prim.Native.String.{String}
pub use mathlib.Core.Path.{◌≡◌, refl, sym, ap, ◌∙◌}
pub use mathlib.Core.Logic.{◌≢◌, ◌↔◌, ◌⊎◌, inl, inr}
pub use mathlib.Core.Bool.{Bool, true, false, not, ◌&&◌, ◌||◌}
pub use mathlib.Core.Option.{Option, none, some}
pub use mathlib.Core.List.{List, [], ◌∷◌, ◌++◌, map, append-nil, append_assoc}
pub use native.Mathlib.Omega.{arith}
pub use text.Mathlib.Text.{◌==◌}
pub use text.Mathlib.TextEquality.{eq_iff}
pub use text.Mathlib.TextPositions.{eq_refl}
