-- ===== src/Base.antt =====
-- Names that the whole development shares: the libraries', passed on, and those of the children.
mod Tests
mod Lists
mod Dicts
pub mod Result
pub mod Int
pub use Tests.*
pub use Dicts.*
pub use Lists.{
  length, append_nil, length-append, All, All-append, length-keep-le, drop, length-drop, All-drop,
  All-keep, take, take-drop, length-take, length-take_le, drop-append, keep-All,
}
unfoldable pub use Lists.{keep, any, all}
pub use Prim.Native.Nat.{ℕ, zero, suc, ◌+◌, ◌-◌, ◌*◌, ◌/◌, ◌%◌, ◌^◌, ◌≤◌, ◌<◌}
pub use Prim.Native.String.{String}
pub use mathlib.Core.Path.{◌≡◌, refl, subst, sym, ap, ◌∙◌}
pub use mathlib.Core.Logic.{◌≢◌, ◌↔◌, ◌⊎◌, inl, inr}
pub use mathlib.Core.Bool.{Bool, true, false, not, ◌&&◌, ◌||◌}
pub use mathlib.Core.Option.{Option, none, some}
pub use mathlib.Core.List.{List, [], ◌∷◌, ◌++◌, map}
pub use native.Mathlib.Omega.{arith}
pub use text.Mathlib.Text.{◌==◌ as str_eq}
pub use text.Mathlib.TextEquality.{eq_iff}
pub use text.Mathlib.TextPositions.{eq_refl}
