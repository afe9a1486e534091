-- ===== src/Base.antt =====
-- The names that the other modules share: the libraries', passed on, and those of the children.
mod Equality
mod Tests
mod Lists
mod Text
mod Slices
pub use Tests.*
pub use Lists.*
pub use Text.{contains-sorted, strip-strip}
pub use Slices.{same_char, has_prefix, has_char}
unfoldable pub use Slices.{
  rstrip_onto, append, after_prefix, has_suffix, rstrip, count_parts, last_part,
}
unfoldable pub use Text.{strip, sorted, words}
pub use Equality.{Eq, ◌==◌, contains, ==_sound, ==_ne, ==_refl, nat_eq}
unfoldable pub use Equality.{string_eq}
pub use Prim.Native.Nat.{ℕ, zero, suc, ◌+◌, ◌-◌, ◌*◌, ◌/◌, ◌%◌, ◌≤◌, ◌<◌, min, max}
pub use Prim.Native.String.{String}
pub use mathlib.Core.Path.{◌≡◌, refl, sym, ap, ap₂, ◌∙◌, subst}
pub use mathlib.Core.Logic.{◌≢◌, ◌↔◌, ◌⊎◌, inl, inr, ite}
pub use mathlib.Core.Bool.{Bool, true, false, not, ◌&&◌, ◌||◌}
pub use mathlib.Core.Option.{Option, none, some}
pub use mathlib.Core.List.{List, [], ◌∷◌, ◌++◌, map}
pub use native.Mathlib.Omega.{arith}
unfoldable pub use native.Mathlib.Decide.{ℕ_discrete}
