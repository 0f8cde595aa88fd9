-- ===== src/Base.antt =====
-- What every part shares: the libraries' names, passed on, Boolean tests, lists measured by native
-- numbers, Go strings as byte lists, and Go's 64-bit `int`.
mod Tests
mod Lists
mod Strings
pub mod Int
pub mod Sort
pub mod Maps
pub mod Replace
pub mod Texts
pub use Tests.*
pub use Lists.*
pub use Prim.Native.Nat.{ℕ, zero, suc, ◌+◌, ◌-◌, ◌*◌, ◌/◌, ◌%◌, ◌^◌, ◌≤◌, ◌<◌}
pub use mathlib.Core.Path.{◌≡◌, refl, sym, ap, ◌∙◌}
pub use mathlib.Core.Logic.{◌≢◌, ◌↔◌, ◌⊎◌, inl, inr}
pub use mathlib.Core.Bool.{Bool, true, false, not, ◌&&◌, ◌||◌}
pub use mathlib.Core.Option.{Option, none, some}
pub use mathlib.Core.List.{List, [], ◌∷◌, ◌++◌, map}
pub use native.Mathlib.Omega.{arith}
unfoldable pub use Strings.{
  Text, bytes, str_eq, has_prefix, is_nil, contains, trim_prefix_byte, trim_prefix, trim_left,
  trim_right, trim, is_space, push_head, trim_space, split_on, before,
}
pub use Strings.{is_nil→eq, str_eq_iff, str_eq_refl, str_eq→eq, str_ne→ne, ne→str_ne}
