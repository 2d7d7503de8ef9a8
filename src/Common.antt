-- ===== src/Common.antt =====
-- What the modules share: names of the libraries, passed on, and their children.
mod Tests
mod Lists
mod Floats
mod Results
mod Sorting
mod Window
mod Signed
pub use Tests.*
pub use Lists.{
  length, get_elem?, drop, count, All, length-append, length-drop, set_elem, get_elem?-set_elem,
}
unfoldable pub use Lists.{last_n, from_end, push}
pub use Window.{
  length-last_n, length-push, length-push-le, push-last_n, push_all-last_n, last_n-append,
  last_n-last_n,
}
unfoldable pub use Window.{push_all}
pub use Floats.{Float, of_ℕ, fixed_float}
unfoldable pub use Sorting.{insert, sort, median}
pub use Signed.{
  ℤ, pos, negsuc, minus, neg, magnitude, is_negative, is_zero, signed, scaled, ◌≤ℤ◌, difference,
  plus, limited, clamp_percent, neg-neg, magnitude-neg, neg-signed,
}
pub use Results.{
  Error, attribute_error, key_error, type_error, Result, ok, raise, Answer, gives, raises,
}
pub use Prim.Native.Nat.{ℕ, zero, suc, ◌+◌, ◌-◌, ◌*◌, ◌/◌, ◌%◌, ◌≤◌, ◌<◌}
pub use mathlib.Core.Path.{◌≡◌, refl, sym, ap, ◌∙◌}
pub use mathlib.Core.Logic.{◌≢◌, ◌↔◌, ◌⊎◌, inl, inr}
pub use mathlib.Core.Bool.{Bool, true, false, not, ◌&&◌, ◌||◌}
pub use mathlib.Core.Option.{Option, none, some}
pub use mathlib.Core.List.{List, [], ◌∷◌, ◌++◌, map, reverse}
pub use native.Mathlib.Omega.{arith}
