-- ===== src/Prelude.antt =====
-- The names that every part shares: the libraries', passed on, and those of the children.
pub mod Tests
pub mod Lists
pub mod Bits
pub mod Bytes
pub mod Outcomes
pub use Tests.*
pub use Lists.{
  length, get_elem?, set, replicate, all, keep_if, length-append, length-set, length-replicate,
  length-take, length-drop, take-append, drop-append, take-append-drop, take_of_length-le,
  get_elem?-set_self, get_elem?-set_ne, get_elem?-of_lt, lt_of_get_elem?, get_elem?-replicate,
  count-append, count-remove, length-remove, elem-count, count-elem, count_self, count-cons,
  get_last?-of_pos, elem-cons, elem-nil, count-nil, elem-length, count-get_last?,
}
unfoldable pub use Lists.{take, drop, get_last?, drop_last, elem, remove, count}
pub use Prim.Native.Nat.{ℕ, zero, suc, ◌+◌, ◌-◌, ◌*◌, ◌/◌, ◌%◌, ◌^◌, ◌≤◌, ◌<◌, min, max}
pub use mathlib.Core.Path.{◌≡◌, refl, sym, ap, ◌∙◌}
pub use mathlib.Core.Logic.{◌≢◌, ◌↔◌, ◌⊎◌, inl, inr}
pub use mathlib.Core.Bool.{Bool, true, false, not, ◌&&◌, ◌||◌}
pub use mathlib.Core.Option.{Option, none, some}
pub use mathlib.Core.List.{List, [], ◌∷◌, ◌++◌, map}
pub use native.Mathlib.Omega.{arith}
