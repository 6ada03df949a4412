-- ===== src/Prelude.antt =====
-- The names that the other modules share: the libraries', passed on, and those of the children.
pub mod Tests
pub mod Lists
pub mod Int
pub mod Faults
pub mod Text
pub mod Maps
pub mod Decimal
pub use Prim.Native.Nat.{ℕ, zero, suc, ◌+◌, ◌-◌, ◌*◌, ◌/◌, ◌%◌, ◌^◌, ◌≤◌, ◌<◌, min, max}
pub use mathlib.Core.Path.{◌≡◌, refl, sym, ap, ap₂, ◌∙◌, subst, subst₂, fun_ext}
pub use mathlib.Core.Logic.{◌≢◌, ◌↔◌, ◌⊎◌, inl, inr}
pub use mathlib.Core.Bool.{Bool, true, false, not, ◌&&◌, ◌||◌}
pub use mathlib.Core.Option.{Option, none, some}
pub use mathlib.Core.List.{List, [], ◌∷◌, ◌++◌, map, foldl, append-nil, append_assoc}
pub use native.Mathlib.Omega.{arith}
pub use Prim.Native.String.{String}
pub use Tests.{
  ltb, leb, ◌==◌, if◌then◌else◌, ltb→lt, lt→ltb, leb→le, ==_iff, ne_test, tests, Bool-cases,
  Option-cases,
}
pub use Lists.{
  length, get_elem?, set, length-append, length-set, get_elem?-set_self, get_elem?-set_ne, get_or,
  take, drop, replicate, take-append-drop, length-take, length-drop, length-replicate, length-map,
  All, All-append, pop, last?, length-pop, pop-push, last?-push,
}
pub use Faults.{
  Outcome, ok, panic, ◌>>=◌, Ensures, Returns, Returns-if, Returns-mono, Returns-bind, checked_sub,
  index, slice_from, index_total, >>=-eq-ok, ok-injective,
}
pub use Text.{bytes_of, bytes_eq, bytes_eq_iff, bytes_eq_refl}
