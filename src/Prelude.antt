-- ===== src/Prelude.antt =====
-- The names that the other modules share: the libraries', passed on, and those of the children.
mod Tests
mod Lists
mod Keys
mod Maps
pub mod Decimal
pub mod Int
pub use Tests.*
pub use Lists.*
pub use Maps.{
  Dict, lookup, lookup_or, insert, remove, keys, contains, Distinct, lookup-insert,
  lookup_or-insert, lookup-remove, contains-append, contains-filter, filter-Distinct,
  Distinct-append, contains-keys-insert, keys-insert-Distinct, lookup-tabulate, tabulate,
  keys-tabulate, keys_append, keys-lookup, lookup-keys, contains-keys-remove, keys-remove-Distinct,
  length-remove,
}
pub use Keys.{
  Comparable, ◌==◌, beq_self, beq_ne, Text, codes, text_beq, pair_beq, pair_beq_iff, pair_eq_beq,
}
unfoldable pub use Keys.{nat_eq, text_eq, pair_eq}
pub use Prim.Native.Nat.{ℕ, zero, suc, ◌+◌, ◌-◌, ◌*◌, ◌/◌, ◌%◌, ◌≤◌, ◌<◌, min, max}
pub use mathlib.Core.Path.{◌≡◌, refl, sym, ap, subst, ◌∙◌, ◌≡⟨◌⟩◌, ◌∎}
pub use mathlib.Core.Logic.{◌≢◌, ◌↔◌, ◌⊎◌, inl, inr}
pub use mathlib.Core.Bool.{Bool, true, false, not, ◌&&◌, ◌||◌}
pub use mathlib.Core.Option.{Option, none, some}
pub use mathlib.Core.List.{List, [], ◌∷◌, ◌++◌, map, append-nil, append_assoc}
pub use native.Mathlib.Omega.{arith}
