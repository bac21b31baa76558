-- ===== src/Base.antt =====
-- The names that the other modules share: the libraries', passed on, and those of the children.
mod Tests
mod Lists
mod Text
mod Effects
mod Int
mod Parse
mod Numerals
pub use Tests.*
unfoldable pub use Lists.*
unfoldable pub use Parse.*
unfoldable pub use Text.{is_prefix, append, fstr, show, contains, show_value}
pub use Text.{
  append-empty, append_assoc, Value, int, str, value_eq, value_eq_iff, value_eq_self, show_option,
}
pub use Numerals.{AllDigits, AllDigits-show, unsigned-show}
pub use Effects.{
  PyError, runtime_error, attribute_error, index_error, value_error, type_error, io_error,
  ssh_timeout, system_exit, Result, ok, err, Result-cases, chain, chain-ok, ok-injective, bind_post,
  bind-ok, bind_run, or_raise-ok, if-ok, Action, pure, raise, gets, or_raise, lift, modify,
  and_then, and_then-agree, ◌>>=◌, ◌>>◌,
}
pub use Int.{ℤ, pos, negsuc, is_zero}
unfoldable pub use Effects.{for_each}
pub use Prim.Native.Nat.{ℕ, zero, suc, ◌+◌, ◌-◌, ◌*◌, ◌/◌, ◌%◌, ◌≤◌, ◌<◌}
pub use Prim.Native.String.{String}
pub use mathlib.Core.Path.{◌≡◌, refl, sym, ap, ◌∙◌}
pub use mathlib.Core.Logic.{◌≢◌, ◌↔◌, ◌⊎◌, inl, inr}
pub use mathlib.Core.Bool.{Bool, true, false, not, ◌&&◌, ◌||◌}
pub use mathlib.Core.Option.{Option, none, some}
pub use mathlib.Core.List.{List, [], ◌∷◌, ◌++◌, map}
pub use native.Mathlib.Omega.{arith}
