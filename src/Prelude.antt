-- ===== src/Prelude.antt =====
-- The names that the other modules share: the libraries', passed on, and those of the children.
mod Tests
mod Lists
mod Eq
mod Strings
mod Int
mod Float
mod Maps
pub mod Order
pub use Tests.*
pub use Lists.*
pub use Eq.*
unfoldable pub use Eq.{contains, list_beq, option_beq}
pub use Strings.*
pub use Int.*
pub use Strings.Decimal.*
pub use Float.*
pub use Maps.*
unfoldable pub use Maps.{find_key, drop_key}
pub use Strings.Parts.*
pub use Strings.Parts.Suffixes.*
unfoldable pub use Strings.Parts.{
  has_text, ends_with, split_once, rsplit_once, last_piece, split, trim_start_char, trim_end_char,
  parse_unsigned, parse_signed, show_int, first_piece, split_once_at, trim_end_matches,
  trim_start_space, trim_end_space, split_once_space,
}
unfoldable pub use Strings.{lit, show, join, starts_with}
pub use Prim.Native.Nat.{ℕ, zero, suc, ◌+◌, ◌-◌, ◌*◌, ◌/◌, ◌%◌, ◌^◌, ◌≤◌, ◌<◌}
pub use mathlib.Core.Path.{◌≡◌, refl, sym, ap, ap₂, subst, ◌∙◌}
pub use mathlib.Core.Logic.{◌≢◌, ◌↔◌, ◌⊎◌, inl, inr}
pub use mathlib.Core.Bool.{Bool, true, false, false≢true, not, ◌&&◌, ◌||◌}
pub use mathlib.Core.Option.{Option, none, some}
pub use mathlib.Core.List.{List, [], ◌∷◌, ◌++◌, map}
pub use native.Mathlib.Omega.{arith}
