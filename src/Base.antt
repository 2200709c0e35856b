-- ===== src/Base.antt =====
-- The names that the other modules share: the libraries', passed on, and those of its children.
mod Bools
mod Lists
mod Results
mod Strings
mod Words
pub use Bools.*
pub use Lists.*
pub use Results.*
pub use Strings.*
pub use Words.*
unfoldable pub use Lists.{rposition}
unfoldable pub use Words.{is_whitespace, trim, split_whitespace, join_with, blank_out, text_le}
unfoldable pub use Strings.{
  encode_char, encode, byte_len, same_text, starts_with, contains, ends_with, split, split_once,
  rsplit_once, slice_from, slice_to, to_ascii_lowercase, trim_start, trim_end, member,
}
pub use Prim.Native.Nat.{ℕ, zero, suc, ◌+◌, ◌-◌, ◌*◌, ◌/◌, ◌%◌, ◌^◌, ◌≤◌, ◌<◌, min, max}
pub use Prim.Native.String.{String}
pub use mathlib.Core.Path.{◌≡◌, refl, sym, ap, ◌∙◌, subst, fun_ext}
pub use mathlib.Core.Logic.{◌≢◌, ◌↔◌, ◌⊎◌, inl, inr}
pub use mathlib.Core.Bool.{Bool, true, false, not, ◌&&◌, ◌||◌}
pub use mathlib.Core.Option.{Option, none, some}
pub use mathlib.Core.List.{List, [], ◌∷◌, ◌++◌, map, reverse, append-nil, append_assoc}
pub use native.Mathlib.Omega.{arith}
