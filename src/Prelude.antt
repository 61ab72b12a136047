-- ===== src/Prelude.antt =====
-- The names that the modules share: the libraries', passed on, and those of the children.
mod Tests
mod Lists
mod TextOrder
mod Chars
mod Sorting
mod Strip
mod Texts
mod Slices
mod Counter
pub use Tests.*
pub use Lists.*
pub use Counter.{dedupe, tally}
pub use Slices.{take-add, drop-add, take-drop, take_all, length-drop}
unfoldable pub use Texts.*
pub use TextOrder.{
  leb_text, leb_text_total, lex, at_most, at_most-flip, flip, flip-then, numbers_swap, texts_swap,
}
pub use Prim.Native.Nat.{Ordering, compare as compare_ℕ}
pub use Prim.Native.String.{compare as compare_texts}
unfoldable pub use Sorting.*
pub use Chars.{is_hex_text, is_hex_span, is_word_text, is_slug_text}
pub use Strip.{strip-strip}
unfoldable pub use Strip.{strip, is_safe_text, ◌⧺◌, join_texts, is_part, starts_with}
pub use Prim.Native.Nat.{ℕ, zero, suc, ◌+◌, ◌-◌, ◌≤◌, ◌<◌, min}
pub use Prim.Native.String.{String}
pub use mathlib.Core.Path.{◌≡◌, refl, sym, ap, ◌∙◌, subst}
pub use mathlib.Core.Logic.{◌≢◌, ◌↔◌, ◌⊎◌, inl, inr}
pub use mathlib.Core.Bool.{Bool, true, false, not, ◌&&◌, ◌||◌}
pub use mathlib.Core.Option.{Option, none, some}
pub use mathlib.Core.List.{List, [], ◌∷◌, ◌++◌, map, Perm}
pub use native.Mathlib.Omega.{arith}
