-- ===== src/Prelude/Strip.antt =====
-- `str.strip`, the texts that the code takes as plain, and texts put together.
use Prim.Native.Nat.{ℕ}
use mathlib.Core.Path.{◌≡◌, refl, ap, ◌∙◌}
use native.Mathlib.Omega.{arith}
use Prim.Native.Char.{code}
use Prim.Native.String.{String, [], ◌∷◌, ◌++◌}
use mathlib.Core.Bool.{Bool, true, false, ◌&&◌, ◌||◌, not}
use mathlib.Core.List as Lists
use mathlib.Core.List.{List}
use aws_secops.Prelude.Tests.{leb, ◌==◌, if◌then◌else◌}
use aws_secops.Prelude.Chars.{every}

abbrev between : ℕ → ℕ → ℕ → Bool
between a b n = leb a n && leb n b

-- `c.isspace()`
abbrev is_space : ℕ → Bool
is_space c =
    between 9 13 c
    || between 28 32 c
    || c == 133
    || c == 160
    || c == 5760
    || between 8192 8202 c
    || c == 8232
    || c == 8233
    || c == 8239
    || c == 8287
    || c == 12288

abbrev is_empty : String → Bool
is_empty [] = true
is_empty (c ∷ s) = false

strip_left : String → String
strip_left [] = []
strip_left (c ∷ s) = let rest = strip_left s in if is_space (code c) then rest else c ∷ s

strip_right : String → String
strip_right [] = []
strip_right (c ∷ s) =
    let rest = strip_right s in if is_empty rest && is_space (code c) then [] else c ∷ rest

-- `s.strip()`
unfoldable pub strip : String → String
unfolding strip_left strip_right
strip s = strip_right (strip_left s)

-- A character class: no control character but the tab.
abbrev is_plain : ℕ → Bool
is_plain c = c == 9 || leb 32 c

-- `SAFE_TEXT.fullmatch(s)`
abbrev pub is_safe_text : String → Bool
is_safe_text [] = false
is_safe_text (c ∷ s) = is_plain (code c) && every is_plain s

abbrev starts_plain : String → Bool
starts_plain [] = true
starts_plain (c ∷ s) = not (is_space (code c))

starts_plain-strip_left : (s : String) → starts_plain (strip_left s) ≡ true
unfolding strip_left
starts_plain-strip_left [] = refl
starts_plain-strip_left (c ∷ s) = ground (arith, starts_plain-strip_left s)

strip_left-plain : (s : String) → starts_plain s ≡ true → strip_left s ≡ s
unfolding strip_left
strip_left-plain [] h = refl
strip_left-plain (c ∷ s) h = ground arith

starts_plain-strip_right :
    (s : String) → starts_plain s ≡ true → starts_plain (strip_right s) ≡ true
unfolding strip_right
starts_plain-strip_right [] h = refl
starts_plain-strip_right (c ∷ s) h = ground arith

strip_right-strip_right : (s : String) → strip_right (strip_right s) ≡ strip_right s
unfolding strip_right
strip_right-strip_right [] = refl
strip_right-strip_right (c ∷ s) = ground (arith, strip_right-strip_right s)

-- A text that is stripped stays as it is.
pub strip-strip : (s : String) → strip (strip s) ≡ strip s
unfolding strip
strip-strip s =
    ap strip_right (
      strip_left-plain (strip_right (strip_left s))
        (starts_plain-strip_right (strip_left s) (starts_plain-strip_left s)))
    ∙ strip_right-strip_right (strip_left s)

infixr 65 ◌⧺◌
abbrev pub ◌⧺◌ : String → String → String
s ⧺ t = s ++ t

-- `separator.join(texts)`
abbrev pub join_texts : String → List String → String
join_texts separator Lists.[] = []
join_texts separator (Lists.◌∷◌ s Lists.[]) = s
join_texts separator (Lists.◌∷◌ s (Lists.◌∷◌ t ts)) =
    s ++ separator ++ join_texts separator (Lists.◌∷◌ t ts)

abbrev pub starts_with : String → String → Bool
starts_with [] t = true
starts_with (c ∷ s) [] = false
starts_with (c ∷ s) (d ∷ t) = let rest = starts_with s t in code c == code d && rest

-- `s in t`
unfoldable pub is_part : String → String → Bool
is_part s [] = starts_with s []
is_part s (d ∷ t) = let rest = is_part s t in starts_with s (d ∷ t) || rest
