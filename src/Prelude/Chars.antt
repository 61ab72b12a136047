-- ===== src/Prelude/Chars.antt =====
-- Texts character by character: the classes and the lengths of the code's regular expressions.
use Prim.Native.Nat.{ℕ}
use Prim.Native.Char.{code}
use Prim.Native.String.{String, [], ◌∷◌, count}
use aws_secops.Prelude.Tests.{leb, ◌==◌}
use mathlib.Core.Bool.{Bool, true, ◌&&◌, ◌||◌}

abbrev pub every : (ℕ → Bool) → String → Bool
every p [] = true
every p (c ∷ s) = p (code c) && every p s

abbrev between : ℕ → ℕ → ℕ → Bool
between a b n = leb a n && leb n b

-- `[a-f0-9]`
abbrev pub is_hex : ℕ → Bool
is_hex n = between 97 102 n || between 48 57 n

-- `[A-Za-z0-9_-]`
abbrev pub is_word : ℕ → Bool
is_word n = between 97 122 n || between 65 90 n || between 48 57 n || n == 95 || n == 45

-- `re.fullmatch('[a-f0-9]{n}', s)`
abbrev pub is_hex_text : ℕ → String → Bool
is_hex_text n s = count s == n && every is_hex s

-- `re.fullmatch('[A-Za-z0-9_-]{a,b}', s)`
abbrev pub is_word_text : ℕ → ℕ → String → Bool
is_word_text a b s = between a b (count s) && every is_word s

-- `[a-z0-9_-]`
abbrev is_slug : ℕ → Bool
is_slug n = between 97 122 n || between 48 57 n || n == 95 || n == 45

-- `re.fullmatch('[a-z0-9_-]{a,b}', s)`
abbrev pub is_slug_text : ℕ → ℕ → String → Bool
is_slug_text a b s = between a b (count s) && every is_slug s

-- `re.fullmatch('[a-f0-9]{a,b}', s)`
abbrev pub is_hex_span : ℕ → ℕ → String → Bool
is_hex_span a b s = between a b (count s) && every is_hex s
