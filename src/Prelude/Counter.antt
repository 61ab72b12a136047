-- ===== src/Prelude/Counter.antt =====
-- `collections.Counter` of texts, read in the order of its sorted keys.
use Prim.Native.Nat.{ℕ}
use Prim.Native.String.{String}
use mathlib.Core.List.{List, [], ◌∷◌, map}
use aws_secops.Prelude.Tests.{if◌then◌else◌}
use aws_secops.Prelude.Lists.{count}
use aws_secops.Prelude.Texts.{contains, sort_texts, ◌≟◌}

-- The keys, each once.
abbrev pub dedupe : List String → List String
dedupe [] = []
dedupe (s ∷ ss) = let rest = dedupe ss in if contains s ss then rest else s ∷ rest

-- `sorted(Counter(ss).items())`
unfoldable pub tally : List String → List (String × ℕ)
tally ss = map (λ name. (name, count (λ s. s ≟ name) ss)) (sort_texts (dedupe ss))
