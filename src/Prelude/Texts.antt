-- ===== src/Prelude/Texts.antt =====
-- Python's `==`, `in`, `sorted` and `len(set(...))` on strings.
use Prim.Native.String.{String}
use mathlib.Core.Path.{◌≡◌, refl}
use mathlib.Core.Bool.{Bool, true, false, ◌&&◌, ◌||◌}
use mathlib.Core.List.{List, [], ◌∷◌}
use native.Mathlib.Omega.{arith}
use text.Mathlib.Text.{◌==◌ as str_eq}
use text.Mathlib.TextEquality.{eq_iff}
use text.Mathlib.TextPositions.{eq_refl}
use aws_secops.Prelude.Tests.{if◌then◌else◌}
use aws_secops.Prelude.TextOrder.{leb_text, leb_text_total}

infix 50 ◌≟◌
abbrev pub ◌≟◌ : String → String → Bool
a ≟ b = str_eq a b

pub ≟_refl : (s : String) → (s ≟ s) ≡ true
≟_refl s = eq_refl s

pub ≟→eq : (s t : String) → (s ≟ t) ≡ true → s ≡ t
≟→eq s t h = (eq_iff s t).0 h

pub eq→≟ : (s t : String) → s ≡ t → (s ≟ t) ≡ true
eq→≟ s t h = (eq_iff s t).1 h

abbrev pub contains : String → List String → Bool
contains s [] = false
contains s (t ∷ ts) = (s ≟ t) || contains s ts

-- `a == b` of two lists of strings.
abbrev pub same_texts : List String → List String → Bool
same_texts [] [] = true
same_texts (s ∷ ss) (t ∷ ts) = (s ≟ t) && same_texts ss ts
same_texts _ _ = false

pub same_texts_refl : (ss : List String) → same_texts ss ss ≡ true
same_texts_refl [] = refl
same_texts_refl (s ∷ ss) = ground (arith, ≟_refl s, same_texts_refl ss)

pub same_texts→eq : (ss ts : List String) → same_texts ss ts ≡ true → ss ≡ ts
same_texts→eq [] [] h = refl
same_texts→eq [] (t ∷ ts) h = absurd (cc h)
same_texts→eq (s ∷ ss) [] h = absurd (cc h)
same_texts→eq (s ∷ ss) (t ∷ ts) h =
    let head : s ≡ t = ≟→eq s t (ground arith) in
    let tail : ss ≡ ts = same_texts→eq ss ts (ground arith) in cc (head, tail)

-- `len(set(ss)) == len(ss)`
abbrev pub distinct : List String → Bool
distinct [] = true
distinct (s ∷ ss) = if contains s ss then false else distinct ss

abbrev insert_sorted : String → List String → List String
insert_sorted s [] = s ∷ []
insert_sorted s (t ∷ ts) =
    let rest = insert_sorted s ts in if leb_text s t then s ∷ t ∷ ts else t ∷ rest

-- `sorted(ss)`
unfoldable pub sort_texts : List String → List String
sort_texts [] = []
sort_texts (s ∷ ss) = insert_sorted s (sort_texts ss)

-- `s` may stand in front of the list.
abbrev below_head : String → List String → Bool
below_head s [] = true
below_head s (t ∷ ts) = leb_text s t

abbrev is_sorted : List String → Bool
is_sorted [] = true
is_sorted (s ∷ ss) = below_head s ss && is_sorted ss

below_head-insert :
    (s t : String) (ss : List String)
    → leb_text t s ≡ true
    → below_head t ss ≡ true
    → below_head t (insert_sorted s ss) ≡ true
below_head-insert s t [] h k = h
below_head-insert s t (u ∷ us) h k = ground arith

is_sorted-insert :
    (s : String) (ss : List String) → is_sorted ss ≡ true → is_sorted (insert_sorted s ss) ≡ true
is_sorted-insert s [] h = refl
is_sorted-insert s (t ∷ ts) h =
    ground (arith, leb_text_total s t, is_sorted-insert s ts, below_head-insert s t ts)

is_sorted-sort : (ss : List String) → is_sorted (sort_texts ss) ≡ true
unfolding sort_texts
is_sorted-sort [] = refl
is_sorted-sort (s ∷ ss) = is_sorted-insert s (sort_texts ss) (is_sorted-sort ss)

insert_head : (s : String) (ss : List String) → below_head s ss ≡ true → insert_sorted s ss ≡ s ∷ ss
insert_head s [] h = refl
insert_head s (t ∷ ts) h = ground arith

sort_of_sorted : (ss : List String) → is_sorted ss ≡ true → sort_texts ss ≡ ss
unfolding sort_texts
sort_of_sorted [] h = refl
sort_of_sorted (s ∷ ss) h = ground (arith, sort_of_sorted ss, insert_head s ss)

-- Sorting twice is sorting once.
pub sort-sort : (ss : List String) → sort_texts (sort_texts ss) ≡ sort_texts ss
sort-sort ss = sort_of_sorted (sort_texts ss) (is_sorted-sort ss)
