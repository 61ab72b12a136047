-- ===== src/Prelude/TextOrder.antt =====
-- The order of strings by code points is total: `compare` answers the other way round when its
-- arguments change places.
use Prim.Native.Nat.{ℕ, zero, suc, Ordering, compare as compare_ℕ}
use Prim.Native.Nat.compare as compare_ℕ
use Prim.Native.Char.{code}
use Prim.Native.String.compare
use Prim.Native.String.{String, compare, then, [], ◌∷◌}
use mathlib.Core.Path.{◌≡◌, refl, sym, ap, ap₂, ◌∙◌}
use mathlib.Core.Bool.{Bool, true, false}
use native.Mathlib.Omega.{arith}

abbrev pub flip : Ordering → Ordering
flip Ordering.lt = Ordering.gt
flip Ordering.eq = Ordering.eq
flip Ordering.gt = Ordering.lt

pub flip-then : (o p : Ordering) → flip (then o p) ≡ then (flip o) (flip p)
flip-then Ordering.lt p = refl
flip-then Ordering.eq p = refl
flip-then Ordering.gt p = refl

pub numbers_swap : (m n : ℕ) → compare_ℕ n m ≡ flip (compare_ℕ m n)
numbers_swap zero zero = refl
numbers_swap zero (suc n) = compare_ℕ.suc-zero n ∙ sym (ap flip (compare_ℕ.zero-suc n))
numbers_swap (suc m) zero = compare_ℕ.zero-suc m ∙ sym (ap flip (compare_ℕ.suc-zero m))
numbers_swap (suc m) (suc n) =
    compare_ℕ.suc-suc n m ∙ numbers_swap m n ∙ sym (ap flip (compare_ℕ.suc-suc m n))

pub texts_swap : (s t : String) → compare t s ≡ flip (compare s t)
texts_swap [] [] = compare.nil-nil ∙ sym (ap flip compare.nil-nil)
texts_swap [] (d ∷ t) = compare.cons-nil d t ∙ sym (ap flip (compare.nil-cons d t))
texts_swap (c ∷ s) [] = compare.nil-cons c s ∙ sym (ap flip (compare.cons-nil c s))
texts_swap (c ∷ s) (d ∷ t) =
    compare.cons-cons d c t s
    ∙ ap₂ then (numbers_swap (code c) (code d)) (texts_swap s t)
    ∙ sym (flip-then (compare_ℕ (code c) (code d)) (compare s t))
    ∙ sym (ap flip (compare.cons-cons c d s t))

-- `s <= t`
abbrev pub leb_text : String → String → Bool
leb_text s t = elim (compare s t) [ Ordering.gt ↦ false | _ ↦ true ]

pub leb_text_total : (s t : String) → leb_text s t ≡ false → leb_text t s ≡ true
leb_text_total s t h = ground (arith, texts_swap s t)

-- `a <= b` of two tuples, by how their fields compare in order.
abbrev pub at_most : Ordering → Bool
at_most Ordering.gt = false
at_most _ = true

pub at_most-flip : (o : Ordering) → at_most o ≡ false → at_most (flip o) ≡ true
at_most-flip Ordering.lt h = absurd (cc h)
at_most-flip Ordering.eq h = absurd (cc h)
at_most-flip Ordering.gt h = refl

-- The first answer that is not "equal".
abbrev pub lex : Ordering → Ordering → Ordering
lex o p = then o p
