-- ===== src/Prelude/Sorting.antt =====
-- Python's stable `sorted(xs, key=...)`, for an order given as a Boolean test.
use mathlib.Core.Path.{◌≡◌, refl}
use mathlib.Core.Bool.{Bool, true, false, ◌&&◌}
use mathlib.Core.List.{List, [], ◌∷◌, Perm, map}
use mathlib.Core.List.Perm
use native.Mathlib.Omega.{arith}
use aws_secops.Prelude.Tests.{if◌then◌else◌}

module _ {A : Type 0} (le : A → A → Bool) where
  abbrev insert_by : A → List A → List A
  insert_by x [] = x ∷ []
  insert_by x (y ∷ ys) = let rest = insert_by x ys in if le x y then x ∷ y ∷ ys else y ∷ rest

  unfoldable pub sort_by : List A → List A
  sort_by [] = []
  sort_by (x ∷ xs) = insert_by x (sort_by xs)

  -- `x` may stand in front of the list.
  abbrev may_lead : A → List A → Bool
  may_lead x [] = true
  may_lead x (y ∷ ys) = le x y

  abbrev pub ordered : List A → Bool
  ordered [] = true
  ordered (x ∷ xs) = may_lead x xs && ordered xs

  may_lead-insert :
      (x y : A) (ys : List A)
      → le y x ≡ true
      → may_lead y ys ≡ true
      → may_lead y (insert_by x ys) ≡ true
  may_lead-insert x y [] h k = h
  may_lead-insert x y (z ∷ zs) h k = ground arith

  module _ (total : (x y : A) → le x y ≡ false → le y x ≡ true) where
    ordered-insert : (x : A) (ys : List A) → ordered ys ≡ true → ordered (insert_by x ys) ≡ true
    ordered-insert x [] h = refl
    ordered-insert x (y ∷ ys) h =
        ground (arith, total x y, ordered-insert x ys, may_lead-insert x y ys)

    pub ordered-sort_by : (xs : List A) → ordered (sort_by xs) ≡ true
    unfolding sort_by
    ordered-sort_by [] = refl
    ordered-sort_by (x ∷ xs) = ordered-insert x (sort_by xs) (ordered-sort_by xs)

  insert_by-perm : (x : A) (ys : List A) → Perm (insert_by x ys) (x ∷ ys)
  insert_by-perm x [] = Perm.refl (x ∷ [])
  insert_by-perm x (y ∷ ys) = go (le x y) (insert_by-perm x ys)
    where
      go :
          (b : Bool)
          → Perm (insert_by x ys) (x ∷ ys)
          → Perm (if b then x ∷ y ∷ ys else y ∷ insert_by x ys) (x ∷ y ∷ ys)
      go true rest = Perm.refl (x ∷ y ∷ ys)
      go false rest = Perm.trans (Perm.cons y rest) (Perm.swap x y ys)

  pub sort_by-perm : (xs : List A) → Perm (sort_by xs) xs
  unfolding sort_by
  sort_by-perm [] = Perm.refl []
  sort_by-perm (x ∷ xs) = Perm.trans (insert_by-perm x (sort_by xs)) (Perm.cons x (sort_by-perm xs))

abbrev pub All : {A : Type 0} → (A → Type 0) → List A → Type 0
All Q [] = Unit
All Q (x ∷ xs) = Q x × All Q xs

-- Two lists of one length, item by item.
abbrev pub Each : {A : Type 0} → (A → A → Type 0) → List A → List A → Type 0
Each Q [] [] = Unit
Each Q (x ∷ xs) (y ∷ ys) = Q x y × Each Q xs ys
Each Q _ _ = ⊥

pub Each-map :
    {A : Type 0} (Q : A → A → Type 0) (f : A → A)
    → ((x : A) → Q x (f x))
    → (xs : List A) → Each Q xs (map f xs)
Each-map Q f h [] = tt
Each-map Q f h (x ∷ xs) = (h x, Each-map Q f h xs)

module _ {A : Type 0} (le : A → A → Bool) (Q : A → Type 0) where
  All-insert : (x : A) (ys : List A) → Q x → All Q ys → All Q (insert_by le x ys)
  All-insert x [] q h = (q, tt)
  All-insert x (y ∷ ys) q h = go (le x y) (All-insert x ys q h.1)
    where
      go :
          (b : Bool)
          → All Q (insert_by le x ys)
          → All Q (if b then x ∷ y ∷ ys else y ∷ insert_by le x ys)
      go true rest = (q, h)
      go false rest = (h.0, rest)

  pub All-sort_by : (xs : List A) → All Q xs → All Q (sort_by le xs)
  unfolding sort_by
  All-sort_by [] h = tt
  All-sort_by (x ∷ xs) h = All-insert x (sort_by le xs) h.0 (All-sort_by xs h.1)
