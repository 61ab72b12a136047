-- ===== src/Effects/Keeps.antt =====
-- State invariants of methods: one rule for each way to build a method.
use aws_secops.Effects
use aws_secops.Effects.{
  Error, Exec, Outcome, lift, ok, pure, raise, raise_if, raise_when, raised, ◌>>=◌, continue, ◌>>◌,
  gets,
}
use aws_secops.Prelude.{Bool, false, if◌then◌else◌, refl, true, ◌≡◌}

-- The method leaves the invariant standing, whether it returns or raises.
pub record Keeps {S A : Type 0} (I : S → Type 0) (m : Exec S A) : Type 0 where
  pub at : (s : S) → I s → I (m s).1

module _ {S : Type 0} {I : S → Type 0} where
  pub Keeps-pure : {A : Type 0} (a : A) → Keeps {A = A} I (pure a)
  unfolding ◌>>=◌
  Keeps-pure a = record { at = λ s h. h }

  pub Keeps-raise : {A : Type 0} (e : Error) → Keeps {A = A} I (raise e)
  unfolding ◌>>=◌
  Keeps-raise e = record { at = λ s h. h }

  pub Keeps-lift : {A : Type 0} (r : Outcome A) → Keeps {A = A} I (lift r)
  unfolding ◌>>=◌
  Keeps-lift r = record { at = λ s h. h }

  pub Keeps-gets : {A : Type 0} (f : S → A) → Keeps {A = A} I (gets f)
  unfolding ◌>>=◌
  Keeps-gets f = record { at = λ s h. h }

  pub Keeps-raise_if : (b : Bool) (e : Error) → Keeps I (raise_if b e)
  unfolding ◌>>=◌
  Keeps-raise_if b e = record { at = λ s h. h }

  pub Keeps-raise_when : (p : S → Bool) (e : Error) → Keeps I (raise_when p e)
  unfolding ◌>>=◌
  Keeps-raise_when p e = record { at = λ s h. h }

  pub Keeps-if :
      {B : Type 0} (b : Bool) (m n : Exec S B)
      → (b ≡ true → Keeps I m)
      → (b ≡ false → Keeps I n)
      → Keeps I (if b then m else n)
  Keeps-if true m n km kn = km refl
  Keeps-if false m n km kn = kn refl

module _ {S A B : Type 0} {I : S → Type 0} where
  Keeps-continue :
      (f : A → Exec S B)
      → ((a : A) → Keeps I (f a))
      → (r : Outcome A) (s : S) → I s
      → I (Effects.continue r f s).1
  Keeps-continue f kf (ok a) s h = (kf a).at s h
  Keeps-continue f kf (raised e) s h = h

  pub Keeps-bind :
      {m : Exec S A} {f : A → Exec S B} → Keeps I m → ((a : A) → Keeps I (f a)) → Keeps I (m >>= f)
  unfolding ◌>>=◌
  Keeps-bind {m} {f} km kf = record { at = λ s h. Keeps-continue f kf (m s).0 (m s).1 (km.at s h) }

  pub Keeps-then : {m : Exec S A} {n : Exec S B} → Keeps I m → Keeps I n → Keeps I (m >> n)
  Keeps-then km kn = Keeps-bind km (λ _. kn)

  -- The rest of the block may use how the outcome came out.
  pub Keeps-bind_lift :
      (r : Outcome A) {f : A → Exec S B}
      → ((a : A) → r ≡ ok a → Keeps I (f a))
      → Keeps I (lift r >>= f)
  unfolding ◌>>=◌
  Keeps-bind_lift (ok a) kf = record { at = λ s h. (kf a refl).at s h }
  Keeps-bind_lift (raised e) kf = record { at = λ s h. h }

module _ {S B : Type 0} {I : S → Type 0} where
  -- After `if b: raise e` the test has failed.
  pub Keeps-guard :
      (b : Bool) (e : Error) {n : Exec S B} → (b ≡ false → Keeps I n) → Keeps I (raise_if b e >> n)
  unfolding ◌>>=◌
  Keeps-guard true e k = record { at = λ s h. h }
  Keeps-guard false e k = record { at = λ s h. (k refl).at s h }
