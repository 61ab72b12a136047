-- ===== src/Effects.antt =====
-- Methods that change an object and may raise. What was written before a raise stays written, so
-- the state comes back beside the error too.
pub mod Keeps
pub mod Leads
pub mod Outcomes
use aws_secops.Prelude.{◌≡◌, refl, ◌⊎◌, inl, inr, Bool, String, if◌then◌else◌, false, true}

-- The exceptions that the modelled code raises itself; the string is the message.
pub data Error : Type 0 where
  value_error : String → Error
  runtime_error : String → Error
  permission_error : String → Error
  receipt_error : String → Error
  policy_error : String → Error
  os_error : Error
  -- of sqlite3
  operational_error : Error
  integrity_error : Error

pub data Outcome (A : Type 0) : Type 0 where
  ok : A → Outcome A
  raised : Error → Outcome A

abbrev pub Exec : Type 0 → Type 0 → Type 0
Exec S A = S → Outcome A × S

abbrev pub continue : {S A B : Type 0} → Outcome A → (A → Exec S B) → Exec S B
continue (ok a) f s = f a s
continue (raised e) f s = (raised e, s)

-- The building blocks are shut; an `unfolding` line that names `◌>>=◌` opens them all.
module _ {S : Type 0} where
  pub pure : {A : Type 0} → A → Exec S A
  pure a s = (ok a, s)

  pub raise : {A : Type 0} → Error → Exec S A
  raise e s = (raised e, s)

  pub lift : {A : Type 0} → Outcome A → Exec S A
  lift r s = (r, s)

  pub gets : {A : Type 0} → (S → A) → Exec S A
  gets f s = (ok (f s), s)

  pub modify : (S → S) → Exec S (Unit {0})
  modify f s = (ok tt, f s)

  -- `if b: raise e`
  pub raise_if : Bool → Error → Exec S (Unit {0})
  raise_if b e s = (if b then raised e else ok tt, s)

  -- the same with a test that reads the object
  pub raise_when : (S → Bool) → Error → Exec S (Unit {0})
  raise_when p e s = (if p s then raised e else ok tt, s)

infixl 5 ◌>>=◌ ◌>>◌
unfoldable pub ◌>>=◌ : {S A B : Type 0} → Exec S A → (A → Exec S B) → Exec S B
unfolding pure raise lift gets modify raise_if raise_when
◌>>=◌ m f s = let (r, s') = m s in continue r f s'

abbrev pub ◌>>◌ : {S A B : Type 0} → Exec S A → Exec S B → Exec S B
m >> n = m >>= λ _. n

pub Outcome-cases :
    {A : Type 0} (r : Outcome A) → ((a : A) × (r ≡ ok a)) ⊎ ((e : Error) × (r ≡ raised e))
Outcome-cases (ok a) = inl (a, refl)
Outcome-cases (raised e) = inr (e, refl)

-- Inversion of a method that returned: each of its steps returned.
pub bind-returns :
    {S A B : Type 0} (m : Exec S A) (f : A → Exec S B) (s : S) (b : B) (t : S)
    → (m >>= f) s ≡ (ok b, t)
    → (a : A) × (u : S) × (m s ≡ (ok a, u)) × (f a u ≡ (ok b, t))
unfolding ◌>>=◌
bind-returns {S} {A} {B} m f s b t e = go (m s) refl e
  where
    go :
        (x : Outcome A × S)
        → m s ≡ x
        → continue x.0 f x.1 ≡ (ok b, t)
        → (a : A) × (u : S) × (m s ≡ (ok a, u)) × (f a u ≡ (ok b, t))
    go (ok a, u) k h = (a, u, k, h)
    go (raised x, u) k h = cc

pub guard-returns :
    {S B : Type 0} (c : Bool) (x : Error) (n : Exec S B) (s : S) (b : B) (t : S)
    → (raise_if c x >> n) s ≡ (ok b, t)
    → (c ≡ false) × (n s ≡ (ok b, t))
unfolding ◌>>=◌
guard-returns true x n s b t e = cc
guard-returns false x n s b t e = (refl, e)
