-- ===== src/Effects/Outcomes.antt =====
-- Functions that return or raise and change nothing: `do` blocks of outcomes.
use aws_secops.Effects.{Error, Outcome, ok, raised}
use aws_secops.Prelude.{Bool, true, false, ◌≡◌, refl, List, [], ◌∷◌, All, subst, ap, ◌∙◌, ◌++◌}

infixl 5 ◌>>=◌ ◌>>◌
abbrev pub ◌>>=◌ : {A B : Type 0} → Outcome A → (A → Outcome B) → Outcome B
ok a >>= f = f a
raised e >>= f = raised e

abbrev pub ◌>>◌ : {A B : Type 0} → Outcome A → Outcome B → Outcome B
m >> n = m >>= λ _. n

-- `if b: raise e`
abbrev pub refuse : Bool → Error → Outcome (Unit {0})
refuse true e = raised e
refuse false e = ok tt

-- `[f(x) for x in xs]`, where `f` may raise
abbrev pub traverse : {A B : Type 0} → (A → Outcome B) → List A → Outcome (List B)
traverse f [] = ok []
traverse f (x ∷ xs) = f x >>= λ y. (traverse f xs >>= λ ys. ok (y ∷ ys))

pub >>=-eq-ok :
    {A B : Type 0} (m : Outcome A) (f : A → Outcome B) (b : B)
    → (m >>= f) ≡ ok b
    → (a : A) × (m ≡ ok a) × (f a ≡ ok b)
>>=-eq-ok (ok a) f b h = (a, refl, h)
>>=-eq-ok (raised e) f b h = absurd (cc h)

pub refuse-eq-ok :
    {B : Type 0} (c : Bool) (e : Error) (n : Outcome B) (b : B)
    → (refuse c e >> n) ≡ ok b
    → (c ≡ false) × (n ≡ ok b)
refuse-eq-ok true e n b h = absurd (cc h)
refuse-eq-ok false e n b h = (refl, h)

pub traverse-cons :
    {A B : Type 0} (f : A → Outcome B) (x : A) (xs : List A) (ys : List B)
    → traverse f (x ∷ xs) ≡ ok ys
    → (y : B) × (zs : List B) × (f x ≡ ok y) × (traverse f xs ≡ ok zs) × (y ∷ zs ≡ ys)
traverse-cons f x xs ys e =
    let (y, one, e1) = >>=-eq-ok (f x) (λ y. (traverse f xs >>= λ zs. ok (y ∷ zs))) ys e in
    let (zs, rest, e2) = >>=-eq-ok (traverse f xs) (λ zs. ok (y ∷ zs)) ys e1 in
    (y, zs, one, rest, cc e2)

pub ok-eq : {A : Type 0} (a b : A) → ok a ≡ ok b → a ≡ b
ok-eq a b e = cc e

-- What holds of each result of `f` holds of all results of a comprehension.
pub traverse-All :
    {A B : Type 0} (Q : B → Type 0) (f : A → Outcome B)
    → ((x : A) (y : B) → f x ≡ ok y → Q y)
    → (xs : List A) (ys : List B) → traverse f xs ≡ ok ys
    → All Q ys
traverse-All Q f each [] ys e = subst (All Q) (ok-eq [] ys e) tt
traverse-All Q f each (x ∷ xs) ys e =
    let (y, zs, one, rest, same) = traverse-cons f x xs ys e in
    subst (All Q) same (each x y one, traverse-All Q f each xs zs rest)

-- A comprehension over two lists, one after another.
pub traverse-append :
    {A B : Type 0} (f : A → Outcome B) (xs more : List A) (ys zs : List B)
    → traverse f xs ≡ ok ys
    → traverse f more ≡ ok zs
    → traverse f (xs ++ more) ≡ ok (ys ++ zs)
traverse-append f [] more ys zs e h = h ∙ ap (λ l. ok (l ++ zs)) (ok-eq [] ys e)
traverse-append f (x ∷ xs) more ys zs e h =
    let (y, us, one, rest, same) = traverse-cons f x xs ys e in
    rw (one, traverse-append f xs more us zs rest h) (ap (λ l. ok (l ++ zs)) same)
