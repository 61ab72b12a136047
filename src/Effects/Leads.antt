-- ===== src/Effects/Leads.antt =====
-- Methods that lead from one property of the state to another, whether they return or raise.
use aws_secops.Effects
use aws_secops.Effects.{Exec, Outcome, ok, raised, ◌>>=◌, continue}
use aws_secops.Effects.Keeps.{Keeps}

pub record Leads {S A : Type 0} (I K : S → Type 0) (m : Exec S A) : Type 0 where
  pub at : (s : S) → I s → K (m s).1

module _ {S A B : Type 0} {I K : S → Type 0} where
  -- A raise before the step that matters leaves the first property.
  pub Leads-bind :
      {m : Exec S A} {f : A → Exec S B}
      → Keeps I m
      → ((s : S) → I s → K s)
      → ((a : A) → Leads I K (f a))
      → Leads I K (m >>= f)
  unfolding ◌>>=◌
  Leads-bind {m} {f} km weaker lf = record { at = λ s h. go (m s).0 (m s).1 (km.at s h) }
    where
      go : (r : Outcome A) (t : S) → I t → K (Effects.continue r f t).1
      go (ok a) t h = (lf a).at t h
      go (raised e) t h = weaker t h

  -- After the step that matters, each step keeps the second.
  pub Leads-last :
      {m : Exec S A} {f : A → Exec S B}
      → Leads I K m
      → ((a : A) → Keeps K (f a))
      → Leads I K (m >>= f)
  unfolding ◌>>=◌
  Leads-last {m} {f} lm kf = record { at = λ s h. go (m s).0 (m s).1 (lm.at s h) }
    where
      go : (r : Outcome A) (t : S) → K t → K (Effects.continue r f t).1
      go (ok a) t h = (kf a).at t h
      go (raised e) t h = h
