-- ===== src/Guarded/Calls.antt =====
-- pilot_v1/sg_compliance.py: when `apply` calls the tool of the Gateway.
use aws_secops.Prelude.{
  Bool, Bool-cases, subst, List, Option, String, [], any, arith, false, if◌then◌else◌, inl, inr,
  none, not, refl, some, ap, true, ◌++◌, ◌≟◌, ◌||◌, ◌∷◌, ◌∙◌, ◌≡◌,
}
use aws_secops.Effects.Keeps.{Keeps, Keeps-bind, Keeps-lift, Keeps-then, Keeps-raise_if, Keeps-pure}
use aws_secops.Effects.{
  ◌>>=◌, ◌>>◌, Error, Outcome, Outcome-cases, gets, lift, modify, ok, raise_if, raised,
}
use aws_secops.Guarded.Types.{Answer, Call, Cloud, Deployment, Manifest, State}
use aws_secops.Guarded.Provider.{
  apply, approved_batch, call_of, conclude, add_denial, ask_gateway, invoke, is_denial, is_entry,
  target_result, M,
}

module _ {W : Type 0} (C : Cloud W) (m : Manifest) where
  -- Rules for the state after a method, whether it returns or raises.

  gets-state :
      {A B : Type 0} (Q : State W → Type 0) (g : State W → A) (f : A → M C m B) (s : State W)
      → Q (f (g s) s).1
      → Q ((gets g >>= f) s).1
  unfolding ◌>>=◌
  gets-state Q g f s h = h

  lift-state :
      {A B : Type 0} (Q : State W → Type 0) (r : Outcome A) (f : A → M C m B) (s : State W)
      → ((a : A) → r ≡ ok a → Q (f a s).1)
      → Q s
      → Q ((lift r >>= f) s).1
  unfolding ◌>>=◌
  lift-state Q (ok a) f s h k = h a refl
  lift-state Q (raised e) f s h k = k

  guard-state :
      {B : Type 0} (Q : State W → Type 0) (c : Bool) (e : Error) (n : M C m B) (s : State W)
      → (c ≡ false → Q (n s).1)
      → Q s
      → Q ((raise_if c e >> n) s).1
  unfolding ◌>>=◌
  guard-state Q true e n s h k = k
  guard-state Q false e n s h k = h refl

  after-Keeps :
      {A B : Type 0} (I : State W → Type 0) (n : M C m A) (f : A → M C m B) (s : State W)
      → I (n s).1
      → ((a : A) → Keeps I (f a))
      → I ((n >>= f) s).1
  unfolding ◌>>=◌
  after-Keeps I n f s h k = elim (Outcome-cases (n s).0) [
    | inl (a, is) ↦ rw is ((k a).at (n s).1 h)
    | inr (x, is) ↦ rw is h
  ]

  module _ (d : Deployment) where
    -- No call, or the one that has been approved.
    pub data CallsOnce (id : String) (before : Bool) (s t : State W) : Type 0 where
      no_call : t.calls ≡ s.calls → CallsOnce id before s t
      one_call :
          (b : String)
          → before ≡ true
          → any (is_entry id) m.security_groups ≡ true
          → s.batch_id ≡ some b
          → t.calls ≡ s.calls ++ (call_of C m d id "dev" b ∷ [])
          → CallsOnce id before s t

    logged-Keeps :
        (calls : List Call) (f : State W → State W)
        → ((t : State W) → (f t).calls ≡ t.calls)
        → Keeps (λ (t : State W). t.calls ≡ calls) (modify f)
    unfolding ◌>>=◌
    logged-Keeps calls f k = record { at = λ t h. k t ∙ h }

    denied-same :
        (denied : Bool) (t : State W)
        → (if denied then record t { metrics = add_denial t.metrics } else t).calls ≡ t.calls
    denied-same true t = refl
    denied-same false t = refl

    conclude-Keeps :
        (calls : List Call) (a : Answer)
        → Keeps (λ (t : State W). t.calls ≡ calls) (conclude C m d a)
    unfolding conclude
    conclude-Keeps calls a =
        Keeps-then
          (Keeps-then (logged-Keeps calls _ (denied-same (is_denial a.error))) (Keeps-raise_if _ _))
          (Keeps-then (Keeps-raise_if _ _) (
            Keeps-bind (Keeps-lift a.value) λ value.
              Keeps-bind (Keeps-lift (target_result d value))
                λ audit. Keeps-then (logged-Keeps calls _ (λ t. refl)) (Keeps-pure audit)))

    approved_batch-some :
        (inside : Bool) (o : Option String) (b : String)
        → approved_batch inside o ≡ ok b
        → (o ≡ some b) × (inside ≡ true)
    approved_batch-some inside none b e = absurd (cc e)
    approved_batch-some inside (some x) b e = elim (Bool-cases (x ≟ "" || not inside)) [
      | inl wrong ↦ absurd (ground arith)
      | inr right ↦ (ap some (ground arith), ground arith)
    ]

    invoke-CallsOnce : (id : String) (s : State W) → CallsOnce id true s (invoke C m d id "dev" s).1
    unfolding invoke
    invoke-CallsOnce id s =
        gets-state (CallsOnce id true s) (λ t. t.batch_id) _ s
          (lift-state (CallsOnce id true s)
            (approved_batch (any (is_entry id) m.security_groups) s.batch_id) _ s
            (λ b e.
              let (there, inside) =
                approved_batch-some (any (is_entry id) m.security_groups) s.batch_id b e in
              let c = call_of C m d id "dev" b in
              one_call b refl inside there (
                after-Keeps (λ t. t.calls ≡ s.calls ++ (c ∷ [])) (ask_gateway C m d c)
                  (conclude C m d) s (unfold ask_gateway in refl)
                  (conclude-Keeps (s.calls ++ (c ∷ [])))))
            (no_call refl))

    -- Whatever is answered, `apply` calls the tool of the Gateway at most once: only if it is told
    -- that SSH is unrestricted, for a group of the manifest, and for the batch that is authorized.
    pub apply-CallsOnce :
        (id : String) (before : Bool) (s : State W)
        → CallsOnce id before s (apply C m d id before s).1
    unfolding apply
    apply-CallsOnce id before s =
        guard-state (CallsOnce id before s) (not before) _ (invoke C m d id "dev") s
          (λ h.
            let is : true ≡ before = ground (arith, h) in
            subst (λ b. CallsOnce id b s (invoke C m d id "dev" s).1) is (invoke-CallsOnce id s))
          (no_call refl)
