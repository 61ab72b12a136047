-- ===== src/Guarded/Reads.antt =====
-- pilot_v1/sg_compliance.py: what AWS has answered when `read` returns.
use aws_secops.Prelude.{
  Bool, Bool-cases, subst, List, Option, String, [], any, arith, false, find, inl, inr, keep,
  length, ltb, none, not, refl, some, sym, ap, true, ◌||◌, ◌∷◌, ◌∙◌, ◌≡◌,
}
use aws_secops.Effects.Outcomes.{ok-eq}
use aws_secops.Effects.{
  ◌>>=◌, Error, Outcome, Outcome-cases, lift, ok, pure, raise_if, bind-returns, guard-returns,
}
use aws_secops.Guarded.Types.{Cloud, Entry, Group, Listed, Manifest, Rule, State}
use aws_secops.Guarded.Provider.{
  call_api, entry_of, known_entry, guard, has_items, ingress_rules, is_entry, is_exact, is_owned,
  is_text, read, the_group, verify_identity,
}

-- The rules that a reading stands for: none, or one that is exact.
pub data IsReading (p : Rule → Bool) : Bool → List Rule → Type 0 where
  closed : IsReading p false []
  unrestricted : (r : Rule) → p r ≡ true → IsReading p true (r ∷ [])

reading :
    (p : Rule → Bool) (rs : List Rule)
    → (ltb 1 (length (keep p rs)) || any (λ r. not (p r)) rs) ≡ false
    → IsReading p (has_items (keep p rs)) rs
reading p [] h = closed
reading p (r ∷ []) h = elim (Bool-cases (p r)) [
  | inl exact ↦ rw exact (unrestricted r exact)
  | inr loose ↦ absurd (ground (arith, loose, h))
]
reading p (r ∷ q ∷ rs) h = elim (Bool-cases (p r)) [
  | inl exact ↦ elim (Bool-cases (p q)) [
    | inl too ↦ absurd (ground (arith, exact, too, h))
    | inr loose ↦ absurd (ground (arith, loose, h))
  ]
  | inr loose ↦ absurd (ground (arith, loose, h))
]

module _ {W : Type 0} (C : Cloud W) (m : Manifest) where
  -- What AWS has answered, at some time of the call, about the group of an entry.
  pub record IsSeen (id : String) : Type 0 where
    pub entry : Entry
    pub of_manifest : find (is_entry id) m.security_groups ≡ some entry
    pub identity :
        (w : W) × (a : Option String) × ((C.identity w).0 ≡ ok a) × (is_text m.account a ≡ true)
    pub owned :
        (w : W) × (g : Group) × ((C.groups id w).0 ≡ ok (g ∷ []))
        × (is_text m.vpc_id g.vpc_id ≡ true)
        × (is_text entry.name g.group_name ≡ true)
        × (is_owned m g.tags ≡ true)
    pub detached :
        (w : W) × (l : Listed String) × ((C.interfaces id w).0 ≡ ok l)
        × (l.items ≡ [])
        × (l.has_more ≡ false)

  -- The group was seen, and its ingress rules are what the reading says.
  pub record IsGuarded (id : String) (ssh : Bool) : Type 0 where
    pub seen : IsSeen id
    pub rules :
        (w : W) × (l : Listed Rule) × ((C.rules id w).0 ≡ ok l)
        × (l.has_more ≡ false)
        × IsReading is_exact ssh (keep (λ (r : Rule). not r.is_egress) l.items)

  call_api-returns :
      {A : Type 0} (f : W → Outcome A × W) (s t : State W) (a : A)
      → call_api C m f s ≡ (ok a, t)
      → (f s.world).0 ≡ ok a
  unfolding call_api
  call_api-returns f s t a e = elim (Outcome-cases (f s.world).0) [
    | inl (b, is) ↦ cc (is, e)
    | inr (x, is) ↦ absurd (cc (is, e))
  ]

  lift-returns :
      {A : Type 0} (r : Outcome A) (s t : State W) (a : A) → lift r s ≡ (ok a, t) → r ≡ ok a
  unfolding ◌>>=◌
  lift-returns r s t a e = ap (λ p. p.0) e

  guard_if-returns :
      (c : Bool) (x : Error) (s t : State W) (u : Unit {0}) → raise_if c x s ≡ (ok u, t) → c ≡ false
  unfolding ◌>>=◌
  guard_if-returns true x s t u e = absurd (cc e)
  guard_if-returns false x s t u e = refl

  pure-returns : {A : Type 0} (a b : A) (s t : State W) → pure a s ≡ (ok b, t) → a ≡ b
  unfolding ◌>>=◌
  pure-returns a b s t e = cc e

  the_group-one : (gs : List Group) (g : Group) → the_group gs ≡ ok g → gs ≡ g ∷ []
  the_group-one [] g e = absurd (cc e)
  the_group-one (x ∷ []) g e = ap (λ y. y ∷ []) (ok-eq x g e)
  the_group-one (x ∷ y ∷ gs) g e = absurd (cc e)

  known_entry-some : (o : Option Entry) (e : Entry) → known_entry o ≡ ok e → o ≡ some e
  known_entry-some none e h = absurd (cc h)
  known_entry-some (some x) e h = ap some (ok-eq x e h)

  no_items :
      {A : Type 0} (xs : List A) (more : Bool)
      → (has_items xs || more) ≡ false
      → (xs ≡ []) × (more ≡ false)
  no_items [] more h = (refl, h)
  no_items (x ∷ xs) more h = absurd (cc h)

  verify_identity-returns :
      (s t : State W) (u : Unit {0})
      → verify_identity C m s ≡ (ok u, t)
      → (w : W) × (a : Option String) × ((C.identity w).0 ≡ ok a) × (is_text m.account a ≡ true)
  unfolding verify_identity
  verify_identity-returns s t u e =
      let (a, s1, asked, e1) = bind-returns _ _ s u t e in
      let right = guard_if-returns _ _ s1 t u e1 in
      (s.world, a, call_api-returns C.identity s s1 a asked, ground (arith, right))

  ingress_rules-returns :
      (id : String) (s t : State W) (rs : List Rule)
      → ingress_rules C m id s ≡ (ok rs, t)
      → (w : W) × (l : Listed Rule) × ((C.rules id w).0 ≡ ok l)
        × (l.has_more ≡ false)
        × (keep (λ (r : Rule). not r.is_egress) l.items ≡ rs)
  unfolding ingress_rules
  ingress_rules-returns id s t rs e =
      let (l, s1, asked, e1) = bind-returns _ _ s rs t e in
      let (whole, e2) = guard-returns _ _ _ s1 rs t e1 in
      (s.world, l, call_api-returns (C.rules id) s s1 l asked, whole, pure-returns _ rs s1 t e2)

  guard-IsSeen :
      (id : String) (s t : State W) (u : Unit {0}) → guard C m id s ≡ (ok u, t) → IsSeen id
  unfolding guard
  guard-IsSeen id s t u e =
      let (entry, s1, listed, e1) = bind-returns _ _ s u t e in
      let (v, s2, verified, e2) = bind-returns _ _ s1 u t e1 in
      let (groups, s3, answered, e3) = bind-returns _ _ s2 u t e2 in
      let (group, s4, single, e4) = bind-returns _ _ s3 u t e3 in
      let (named_so, e5) = guard-returns _ _ _ s4 u t e4 in
      let (owned_so, e6) = guard-returns _ _ _ s4 u t e5 in
      let (attached, s5, asked, e7) = bind-returns _ _ s4 u t e6 in
      let free = guard_if-returns _ _ s5 t u e7 in
      let one = the_group-one groups group (lift-returns (the_group groups) s3 s4 group single) in
      let (none_there, no_more) = no_items attached.items attached.has_more free in
      record {
        entry = entry;
        of_manifest =
            known_entry-some (find (is_entry id) m.security_groups) entry
              (lift-returns (entry_of m id) s s1 entry listed);
        identity = verify_identity-returns s1 s2 v verified;
        owned = (
          s2.world,
          group,
          call_api-returns (C.groups id) s2 s3 groups answered ∙ ap ok one,
          ground (arith, named_so),
          ground (arith, named_so),
          ground (arith, owned_so),
        );
        detached = (
          s4.world,
          attached,
          call_api-returns (C.interfaces id) s4 s5 attached asked,
          none_there,
          no_more,
        );
      }

  -- When `read` returns: the identity was that of the manifest, the resource is an entry of it, AWS
  -- showed one group with the entry's network and name and with the owner's tags, no network
  -- interface has it, and its ingress rules, all on one page, are none if SSH is read as restricted,
  -- and else the one rule that opens port 22 to all IPv4 addresses.
  pub read-IsGuarded :
      (id : String) (ssh : Bool) (s t : State W) → read C m id s ≡ (ok ssh, t) → IsGuarded id ssh
  unfolding read
  read-IsGuarded id ssh s t e =
      let (u, s1, guarded, e1) = bind-returns _ _ s ssh t e in
      let (rs, s2, ruled, e2) = bind-returns _ _ s1 ssh t e1 in
      let (alone, e3) =
        guard-returns (ltb 1 (length (keep is_exact rs)) || any (λ r. not (is_exact r)) rs) _ _ s2
          ssh t e2 in
      let (w, l, answered, whole, same) = ingress_rules-returns id s1 s2 rs ruled in
      record {
        seen = guard-IsSeen id s s1 u guarded;
        rules = (
          w,
          l,
          answered,
          whole,
          subst (IsReading is_exact ssh) (sym same) (
              subst (λ b. IsReading is_exact b rs) (pure-returns _ ssh s2 t e3)
                (reading is_exact rs alone)),
        );
      }
