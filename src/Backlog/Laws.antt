-- ===== src/Backlog/Laws.antt =====
-- pilot_v1/backlog.py: laws of the dict of findings.
use aws_secops.Backlog.Entries.{insert, lookup, has_key}
use aws_secops.Backlog.Types.{Entries, Key, Tracked, same_key}
use aws_secops.Prelude.{
  List, [], arith, if◌then◌else◌, map, refl, some, true, ≟_refl, ≟→eq, ◌∷◌, ◌≡◌, Bool, Bool-cases,
  all, inl, inr, length, not, ◌&&◌, ◌||◌, ◌≤◌, subst, sym, ap, false, find, none, ◌++◌,
}

pub same_key→eq : (a b : Key) → same_key a b ≡ true → a ≡ b
unfolding same_key
same_key→eq a b h = ground (
  arith,
  ≟→eq a.source b.source,
  ≟→eq a.resource_type b.resource_type,
  ≟→eq a.resource_id b.resource_id,
  ≟→eq a.control b.control,
)

pub same_key_refl : (a : Key) → same_key a a ≡ true
unfolding same_key
same_key_refl a =
    ground (arith, ≟_refl a.source, ≟_refl a.resource_type, ≟_refl a.resource_id, ≟_refl a.control)

pub lookup-insert :
    (j k : Key) (v : Tracked) (d : Entries)
    → lookup j (insert k v d) ≡ (if same_key k j then some v else lookup j d)
lookup-insert j k v [] = refl
lookup-insert j k v ((i, t) ∷ d) = ground (
  arith,
  same_key→eq k j,
  same_key→eq i k,
  same_key→eq i j,
  same_key_refl j,
  same_key_refl k,
  lookup-insert j k v d,
)

abbrev pub keys : Entries → List Key
keys d = map (λ (e : Key × Tracked). e.0) d

abbrev pub distinct_keys : List Key → Bool
distinct_keys [] = true
distinct_keys (k ∷ ks) = not (has_key k ks) && distinct_keys ks

pub length-insert : (k : Key) (v : Tracked) (d : Entries) → length d ≤ length (insert k v d)
length-insert k v [] = omega arith
length-insert k v ((j, t) ∷ d) = ground (arith, length-insert k v d)

has_key-insert :
    (i k : Key) (v : Tracked) (d : Entries)
    → has_key i (keys (insert k v d)) ≡ (same_key k i || has_key i (keys d))
has_key-insert i k v [] = refl
has_key-insert i k v ((j, t) ∷ d) = ground (arith, same_key→eq j k, has_key-insert i k v d)

pub distinct-insert :
    (k : Key) (v : Tracked) (d : Entries)
    → distinct_keys (keys d) ≡ true
    → distinct_keys (keys (insert k v d)) ≡ true
distinct-insert k v [] h = refl
distinct-insert k v ((j, t) ∷ d) h =
    ground (arith, same_key→eq k j, same_key_refl j, has_key-insert j k v d, distinct-insert k v d)

pub all-insert :
    (p : Key × Tracked → Bool) (k : Key) (v : Tracked) (d : Entries)
    → p (k, v) ≡ true
    → all p d ≡ true
    → all p (insert k v d) ≡ true
all-insert p k v [] h g = ground arith
all-insert p k v ((j, t) ∷ d) h g = elim (Bool-cases (same_key j k)) [
  | inl same ↦
      let same_test : p (j, v) ≡ true =
        subst (λ (x : Key). p (x, v) ≡ true) (sym (same_key→eq j k same)) h in
      ground arith
  | inr differs ↦ ground (arith, all-insert p k v d)
]

pub keys-append : (d e : Entries) → keys (d ++ e) ≡ keys d ++ keys e
keys-append [] e = refl
keys-append (x ∷ d) e = ap (λ ks. x.0 ∷ ks) (keys-append d e)

has_key-last :
    (i k : Key) (ks : List Key) → has_key i (ks ++ (k ∷ [])) ≡ (has_key i ks || same_key k i)
has_key-last i k [] = ground arith
has_key-last i k (j ∷ ks) = ground (arith, has_key-last i k ks)

pub distinct-last :
    (k : Key) (ks : List Key)
    → has_key k ks ≡ false
    → distinct_keys ks ≡ true
    → distinct_keys (ks ++ (k ∷ [])) ≡ true
distinct-last k [] h g = refl
distinct-last k (j ∷ ks) h g =
    ground (arith, has_key-last j k ks, distinct-last k ks, same_key→eq k j, same_key_refl j)

pub all-last :
    (p : Key × Tracked → Bool) (d : Entries) (e : Key × Tracked)
    → all p d ≡ true
    → p e ≡ true
    → all p (d ++ (e ∷ [])) ≡ true
all-last p [] e h g = ground arith
all-last p (x ∷ d) e h g = ground (arith, all-last p d e)

lookup-absent : (k : Key) (d : Entries) → has_key k (keys d) ≡ false → lookup k d ≡ none
lookup-absent k [] h = refl
lookup-absent k ((j, t) ∷ d) h = ground (arith, lookup-absent k d)

lookup-has :
    (p : Key × Tracked → Bool) (k : Key) (t : Tracked) (d : Entries)
    → find p d ≡ some (k, t)
    → has_key k (keys d) ≡ true
lookup-has p k t [] e = absurd (cc e)
lookup-has p k t ((j, u) ∷ d) e = ground (arith, same_key_refl k, lookup-has p k t d)

-- Where the keys are distinct, an entry that a search finds is the one at its key.
pub lookup-find :
    (p : Key × Tracked → Bool) (k : Key) (t : Tracked) (d : Entries)
    → distinct_keys (keys d) ≡ true
    → find p d ≡ some (k, t)
    → lookup k d ≡ some t
lookup-find p k t [] h e = absurd (cc e)
lookup-find p k t ((j, u) ∷ d) h e =
    ground (arith, same_key_refl k, same_key→eq j k, lookup-find p k t d, lookup-has p k t d)
