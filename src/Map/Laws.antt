-- ===== src/Map/Laws.antt =====
-- The laws of the maps whose keys are distinct.
use authn_kit.Prelude.{
  suc, ◌≤◌, ◌≡◌, refl, Bool, true, Option, none, some, List, [], ◌∷◌, arith, if◌then◌else◌, length,
}
use authn_kit.Map.{Eq, lookup, insert, remove, retain, Distinct, lookup-insert}

-- a value that passes the test
abbrev pub only : {V : Type 0} → (V → Bool) → Option V → Option V
only p none = none
only p (some v) = if p v then some v else none

module _ {K V : Type 0} ⦃e : Eq K⦄ where
  pub insert-Distinct : (k : K) (v : V) (m : List (K × V)) → Distinct m → Distinct (insert k v m)
  unfolding insert lookup
  insert-Distinct k v [] d = (refl, tt)
  insert-Distinct k v ((j, w) ∷ m) (a, d) =
      ground (arith, insert-Distinct k v m d, lookup-insert k j v m, e.beq_iff j k, e.beq_iff k j)

  pub length-insert_new :
      (k : K) (v : V) (m : List (K × V))
      → lookup k m ≡ none
      → length (insert k v m) ≡ suc (length m)
  unfolding insert lookup
  length-insert_new k v [] h = refl
  length-insert_new k v ((j, w) ∷ m) h = ground (arith, length-insert_new k v m)

  pub length-insert_old :
      (k : K) (v w : V) (m : List (K × V)) → lookup k m ≡ some w → length (insert k v m) ≡ length m
  unfolding insert lookup
  length-insert_old k v w [] h = ground arith
  length-insert_old k v w ((j, x) ∷ m) h = ground (arith, length-insert_old k v w m)

  -- Looking a key up, its absence follows the key's equality.
  lookup_eq : (j k : K) (m : List (K × V)) → e.beq j k ≡ true → lookup j m ≡ lookup k m
  lookup_eq j k m h = rw ((e.beq_iff j k).0 h)

  pub lookup-remove :
      (k j : K) (m : List (K × V))
      → Distinct m
      → lookup j (remove k m) ≡ (if e.beq k j then none else lookup j m)
  unfolding lookup remove
  lookup-remove k j [] d = ground arith
  lookup-remove k j ((i, w) ∷ m) (a, d) =
      ground
        (arith, e.beq_iff k j, e.beq_iff i k, e.beq_iff i j, lookup-remove k j m d, lookup_eq i j m)

  pub remove-Distinct : (k : K) (m : List (K × V)) → Distinct m → Distinct (remove k m)
  unfolding remove
  remove-Distinct k [] d = tt
  remove-Distinct k ((j, w) ∷ m) (a, d) =
      ground (arith, remove-Distinct k m d, lookup-remove k j m d)

  pub length-remove :
      (k : K) (v : V) (m : List (K × V))
      → lookup k m ≡ some v
      → suc (length (remove k m)) ≡ length m
  unfolding lookup remove
  length-remove k v [] h = ground arith
  length-remove k v ((j, w) ∷ m) h = ground (arith, length-remove k v m)

  pub length-remove-le : (k : K) (m : List (K × V)) → length (remove k m) ≤ length m
  unfolding remove
  length-remove-le k [] = omega arith
  length-remove-le k ((j, w) ∷ m) = ground (arith, length-remove-le k m)

  pub lookup-retain :
      (p : V → Bool) (j : K) (m : List (K × V))
      → Distinct m
      → lookup j (retain p m) ≡ only p (lookup j m)
  unfolding lookup retain
  lookup-retain p j [] d = refl
  lookup-retain p j ((i, w) ∷ m) (a, d) =
      ground (arith, e.beq_iff i j, lookup-retain p j m d, lookup_eq i j m)

  pub retain-Distinct : (p : V → Bool) (m : List (K × V)) → Distinct m → Distinct (retain p m)
  unfolding retain
  retain-Distinct p [] d = tt
  retain-Distinct p ((j, w) ∷ m) (a, d) =
      ground (arith, retain-Distinct p m d, lookup-retain p j m d)

  pub length-retain : (p : V → Bool) (m : List (K × V)) → length (retain p m) ≤ length m
  unfolding retain
  length-retain p [] = omega arith
  length-retain p ((j, w) ∷ m) = ground (arith, length-retain p m)
