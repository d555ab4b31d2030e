-- ===== src/Prelude/Maps.antt =====
-- Go's maps as association lists, one entry for each key that was assigned; and sets of keys,
-- which the source writes as `map[K]bool`. The order of entries stands for the unspecified order in
-- which Go ranges over a map.
use skyhookml.Prelude.Lists.{filter, length}
use skyhookml.Prelude.Tests.{if◌then◌else◌, Bool-cases}
use skyhookml.Prelude.Keys.{Comparable, ◌==◌}
use mathlib.Core.Path.{◌≡◌, refl, ap}
use mathlib.Core.Logic.{inl, inr}
use mathlib.Core.Bool.{Bool, true, false, not, ◌&&◌, ◌||◌}
use mathlib.Core.Option.{Option, none, some}
use mathlib.Core.List.{List, [], ◌∷◌, ◌++◌}
use native.Mathlib.Omega.{arith}
use Prim.Native.Nat.{◌+◌, ◌≤◌}

abbrev pub Dict {ℓ κ} : Type ℓ → Type κ → Type (ℓ ⊔ κ)
Dict K V = List (K × V)

module _ {ℓ κ} {K : Type ℓ} {V : Type κ} ⦃e : Comparable K⦄ where
  abbrev pub lookup : K → Dict K V → Option V
  lookup k [] = none
  lookup k ((j, v) ∷ m) = if j == k then some v else lookup k m

  -- Reading a missing key gives the zero value of the type.
  abbrev pub lookup_or : V → K → Dict K V → V
  lookup_or d k [] = d
  lookup_or d k ((j, v) ∷ m) = if j == k then v else lookup_or d k m

  abbrev pub insert : K → V → Dict K V → Dict K V
  insert k v [] = (k, v) ∷ []
  insert k v ((j, w) ∷ m) = if j == k then (j, v) ∷ m else (j, w) ∷ insert k v m

  abbrev pub remove : K → Dict K V → Dict K V
  remove k [] = []
  remove k ((j, w) ∷ m) = if j == k then remove k m else (j, w) ∷ remove k m

  abbrev pub keys : Dict K V → List K
  keys [] = []
  keys ((j, v) ∷ m) = j ∷ keys m

  pub lookup-insert :
      (k j : K) (v : V) (m : Dict K V)
      → lookup j (insert k v m) ≡ (if k == j then some v else lookup j m)
  lookup-insert k j v [] = refl
  lookup-insert k j v ((i, w) ∷ m) =
      ground (arith, e.test_iff k j, e.test_iff i k, e.test_iff i j, lookup-insert k j v m)

  pub lookup_or-insert :
      (d : V) (k j : K) (v : V) (m : Dict K V)
      → lookup_or d j (insert k v m) ≡ (if k == j then v else lookup_or d j m)
  lookup_or-insert d k j v [] = refl
  lookup_or-insert d k j v ((i, w) ∷ m) =
      ground (arith, e.test_iff k j, e.test_iff i k, e.test_iff i j, lookup_or-insert d k j v m)

  pub lookup-remove :
      (k j : K) (m : Dict K V) → lookup j (remove k m) ≡ (if k == j then none else lookup j m)
  lookup-remove k j [] = ground arith
  lookup-remove k j ((i, w) ∷ m) =
      ground (arith, e.test_iff k j, e.test_iff i k, e.test_iff i j, lookup-remove k j m)

module _ {ℓ} {K : Type ℓ} ⦃e : Comparable K⦄ where
  abbrev pub contains : List K → K → Bool
  contains [] k = false
  contains (j ∷ ks) k = j == k || contains ks k

  -- No element stands twice.
  abbrev pub Distinct : List K → Type 0
  Distinct [] = Unit
  Distinct (k ∷ ks) = (contains ks k ≡ false) × Distinct ks

  pub contains-append :
      (xs ys : List K) (k : K) → contains (xs ++ ys) k ≡ (contains xs k || contains ys k)
  contains-append [] ys k = refl
  contains-append (x ∷ xs) ys k = ground (arith, contains-append xs ys k)

  pub contains-filter :
      (p : K → Bool) (ks : List K) (k : K) → contains (filter p ks) k ≡ (contains ks k && p k)
  contains-filter p [] k = refl
  contains-filter p (j ∷ ks) k = elim (Bool-cases (j == k)) [
    | inl same ↦
        let q : p j ≡ p k = ap p ((e.test_iff j k).0 same) in ground (arith, contains-filter p ks k)
    | inr other ↦ ground (arith, contains-filter p ks k)
  ]

  pub filter-Distinct : (p : K → Bool) (ks : List K) → Distinct ks → Distinct (filter p ks)
  filter-Distinct p [] d = tt
  filter-Distinct p (j ∷ ks) d = ground (arith, filter-Distinct p ks d.1, contains-filter p ks j)

  pub Distinct-append :
      (xs ys : List K)
      → Distinct xs
      → Distinct ys
      → ((k : K) → contains xs k ≡ true → contains ys k ≡ false)
      → Distinct (xs ++ ys)
  Distinct-append [] ys dx dy apart = dy
  Distinct-append (x ∷ xs) ys dx dy apart = (
    ground (arith, contains-append xs ys x, apart x, e.test_iff x x),
    Distinct-append xs ys dx.1 dy (λ k h. ground (arith, apart k)),
  )

module _ {ℓ κ} {K : Type ℓ} {V : Type κ} ⦃e : Comparable K⦄ where
  pub contains-keys-insert :
      (k j : K) (v : V) (m : Dict K V)
      → contains (keys (insert k v m)) j ≡ (k == j || contains (keys m) j)
  contains-keys-insert k j v [] = refl
  contains-keys-insert k j v ((i, w) ∷ m) =
      ground (arith, e.test_iff k j, e.test_iff i k, e.test_iff i j, contains-keys-insert k j v m)

  pub keys-insert-Distinct :
      (k : K) (v : V) (m : Dict K V) → Distinct (keys m) → Distinct (keys (insert k v m))
  keys-insert-Distinct k v [] d = (refl, tt)
  keys-insert-Distinct k v ((i, w) ∷ m) d = ground (
    arith,
    e.test_iff i k,
    e.test_iff k i,
    keys-insert-Distinct k v m d.1,
    contains-keys-insert k i v m,
  )

  -- A map filled key by key: `for k in ks { m[k] = f(k) }`.
  abbrev pub tabulate : (K → V) → List K → Dict K V
  tabulate f [] = []
  tabulate f (k ∷ ks) = (k, f k) ∷ tabulate f ks

  pub lookup-tabulate :
      (f : K → V) (ks : List K) (k : K)
      → lookup k (tabulate f ks) ≡ (if contains ks k then some (f k) else none)
  lookup-tabulate f [] k = refl
  lookup-tabulate f (j ∷ ks) k = elim (Bool-cases (j == k)) [
    | inl same ↦ rw (same, (e.test_iff j k).0 same)
    | inr other ↦ rw other (lookup-tabulate f ks k)
  ]

  pub keys-tabulate : (f : K → V) (ks : List K) → keys (tabulate f ks) ≡ ks
  keys-tabulate f [] = refl
  keys-tabulate f (j ∷ ks) = ap (◌∷◌ j) (keys-tabulate f ks)

  pub keys_append : (m n : Dict K V) → keys (m ++ n) ≡ keys m ++ keys n
  keys_append [] n = refl
  keys_append ((j, v) ∷ m) n = ap (◌∷◌ j) (keys_append m n)

  pub keys-lookup :
      (k : K) (m : Dict K V) → contains (keys m) k ≡ true → (v : V) × (lookup k m ≡ some v)
  keys-lookup k [] c = cc
  keys-lookup k ((j, v) ∷ m) c = elim (Bool-cases (j == k)) [
    | inl same ↦ (v, rw same refl)
    | inr other ↦ let (w, e) = keys-lookup k m (rw other at c) in (w, rw other e)
  ]

  pub lookup-keys :
      (k : K) (m : Dict K V) (v : V) → lookup k m ≡ some v → contains (keys m) k ≡ true
  lookup-keys k [] v e = cc
  lookup-keys k ((j, w) ∷ m) v e = ground (arith, lookup-keys k m v)

  pub contains-keys-remove :
      (k j : K) (m : Dict K V)
      → contains (keys (remove k m)) j ≡ (not (k == j) && contains (keys m) j)
  contains-keys-remove k j [] = ground arith
  contains-keys-remove k j ((i, w) ∷ m) =
      ground (arith, e.test_iff k j, e.test_iff i k, e.test_iff i j, contains-keys-remove k j m)

  pub keys-remove-Distinct :
      (k : K) (m : Dict K V) → Distinct (keys m) → Distinct (keys (remove k m))
  keys-remove-Distinct k [] d = tt
  keys-remove-Distinct k ((i, w) ∷ m) d =
      ground (arith, keys-remove-Distinct k m d.1, contains-keys-remove k i m)

  pub length-remove_le : (k : K) (m : Dict K V) → length (remove k m) ≤ length m
  length-remove_le k [] = omega arith
  length-remove_le k ((i, w) ∷ m) = ground (arith, length-remove_le k m)

  pub length-remove :
      (k : K) (m : Dict K V) → contains (keys m) k ≡ true → length (remove k m) + 1 ≤ length m
  length-remove k [] c = cc
  length-remove k ((i, w) ∷ m) c = ground (arith, length-remove_le k m, length-remove k m)
