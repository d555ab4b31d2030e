-- ===== src/Graph/Hash/Sorted.antt =====
-- skyhook/graph.go: the sorting of the parents' keys, by which a hash does not depend on the order in
-- which Go ranges over the parents of a node.
use skyhookml.Prelude.{
  contains, Distinct, ◌==◌, Text, nat_eq, text_eq, pair_eq, ◌≡◌, refl, sym, ap, subst, ◌∙◌, inl,
  inr, true, false, ◌||◌, List, [], ◌∷◌, arith, Bool-cases,
}
use skyhookml.Graph.Hash.{text_le, insert_sorted, sort_texts}

text_le_total : (s t : Text) → text_le s t ≡ false → text_le t s ≡ true
unfolding text_le
text_le_total [] t h = cc
text_le_total (a ∷ s) [] h = refl
text_le_total (a ∷ s) (b ∷ t) h = ground (arith, text_le_total s t, h)

text_le_antisym : (s t : Text) → text_le s t ≡ true → text_le t s ≡ true → s ≡ t
unfolding text_le
text_le_antisym [] [] h k = refl
text_le_antisym [] (b ∷ t) h k = cc
text_le_antisym (a ∷ s) [] h k = cc
text_le_antisym (a ∷ s) (b ∷ t) h k =
    let a≡ : a ≡ b = ground (arith, h, k) in
    let s≡ : s ≡ t = text_le_antisym s t (ground (arith, h, a≡)) (ground (arith, k, a≡)) in
    ap (λ c. c ∷ s) a≡ ∙ ap (◌∷◌ b) s≡

text_le_trans : (r s t : Text) → text_le r s ≡ true → text_le s t ≡ true → text_le r t ≡ true
unfolding text_le
text_le_trans [] s t h k = refl
text_le_trans (a ∷ r) [] t h k = cc
text_le_trans (a ∷ r) (b ∷ s) [] h k = cc
text_le_trans (a ∷ r) (b ∷ s) (c ∷ t) h k = ground (arith, text_le_trans r s t, h, k)

-- Every key of a list comes after a key.
abbrev Below : Text → List Text → Type 0
Below k [] = Unit
Below k (j ∷ ks) = (text_le k j ≡ true) × Below k ks

abbrev IsSorted : List Text → Type 0
IsSorted [] = Unit
IsSorted (k ∷ ks) = Below k ks × IsSorted ks

Below-trans : (j k : Text) (ks : List Text) → text_le j k ≡ true → Below k ks → Below j ks
Below-trans j k [] h b = tt
Below-trans j k (i ∷ ks) h b = (text_le_trans j k i h b.0, Below-trans j k ks h b.1)

Below-contains :
    (k : Text) (ks : List Text) (j : Text) → Below k ks → contains ks j ≡ true → text_le k j ≡ true
Below-contains k [] j b c = cc
Below-contains k (i ∷ ks) j b c = elim (Bool-cases (i == j)) [
  | inl same ↦ subst (λ x. text_le k x ≡ true) ((text_eq.test_iff i j).0 same) b.0
  | inr other ↦ Below-contains k ks j b.1 (ground (arith, c, other))
]

Below-insert_sorted :
    (j k : Text) (ks : List Text) → text_le j k ≡ true → Below j ks → Below j (insert_sorted k ks)
unfolding insert_sorted
Below-insert_sorted j k [] h b = (h, tt)
Below-insert_sorted j k (i ∷ ks) h b = elim (Bool-cases (text_le k i)) [
  | inl before ↦ rw before (h, b)
  | inr after ↦ rw after (b.0, Below-insert_sorted j k ks h b.1)
]

insert_sorted-IsSorted : (k : Text) (ks : List Text) → IsSorted ks → IsSorted (insert_sorted k ks)
unfolding insert_sorted
insert_sorted-IsSorted k [] s = (tt, tt)
insert_sorted-IsSorted k (i ∷ ks) s = elim (Bool-cases (text_le k i)) [
  | inl before ↦ rw before ((before, Below-trans k i ks before s.0), s)
  | inr after ↦
      rw after
        (Below-insert_sorted i k ks (text_le_total k i after) s.0, insert_sorted-IsSorted k ks s.1)
]

contains-insert_sorted :
    (k : Text) (ks : List Text) (j : Text)
    → contains (insert_sorted k ks) j ≡ (k == j || contains ks j)
unfolding insert_sorted
contains-insert_sorted k [] j = refl
contains-insert_sorted k (i ∷ ks) j = ground (arith, contains-insert_sorted k ks j)

insert_sorted-Distinct :
    (k : Text) (ks : List Text)
    → contains ks k ≡ false
    → Distinct ks
    → Distinct (insert_sorted k ks)
unfolding insert_sorted
insert_sorted-Distinct k [] c d = (refl, tt)
insert_sorted-Distinct k (i ∷ ks) c d = elim (Bool-cases (text_le k i)) [
  | inl before ↦ rw before (c, d)
  | inr after ↦ rw after (
    ground
        (arith, contains-insert_sorted k ks i, c, d.0, text_eq.test_iff k i, text_eq.test_iff i k),
    insert_sorted-Distinct k ks (ground (arith, c)) d.1,
  )
]

contains-sort_texts : (ks : List Text) (j : Text) → contains (sort_texts ks) j ≡ contains ks j
unfolding sort_texts
contains-sort_texts [] j = refl
contains-sort_texts (k ∷ ks) j =
    ground (arith, contains-insert_sorted k (sort_texts ks) j, contains-sort_texts ks j)

sort_texts-IsSorted : (ks : List Text) → IsSorted (sort_texts ks)
unfolding sort_texts
sort_texts-IsSorted [] = tt
sort_texts-IsSorted (k ∷ ks) = insert_sorted-IsSorted k (sort_texts ks) (sort_texts-IsSorted ks)

sort_texts-Distinct : (ks : List Text) → Distinct ks → Distinct (sort_texts ks)
unfolding sort_texts
sort_texts-Distinct [] d = tt
sort_texts-Distinct (k ∷ ks) d =
    insert_sorted-Distinct k (sort_texts ks) (contains-sort_texts ks k ∙ d.0)
      (sort_texts-Distinct ks d.1)

-- Two sorted lists with the same keys are the same.
IsSorted-unique :
    (xs ys : List Text)
    → IsSorted xs
    → IsSorted ys
    → Distinct xs
    → Distinct ys
    → ((k : Text) → contains xs k ≡ contains ys k)
    → xs ≡ ys
IsSorted-unique [] [] s t d e same = refl
IsSorted-unique [] (y ∷ ys) s t d e same =
    let no : false ≡ true = ground (arith, same y, text_eq.test_iff y y) in absurd cc
IsSorted-unique (x ∷ xs) [] s t d e same =
    let no : false ≡ true = ground (arith, same x, text_eq.test_iff x x) in absurd cc
IsSorted-unique (x ∷ xs) (y ∷ ys) s t d e same =
    ap (λ k. k ∷ xs) x≡ ∙ ap (◌∷◌ y) (IsSorted-unique xs ys s.1 t.1 d.1 e.1 rest)
  where
    x≡ : x ≡ y
    x≡ = elim (Bool-cases (x == y)) [
      | inl equal ↦ (text_eq.test_iff x y).0 equal
      | inr differ ↦
          text_le_antisym x y
            (Below-contains x xs y s.0 (ground (arith, same y, differ, text_eq.test_iff y y)))
            (Below-contains y ys x t.0 (
              ground (
                arith,
                same x,
                differ,
                text_eq.test_iff x x,
                text_eq.test_iff x y,
                text_eq.test_iff y x,
              )))
    ]

    rest : (k : Text) → contains xs k ≡ contains ys k
    rest k = elim (Bool-cases (x == k)) [
      | inr other ↦ ground (arith, same k, other, subst (λ z. (z == k) ≡ false) x≡ other)
      | inl equal ↦
          let k≡ = (text_eq.test_iff x k).0 equal in
          subst (λ z. contains xs z ≡ contains ys z) k≡
            (d.0 ∙ sym (subst (λ z. contains ys z ≡ false) (sym x≡) e.0))
    ]

-- The sorted keys do not depend on the order in which they come.
pub sort_texts_unique :
    (ks js : List Text)
    → Distinct ks
    → Distinct js
    → ((k : Text) → contains ks k ≡ contains js k)
    → sort_texts ks ≡ sort_texts js
sort_texts_unique ks js d e same =
    IsSorted-unique (sort_texts ks) (sort_texts js) (sort_texts-IsSorted ks)
      (sort_texts-IsSorted js) (sort_texts-Distinct ks d) (sort_texts-Distinct js e)
      (λ k. contains-sort_texts ks k ∙ same k ∙ sym (contains-sort_texts js k))
