-- ===== src/Graph/Hash/Ranged.antt =====
-- skyhook/graph.go: GetHashes ranges over the parents of a node, which are a map, in any order.
use skyhookml.Prelude.{
  Dict, lookup, lookup_or, keys, contains, Distinct, keys-lookup, lookup-keys, ◌==◌, Text, nat_eq,
  text_eq, pair_eq, ◌≡◌, refl, sym, ap, subst, ◌∙◌, ◌⊎◌, inl, inr, true, false, Option, none, some,
  List, [], ◌∷◌, arith, if◌then◌else◌, Bool-cases, Option-cases, ◌>>=◌,
}
use skyhookml.Graph.Node.{GraphId, graph_id_eq, Node}
use skyhookml.Graph.Hash.{Hashes, sort_texts, parent_hashes, write_parents, node_hash}
use skyhookml.Graph.Hash.Sorted.{sort_texts_unique}

-- What the hash of a parent is read from; virtual parents are skipped.
abbrev known_hash : Hashes → Option GraphId → Option Text
known_hash hashes none = none
known_hash hashes (some p) = if p.virtual_key == [] then lookup p hashes else none

-- The hashes found are those of the parents.
record IsFound (parents : Dict Text GraphId) (hashes : Hashes) (found : Dict Text Text)
    : Type 0 where
  at : (k : Text) → lookup k found ≡ known_hash hashes (lookup k parents)
  inside : (k : Text) → contains (keys parents) k ≡ false → contains (keys found) k ≡ false
  distinct : Distinct (keys found)

-- A parent that is not virtual has no hash.
abbrev Lacks : Dict Text GraphId → Hashes → Type 0
Lacks parents hashes =
    (k : Text) × (p : GraphId) × (lookup k parents ≡ some p)
    × ((p.virtual_key == []) ≡ true)
    × (lookup p hashes ≡ none)

lookup-absent :
    {V : Type 0} (k : Text) (m : Dict Text V) → contains (keys m) k ≡ false → lookup k m ≡ none
lookup-absent k [] c = refl
lookup-absent k ((j, v) ∷ m) c = elim (Bool-cases (j == k)) [
  | inl same ↦ absurd (ground (arith, c, same))
  | inr other ↦ rw other (lookup-absent k m (ground (arith, c, other)))
]

parent_hashes-cases :
    (parents : Dict Text GraphId) (hashes : Hashes)
    → Distinct (keys parents)
    → ((parent_hashes parents hashes ≡ none) × Lacks parents hashes)
      ⊎ ((found : Dict Text Text) × (parent_hashes parents hashes ≡ some found)
          × IsFound parents hashes found)
unfolding parent_hashes
parent_hashes-cases [] hashes d =
    inr ([], refl, record { at = λ k. refl; inside = λ k c. refl; distinct = tt })
parent_hashes-cases ((k, p) ∷ parents) hashes d = elim (Bool-cases (p.virtual_key == [])) [
  | inr virtual ↦ elim (parent_hashes-cases parents hashes d.1) [
    | inl (e, lacks) ↦ inl (rw virtual e, later lacks)
    | inr (found, e, is) ↦ inr (
      found,
      rw virtual e,
      record {
        at = λ j. elim (Bool-cases (k == j)) [
          | inr other ↦ rw other (is.at j)
          | inl same ↦
              let gone : lookup j parents ≡ none =
                lookup-absent j parents
                  (subst (λ i. contains (keys parents) i ≡ false) (key≡ j same) d.0) in
              is.at j ∙ ap (known_hash hashes) gone ∙ rw (same, virtual) refl
        ];
        inside = λ j c. is.inside j (ground (arith, c));
        distinct = is.distinct;
      },
    )
  ]
  | inl concrete ↦ elim (Option-cases (lookup p hashes)) [
    | inl none≡ ↦ inl (rw (concrete, none≡) refl, (k, p, first, concrete, none≡))
    | inr (hash, found_hash) ↦ elim (parent_hashes-cases parents hashes d.1) [
      | inl (e, lacks) ↦ inl (rw (concrete, found_hash, e) refl, later lacks)
      | inr (found, e, is) ↦ inr (
        (k, hash) ∷ found,
        rw (concrete, found_hash, e) refl,
        record {
          at = λ j. elim (Bool-cases (k == j)) [
            | inr other ↦ rw other (is.at j)
            | inl same ↦ rw (same, concrete) (sym found_hash)
          ];
          inside = λ j c. ground (arith, c, is.inside j);
          distinct = (is.inside k d.0, is.distinct);
        },
      )
    ]
  ]
]
  where
    key≡ : (j : Text) → (k == j) ≡ true → k ≡ j
    key≡ j same = (text_eq.test_iff k j).0 same

    first : lookup k ((k, p) ∷ parents) ≡ some p
    first = ground (arith, text_eq.test_iff k k)

    later : Lacks parents hashes → Lacks ((k, p) ∷ parents) hashes
    later (j, q, e, concrete, none≡) = (
      j,
      q,
      elim (Bool-cases (k == j)) [
        | inr other ↦ rw other e
        | inl same ↦
            let gone : lookup j parents ≡ none =
              lookup-absent j parents
                (subst (λ i. contains (keys parents) i ≡ false) (key≡ j same) d.0) in
            let clash : none ≡ some q = sym gone ∙ e in absurd cc
      ],
      concrete,
      none≡,
    )

-- Where hashes are found for the parents, none that is not virtual lacks one.
found_all :
    (parents : Dict Text GraphId) (hashes : Hashes) (found : Dict Text Text) (k : Text)
    (p : GraphId)
    → parent_hashes parents hashes ≡ some found
    → lookup k parents ≡ some p
    → (p.virtual_key == []) ≡ true
    → lookup p hashes ≡ none
    → ⊥
unfolding parent_hashes
found_all [] hashes found k p run e concrete none≡ = cc
found_all ((j, q) ∷ parents) hashes found k p run e concrete none≡ =
    elim (Bool-cases (q.virtual_key == [])) [
      | inr virtual ↦ elim (Bool-cases (j == k)) [
        | inl same ↦
            let q≡ : some q ≡ some p = rw same at e in
            let q≡' : q ≡ p = cc in
            let clash = sym (subst (λ r. (r.virtual_key == []) ≡ false) q≡' virtual) ∙ concrete in
            absurd cc
        | inr other ↦
            found_all parents hashes found k p (rw virtual at run) (rw other at e) concrete none≡
      ]
      | inl q_concrete ↦ elim (Option-cases (lookup q hashes)) [
        | inl q_none ↦ let clash : none ≡ some found = rw (q_concrete, q_none) at run in absurd cc
        | inr (hash, q_hash) ↦ elim (Option-cases (parent_hashes parents hashes)) [
          | inl rest_none ↦
              let clash : none ≡ some found = rw (q_concrete, q_hash, rest_none) at run in absurd cc
          | inr (rest, rest≡) ↦ elim (Bool-cases (j == k)) [
            | inr other ↦ found_all parents hashes rest k p rest≡ (rw other at e) concrete none≡
            | inl same ↦
                let q≡ : some q ≡ some p = rw same at e in
                let q≡' : q ≡ p = cc in
                let clash : some hash ≡ none =
                  sym (subst (λ r. lookup r hashes ≡ some hash) q≡' q_hash) ∙ none≡ in
                absurd cc
          ]
        ]
      ]
    ]

IsFound-Lacks :
    (parents parents' : Dict Text GraphId) (hashes : Hashes) (found : Dict Text Text)
    → ((k : Text) → lookup k parents ≡ lookup k parents')
    → Lacks parents hashes
    → parent_hashes parents' hashes ≡ some found
    → ⊥
IsFound-Lacks parents parents' hashes found same (k, p, e, concrete, none≡) run =
    found_all parents' hashes found k p run (sym (same k) ∙ e) concrete none≡

abbrev or_empty : Option Text → Text
or_empty none = []
or_empty (some t) = t

lookup_or_empty : (k : Text) (m : Dict Text Text) → lookup_or [] k m ≡ or_empty (lookup k m)
lookup_or_empty k [] = refl
lookup_or_empty k ((j, v) ∷ m) = elim (Bool-cases (j == k)) [
  | inl same ↦ rw same refl
  | inr other ↦ rw other (lookup_or_empty k m)
]

write_parents-agree :
    (found found' : Dict Text Text) (ks : List Text)
    → ((k : Text) → lookup k found ≡ lookup k found')
    → write_parents found ks ≡ write_parents found' ks
unfolding write_parents
write_parents-agree found found' [] same = refl
write_parents-agree found found' (k ∷ ks) same =
    let read : lookup_or [] k found ≡ lookup_or [] k found' =
      lookup_or_empty k found ∙ ap or_empty (same k) ∙ sym (lookup_or_empty k found') in
    rw (read, write_parents-agree found found' ks same) refl

contains-agree :
    (found found' : Dict Text Text) (k : Text)
    → lookup k found ≡ lookup k found'
    → contains (keys found) k ≡ true
    → contains (keys found') k ≡ true
contains-agree found found' k same c =
    let (v, e) = keys-lookup k found c in lookup-keys k found' v (sym same ∙ e)

contains-same :
    (found found' : Dict Text Text) (k : Text)
    → lookup k found ≡ lookup k found'
    → contains (keys found) k ≡ contains (keys found') k
contains-same found found' k same = elim (Bool-cases (contains (keys found) k)) [
  | inl there ↦ there ∙ sym (contains-agree found found' k same there)
  | inr gone ↦ elim (Bool-cases (contains (keys found') k)) [
    | inr gone' ↦ gone ∙ sym gone'
    | inl there ↦
        let back = contains-agree found' found k (sym same) there in
        let clash : false ≡ true = sym gone ∙ back in absurd cc
  ]
]

-- For any two orders in which Go ranges over the parents of a node, which have distinct keys,
-- GetHashes comes to the same hash of the node from the hashes of its parents, or to none in
-- both: by the sorting of the keys the order does not matter.
pub node_hash-parent_hashes :
    (sha256 : Text → Text) (node : Node) (parents parents' : Dict Text GraphId) (hashes : Hashes)
    → Distinct (keys parents)
    → Distinct (keys parents')
    → ((k : Text) → lookup k parents ≡ lookup k parents')
    → (parent_hashes parents hashes >>= λ found. some (node_hash sha256 node found))
      ≡ (parent_hashes parents' hashes >>= λ found. some (node_hash sha256 node found))
unfolding node_hash
node_hash-parent_hashes sha256 node parents parents' hashes d d' same =
    elim (parent_hashes-cases parents hashes d) [
      | inl (e, lacks) ↦ elim (parent_hashes-cases parents' hashes d') [
        | inl (e', lacks') ↦ rw (e, e') refl
        | inr (found', e', is') ↦
            absurd (IsFound-Lacks parents parents' hashes found' same lacks e')
      ]
      | inr (found, e, is) ↦ elim (parent_hashes-cases parents' hashes d') [
        | inl (e', lacks') ↦
            absurd (IsFound-Lacks parents' parents hashes found (λ k. sym (same k)) lacks' e)
        | inr (found', e', is') ↦
            let agree : (k : Text) → lookup k found ≡ lookup k found' =
              λ k. is.at k ∙ ap (known_hash hashes) (same k) ∙ sym (is'.at k) in
            let sorted : sort_texts (keys found) ≡ sort_texts (keys found') =
              sort_texts_unique (keys found) (keys found') is.distinct is'.distinct
                (λ k. contains-same found found' k (agree k)) in
            rw (e, e', sorted, write_parents-agree found found' (sort_texts (keys found')) agree)
              refl
      ]
    ]
