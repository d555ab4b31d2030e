-- ===== src/Graph/Hash/Order.antt =====
-- skyhook/graph.go: acyclic graphs, and the nodes that GetHashes can hash next.
use skyhookml.Prelude.{
  Dict, lookup, keys, contains, Distinct, ◌==◌, Text, nat_eq, text_eq, pair_eq, ℕ, zero, suc, ◌+◌,
  ◌<◌, ◌≡◌, refl, ◌⊎◌, inl, inr, true, false, none, some, List, [], ◌∷◌, arith, Bool-cases,
  Option-cases,
}
use skyhookml.Graph.Node.{GraphId, graph_id_eq, Node, graph_parents}
use skyhookml.Graph.Hash.{ExecutionGraph, Hashes, parent_hashes}
use skyhookml.Graph.Hash.Laws.{missing}
use skyhookml.Graph.Hash.Rounds.{AllIn}

-- The parents that are not virtual have a property.
abbrev pub ForParents {ℓ} : (GraphId → Type ℓ) → Dict Text GraphId → Type ℓ
ForParents P [] = Unit
ForParents P ((k, p) ∷ parents) = ((p.virtual_key == []) ≡ true → P p) × ForParents P parents

pub ForParents-map {ℓ κ} :
    (P : GraphId → Type ℓ) (Q : GraphId → Type κ) (parents : Dict Text GraphId)
    → ForParents P parents
    → ((p : GraphId) → P p → Q p)
    → ForParents Q parents
ForParents-map P Q [] all f = tt
ForParents-map P Q ((k, p) ∷ parents) all f =
    (λ concrete. f p (all.0 concrete), ForParents-map P Q parents all.1 f)

-- Parents are in the graph, and stand before their children.
abbrev pub IsRanked : ExecutionGraph → (GraphId → ℕ) → Type 0
IsRanked graph rank =
    (id : GraphId) (node : Node)
    → lookup id graph ≡ some node
    → ForParents (λ p. (contains (keys graph) p ≡ true) × (rank p < rank id)) (graph_parents node)

-- An order in which Go may range over the graph.
abbrev pub IsOrder : ExecutionGraph → List (GraphId × Node) → Type 0
IsOrder graph order =
    AllIn graph order
    × ((id : GraphId) → contains (keys graph) id ≡ true → contains (keys order) id ≡ true)

pub contains-lookup :
    (graph : ExecutionGraph) (id : GraphId)
    → contains (keys graph) id ≡ true
    → (node : Node) × (lookup id graph ≡ some node)
contains-lookup [] id c = cc
contains-lookup ((j, n) ∷ graph) id c = elim (Bool-cases (j == id)) [
  | inl same ↦ (n, rw same refl)
  | inr other ↦ let (node, e) = contains-lookup graph id (rw other at c) in (node, rw other e)
]

pub lookup-contains :
    (graph : ExecutionGraph) (id : GraphId) (node : Node)
    → lookup id graph ≡ some node
    → contains (keys graph) id ≡ true
lookup-contains [] id node e = cc
lookup-contains ((j, n) ∷ graph) id node e = ground (arith, lookup-contains graph id node)

less_tail : (m : ℕ) → 0 < 0 + m → 0 < m
less_tail m h = omega (arith, h)

pub missing_entry :
    (graph : ExecutionGraph) (hashes : Hashes)
    → 0 < missing graph hashes
    → (id : GraphId) × (contains (keys graph) id ≡ true) × (lookup id hashes ≡ none)
missing_entry [] hashes h = absurd (omega (arith, h))
missing_entry ((j, n) ∷ graph) hashes h = elim (Option-cases (lookup j hashes)) [
  | inl e ↦ (j, ground (arith, graph_id_eq.test_iff j j), e)
  | inr (v, e) ↦
      let (id, c, absent) = missing_entry graph hashes (less_tail _ (rw e at h)) in
      (id, ground (arith, c), absent)
]

pub missing_none :
    (graph : ExecutionGraph) (hashes : Hashes) (id : GraphId)
    → missing graph hashes ≡ 0
    → contains (keys graph) id ≡ true
    → (h : Text) × (lookup id hashes ≡ some h)
missing_none [] hashes id m c = cc
missing_none ((j, n) ∷ graph) hashes id m c = elim (Option-cases (lookup id hashes)) [
  | inr found ↦ found
  | inl absent ↦ elim (Bool-cases (j == id)) [
    | inl same ↦
        let e = (graph_id_eq.test_iff j id).0 same in
        let no : 1 + missing graph hashes ≡ 0 = rw (e, absent) at m in absurd (omega (arith, no))
    | inr other ↦ missing_none graph hashes id (omega (arith, m)) (rw other at c)
  ]
]

-- Either the parents' hashes are all there, or a parent's hash is missing.
parent_hashes_cases {ℓ} :
    (P : GraphId → Type ℓ) (parents : Dict Text GraphId) (hashes : Hashes)
    → ForParents P parents
    → ((found : Dict Text Text) × (parent_hashes parents hashes ≡ some found))
      ⊎ ((p : GraphId) × P p × (lookup p hashes ≡ none))
unfolding parent_hashes
parent_hashes_cases P [] hashes all = inl ([], refl)
parent_hashes_cases P ((k, p) ∷ parents) hashes all =
    elim (parent_hashes_cases P parents hashes all.1) [
      | inr waiting ↦ inr waiting
      | inl (found, e) ↦ elim (Bool-cases (p.virtual_key == [])) [
        | inr virtual ↦ inl (found, rw virtual e)
        | inl concrete ↦ elim (Option-cases (lookup p hashes)) [
          | inl absent ↦ inr (p, all.0 concrete, absent)
          | inr (h, hashed) ↦ inl ((k, h) ∷ found, rw (concrete, hashed, e) refl)
        ]
      ]
    ]

pub parent_hashes-agree :
    (parents : Dict Text GraphId) (hashes hashes' : Hashes)
    → ForParents (λ p. lookup p hashes ≡ lookup p hashes') parents
    → parent_hashes parents hashes ≡ parent_hashes parents hashes'
unfolding parent_hashes
parent_hashes-agree [] hashes hashes' all = refl
parent_hashes-agree ((k, p) ∷ parents) hashes hashes' all =
    elim (Bool-cases (p.virtual_key == [])) [
      | inl concrete ↦
          rw (concrete, all.0 concrete, parent_hashes-agree parents hashes hashes' all.1) refl
      | inr virtual ↦ rw virtual (parent_hashes-agree parents hashes hashes' all.1)
    ]

-- An entry whose parents are hashed while it is not.
abbrev pub IsReady : ExecutionGraph → Hashes → Type 0
IsReady graph hashes =
    (id : GraphId) × (node : Node) × (found : Dict Text Text) × (lookup id graph ≡ some node)
    × (lookup id hashes ≡ none)
    × (parent_hashes (graph_parents node) hashes ≡ some found)

pub ready :
    (graph : ExecutionGraph) (rank : GraphId → ℕ) (hashes : Hashes) (bound : ℕ) (id : GraphId)
    → IsRanked graph rank
    → rank id < bound
    → contains (keys graph) id ≡ true
    → lookup id hashes ≡ none
    → IsReady graph hashes
ready graph rank hashes zero id ranked less c absent = absurd (omega (arith, less))
ready graph rank hashes (suc bound) id ranked less c absent =
    let (node, e) = contains-lookup graph id c in
    elim (parent_hashes_cases (λ p. (contains (keys graph) p ≡ true) × (rank p < rank id))
      (graph_parents node) hashes (ranked id node e)) [
        | inl (found, p) ↦ (id, node, found, e, absent, p)
        | inr (parent, (c', before), absent') ↦
            ready graph rank hashes bound parent ranked (omega (arith, before, less)) c' absent'
      ]

AllIn-cons :
    (graph order : ExecutionGraph) (id : GraphId) (node : Node)
    → AllIn graph order
    → contains (keys order) id ≡ false
    → AllIn ((id, node) ∷ graph) order
AllIn-cons graph [] id node all c = tt
AllIn-cons graph ((j, n) ∷ order) id node all c = (
  ground (arith, all.0, c, graph_id_eq.test_iff id j, graph_id_eq.test_iff j id),
  AllIn-cons graph order id node all.1 (ground (arith, c)),
)

-- A graph is an order of itself.
pub Distinct-AllIn : (graph : ExecutionGraph) → Distinct (keys graph) → AllIn graph graph
Distinct-AllIn [] d = tt
Distinct-AllIn ((id, node) ∷ graph) d = (
  ground (arith, graph_id_eq.test_iff id id),
  AllIn-cons graph graph id node (Distinct-AllIn graph d.1) d.0,
)
