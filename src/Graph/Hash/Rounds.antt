-- ===== src/Graph/Hash/Rounds.antt =====
-- skyhook/graph.go: what a round of GetHashes keeps, and that it gets further.
use skyhookml.Prelude.{
  Dict, lookup, insert, keys, contains, Distinct, lookup-insert, ◌==◌, Text, nat_eq, text_eq,
  pair_eq, ◌+◌, ◌≡◌, sym, ap, ◌∙◌, inl, inr, true, none, some, List, [], ◌∷◌, arith, Bool-cases,
  Option-cases, length,
}
use skyhookml.Graph.Node.{GraphId, graph_id_eq, Node, graph_parents}
use skyhookml.Graph.Hash.{ExecutionGraph, Hashes, parent_hashes, node_hash, visit, round}
use skyhookml.Graph.Hash.Laws.{
  Extends, Extends-insert, parent_hashes-Extends, missing, missing-insert, length-insert_new,
}

-- Every entry is one of the graph.
abbrev pub AllIn : ExecutionGraph → List (GraphId × Node) → Type 0
AllIn graph [] = Unit
AllIn graph ((id, node) ∷ order) = (lookup id graph ≡ some node) × AllIn graph order

module _ (sha256 : Text → Text) where
  -- A hash is the one that its node's parents give.
  abbrev pub Justified : ExecutionGraph → Hashes → GraphId → Text → Type 0
  Justified graph hashes id h =
      (node : Node) × (found : Dict Text Text) × (lookup id graph ≡ some node)
      × (parent_hashes (graph_parents node) hashes ≡ some found)
      × (h ≡ node_hash sha256 node found)

  pub record IsSound (graph : ExecutionGraph) (hashes : Hashes) : Type 0 where
    pub counted : length hashes + missing graph hashes ≡ length graph
    pub justified :
        (id : GraphId) (h : Text) → lookup id hashes ≡ some h → Justified graph hashes id h

  visit_old :
      (hashes : Hashes) (id : GraphId) (node : Node) (h : Text)
      → lookup id hashes ≡ some h
      → visit sha256 hashes (id, node) ≡ hashes
  unfolding visit
  visit_old hashes id node h e = rw (e, visit)

  visit_waiting :
      (hashes : Hashes) (id : GraphId) (node : Node)
      → lookup id hashes ≡ none
      → parent_hashes (graph_parents node) hashes ≡ none
      → visit sha256 hashes (id, node) ≡ hashes
  unfolding visit
  visit_waiting hashes id node e p = rw (e, p, visit)

  visit_new :
      (hashes : Hashes) (id : GraphId) (node : Node) (found : Dict Text Text)
      → lookup id hashes ≡ none
      → parent_hashes (graph_parents node) hashes ≡ some found
      → visit sha256 hashes (id, node) ≡ insert id (node_hash sha256 node found) hashes
  unfolding visit
  visit_new hashes id node found e p = rw (e, p, visit)

  -- To show something of a visit: of no change, and of a new hash.
  visit_cases {ℓ} :
      (P : Hashes → Type ℓ) (hashes : Hashes) (id : GraphId) (node : Node)
      → P hashes
      → ((found : Dict Text Text)
          → lookup id hashes ≡ none
          → parent_hashes (graph_parents node) hashes ≡ some found
          → P (insert id (node_hash sha256 node found) hashes))
      → P (visit sha256 hashes (id, node))
  visit_cases P hashes id node same new = elim (Option-cases (lookup id hashes)) [
    | inr (h, e) ↦ rw (visit_old hashes id node h e) same
    | inl e ↦ elim (Option-cases (parent_hashes (graph_parents node) hashes)) [
      | inl p ↦ rw (visit_waiting hashes id node e p) same
      | inr (found, p) ↦ rw (visit_new hashes id node found e p) (new found e p)
    ]
  ]

  visit-Extends :
      (hashes : Hashes) (id : GraphId) (node : Node)
      → Extends hashes (visit sha256 hashes (id, node))
  visit-Extends hashes id node =
      visit_cases (Extends hashes) hashes id node (λ j v e. e)
        (λ found absent p. Extends-insert hashes id (node_hash sha256 node found) absent)

  pub round-Extends :
      (order : List (GraphId × Node)) (hashes : Hashes) → Extends hashes (round sha256 order hashes)
  unfolding round
  round-Extends [] hashes j v e = e
  round-Extends ((id, node) ∷ order) hashes j v e =
      round-Extends order (visit sha256 hashes (id, node)) j v (visit-Extends hashes id node j v e)

  Justified-Extends :
      (graph : ExecutionGraph) (before after : Hashes) (id : GraphId) (h : Text)
      → Extends before after
      → Justified graph before id h
      → Justified graph after id h
  Justified-Extends graph before after id h ext (node, found, g, p, e) =
      (node, found, g, parent_hashes-Extends (graph_parents node) before after found ext p, e)

  insert-IsSound :
      (graph : ExecutionGraph) (hashes : Hashes) (id : GraphId) (node : Node)
      (found : Dict Text Text)
      → Distinct (keys graph)
      → lookup id graph ≡ some node
      → lookup id hashes ≡ none
      → parent_hashes (graph_parents node) hashes ≡ some found
      → IsSound graph hashes
      → IsSound graph (insert id (node_hash sha256 node found) hashes)
  insert-IsSound graph hashes id node found d g absent p s = record {
    counted = omega (
      arith,
      s.counted,
      length-insert_new hashes id h absent,
      missing-insert graph hashes id node h d g absent,
    );
    justified = justified;
  }
    where
      h : Text
      h = node_hash sha256 node found

      ext : Extends hashes (insert id h hashes)
      ext = Extends-insert hashes id h absent

      justified :
          (j : GraphId) (v : Text)
          → lookup j (insert id h hashes) ≡ some v
          → Justified graph (insert id h hashes) j v
      justified j v e = elim (Bool-cases (id == j)) [
        | inl same ↦
            let id≡j = (graph_id_eq.test_iff id j).0 same in
            let v≡h : v ≡ h = ground (arith, lookup-insert id j h hashes) in
            (
              node,
              found,
              ap (λ i. lookup i graph) (sym id≡j) ∙ g,
              parent_hashes-Extends (graph_parents node) hashes (insert id h hashes) found ext p,
              v≡h,
            )
        | inr other ↦
            Justified-Extends graph hashes (insert id h hashes) j v ext
              (s.justified j v (ground (arith, lookup-insert id j h hashes)))
      ]

  pub round-IsSound :
      (graph : ExecutionGraph) (order : List (GraphId × Node)) (hashes : Hashes)
      → Distinct (keys graph)
      → AllIn graph order
      → IsSound graph hashes
      → IsSound graph (round sha256 order hashes)
  unfolding round
  round-IsSound graph [] hashes d in_graph s = s
  round-IsSound graph ((id, node) ∷ order) hashes d in_graph s =
      round-IsSound graph order (visit sha256 hashes (id, node)) d in_graph.1 (
        visit_cases (IsSound graph) hashes id node s
          (λ found absent p. insert-IsSound graph hashes id node found d in_graph.0 absent p s))

  visit_hashes :
      (hashes : Hashes) (id : GraphId) (node : Node) (found : Dict Text Text)
      → parent_hashes (graph_parents node) hashes ≡ some found
      → (h : Text) × (lookup id (visit sha256 hashes (id, node)) ≡ some h)
  visit_hashes hashes id node found p = elim (Option-cases (lookup id hashes)) [
    | inr (h, e) ↦ (h, rw (visit_old hashes id node h e) e)
    | inl e ↦ (
      node_hash sha256 node found,
      rw (visit_new hashes id node found e p) (
          ground (
            arith,
            lookup-insert id id (node_hash sha256 node found) hashes,
            graph_id_eq.test_iff id id,
          )),
    )
  ]

  -- A round hashes every node whose parents were hashed before it.
  pub round_hashes :
      (graph : ExecutionGraph) (order : List (GraphId × Node)) (hashes : Hashes) (id : GraphId)
      (node : Node) (found : Dict Text Text)
      → AllIn graph order
      → contains (keys order) id ≡ true
      → lookup id graph ≡ some node
      → parent_hashes (graph_parents node) hashes ≡ some found
      → (h : Text) × (lookup id (round sha256 order hashes) ≡ some h)
  unfolding round
  round_hashes graph [] hashes id node found in_graph c g p = cc
  round_hashes graph ((j, n) ∷ order) hashes id node found in_graph c g p =
      elim (Bool-cases (j == id)) [
        | inl same ↦
            let j≡id = (graph_id_eq.test_iff j id).0 same in
            let n≡node : n ≡ node = cc (in_graph.0, g, ap (λ i. lookup i graph) j≡id) in
            let (h, e) = visit_hashes hashes id node found p in
            (h, rw (j≡id, n≡node) (round-Extends order (visit sha256 hashes (id, node)) id h e))
        | inr other ↦
            round_hashes graph order (visit sha256 hashes (j, n)) id node found in_graph.1
              (rw other at c) g
              (parent_hashes-Extends (graph_parents node) hashes (visit sha256 hashes (j, n)) found
                (visit-Extends hashes j n) p)
      ]
