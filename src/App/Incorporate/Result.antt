-- ===== src/App/Incorporate/Result.antt =====
-- app/graph.go: the graphs that IncorporateIntoGraph and GetGraph build, and the hash of a node.
use skyhookml.Prelude.{
  Dict, lookup, keys, contains, Distinct, ◌==◌, Text, nat_eq, text_eq, pair_eq, ℕ, suc, ◌+◌, ◌≤◌,
  ◌<◌, ◌≡◌, refl, sym, ap, subst, ◌∙◌, inl, inr, true, Option, none, some, List, [], ◌∷◌, arith,
  Bool-cases, Option-cases, ◌>>=◌, length,
}
use skyhookml.Graph.Node.{GraphId, graph_id_eq, Node, graph_parents}
use skyhookml.Graph.Hash.{ExecutionGraph, node_hash}
use skyhookml.Graph.Hash.Order.{ForParents, IsRanked, IsOrder, contains-lookup, lookup-contains}
use skyhookml.Graph.Hash.Result.{get_hashes_lem, get_hashes_unique}
use skyhookml.Graph.Hash.Laws.{lookup-get_hash_strings}
use skyhookml.App.Incorporate.{
  Database, get_node_by_graph_id, add_all, incorporate_into_graph, exec_graph_id, get_graph,
  hash_node,
}
use skyhookml.App.Incorporate.Parents.{
  ParentsIn, ParentsKnown, Covers, Grows, ParentsKnown-Grows, Grows-nil, absent,
}
use skyhookml.App.Incorporate.Search.{IsSearch, Extends, IsSearch-ends, or_else, lookup-add_all}

-- The parents of a node that is there are in the graph.
abbrev pub ParentsOf : ExecutionGraph → Option Node → Type 0
ParentsOf graph none = Unit
ParentsOf graph (some node) = ParentsIn graph (graph_parents node)

-- What was there is still there.
abbrev pub Kept : Option Node → Option Node → Type 0
Kept none after = Unit
Kept (some node) after = after ≡ some node

ParentsOf-IsSearch :
    (known : List GraphId) (graph : ExecutionGraph) (id : GraphId) (o : Option Node)
    → lookup id graph ≡ o
    → IsSearch known graph []
    → ParentsOf graph o
ParentsOf-IsSearch known graph id none e s = tt
ParentsOf-IsSearch known graph id (some node) e s = elim (s.waits id node e) [
  | inl (queued, all) ↦ cc
  | inr all ↦ all
]

Kept-Grows :
    (graph graph' : ExecutionGraph) (id : GraphId) (o : Option Node)
    → lookup id graph ≡ o
    → Grows graph graph'
    → Kept o (lookup id graph')
Kept-Grows graph graph' id none e grows = tt
Kept-Grows graph graph' id (some node) e grows = grows id node e

contains-add_all :
    (graph subgraph : ExecutionGraph) (id : GraphId)
    → Distinct (keys subgraph)
    → contains (keys graph) id ≡ true
    → contains (keys (add_all graph subgraph)) id ≡ true
unfolding or_else
contains-add_all graph subgraph id d c =
    let (node, e) = contains-lookup graph id c in
    let merged = lookup-add_all graph subgraph id d ∙ ap (or_else (lookup id subgraph)) e in
    elim (Option-cases (lookup id subgraph)) [
      | inl outside ↦
          lookup-contains (add_all graph subgraph) id node
            (merged ∙ ap (λ o. or_else o (some node)) outside)
      | inr (n, inside) ↦
          lookup-contains (add_all graph subgraph) id n
            (merged ∙ ap (λ o. or_else o (some node)) inside)
    ]

ParentsIn-add_all :
    (graph subgraph : ExecutionGraph) (parents : Dict Text GraphId)
    → Distinct (keys subgraph)
    → ParentsIn graph parents
    → ParentsIn (add_all graph subgraph) parents
ParentsIn-add_all graph subgraph [] d all = tt
ParentsIn-add_all graph subgraph ((k, p) ∷ parents) d all =
    (contains-add_all graph subgraph p d all.0, ParentsIn-add_all graph subgraph parents d all.1)

pub length-keys : (graph : ExecutionGraph) → length (keys graph) ≡ length graph
length-keys [] = refl
length-keys ((j, n) ∷ graph) = ap suc (length-keys graph)

pub absent-le : (known : List GraphId) (graph : ExecutionGraph) → absent known graph ≤ length known
absent-le [] graph = omega arith
absent-le (id ∷ known) graph = ground (arith, absent-le known graph)

abbrev IsClosed : ExecutionGraph → Type 0
IsClosed graph =
    (id : GraphId) (node : Node)
    → lookup id graph ≡ some node
    → ParentsIn graph (graph_parents node)

module _ (db : Database) (known : List GraphId) (covers : Covers db known) where
  start-IsSearch :
      (graph subgraph : ExecutionGraph)
      → IsClosed graph
      → ((id : GraphId) (node : Node)
          → lookup id subgraph ≡ some node
          → ParentsKnown known (add_all graph subgraph) (graph_parents node))
      → Distinct (keys subgraph)
      → IsSearch known (add_all graph subgraph) (keys subgraph)
  unfolding or_else
  start-IsSearch graph subgraph closed parents d = record {
    waits = λ id n e. elim (Option-cases (lookup id subgraph)) [
      | inr (m, inside) ↦
          let merged : some m ≡ some n =
            sym (ap (λ o. or_else o (lookup id graph)) inside)
            ∙ sym (lookup-add_all graph subgraph id d)
            ∙ e in
          let m≡ : m ≡ n = cc in
          inl (
            lookup-contains subgraph id m inside,
            subst (λ k. ParentsKnown known (add_all graph subgraph) (graph_parents k)) m≡
                (parents id m inside),
          )
      | inl outside ↦
          let merged : lookup id graph ≡ some n =
            sym (ap (λ o. or_else o (lookup id graph)) outside)
            ∙ sym (lookup-add_all graph subgraph id d)
            ∙ e in
          inr (ParentsIn-add_all graph subgraph (graph_parents n) d (closed id n merged))
    ];
    stored = λ id c.
        let (node, e) = contains-lookup subgraph id c in
        lookup-contains (add_all graph subgraph) id node
          (lookup-add_all graph subgraph id d ∙ ap (λ o. or_else o (lookup id graph)) e);
  }

  pub incorporated :
      (graph subgraph : ExecutionGraph) (fuel : ℕ)
      → IsClosed graph
      → ((id : GraphId) (node : Node)
          → lookup id subgraph ≡ some node
          → ParentsKnown known (add_all graph subgraph) (graph_parents node))
      → Distinct (keys subgraph)
      → length subgraph + length known < fuel
      → (graph' : ExecutionGraph) × (incorporate_into_graph db fuel graph subgraph ≡ some graph')
        × IsSearch known graph' []
        × Extends db (add_all graph subgraph) graph'
  unfolding incorporate_into_graph
  incorporated graph subgraph fuel closed parents d enough =
      IsSearch-ends db known covers fuel (add_all graph subgraph) (keys subgraph)
        (start-IsSearch graph subgraph closed parents d)
        (omega (arith, enough, length-keys subgraph, absent-le known (add_all graph subgraph)))

  -- The search for ancestors ends, where the database has a finite set of known nodes with their
  -- parents, the parents of the new nodes are known or in one of the two graphs, the new entries
  -- are distinct, and the old graph has the parents of its nodes: a fuel above the numbers of new
  -- and of known nodes is enough. For each id, the result has the new node of that id or else the
  -- old one, and every parent of the node that it has for the id.
  pub incorporate_into_graph_lem :
      (graph subgraph : ExecutionGraph) (fuel : ℕ) (id : GraphId)
      → ((i : GraphId) (node : Node)
          → lookup i graph ≡ some node
          → ParentsIn graph (graph_parents node))
      → ((i : GraphId) (node : Node)
          → lookup i subgraph ≡ some node
          → ParentsKnown known (add_all graph subgraph) (graph_parents node))
      → Distinct (keys subgraph)
      → length subgraph + length known < fuel
      → (graph' : ExecutionGraph) × (incorporate_into_graph db fuel graph subgraph ≡ some graph')
        × Kept (or_else (lookup id subgraph) (lookup id graph)) (lookup id graph')
        × ParentsOf graph' (lookup id graph')
  incorporate_into_graph_lem graph subgraph fuel id closed parents d enough =
      let (graph', run, s, extends) = incorporated graph subgraph fuel closed parents d enough in
      (
        graph',
        run,
        Kept-Grows (add_all graph subgraph) graph' id _ (lookup-add_all graph subgraph id d)
            extends.grows,
        ParentsOf-IsSearch known graph' id (lookup id graph') refl s,
      )

  ForParents-inside :
      (P : GraphId → Type 0) (graph : ExecutionGraph) (parents : Dict Text GraphId)
      → ParentsIn graph parents
      → ForParents P parents
      → ForParents (λ p. (contains (keys graph) p ≡ true) × P p) parents
  ForParents-inside P graph [] inside all = tt
  ForParents-inside P graph ((k, p) ∷ parents) inside all =
      (λ concrete. (inside.0, all.0 concrete), ForParents-inside P graph parents inside.1 all.1)

  -- The graph of a known node.
  node_graph :
      (id fuel : ℕ) (rank : GraphId → ℕ)
      → ((i : GraphId) (node : Node)
          → get_node_by_graph_id db i ≡ some node
          → ForParents (λ p. rank p < rank i) (graph_parents node))
      → contains known (exec_graph_id id) ≡ true
      → 1 + length known < fuel
      → (graph : ExecutionGraph) × (node : Node) × (get_graph db fuel id ≡ some graph)
        × Distinct (keys graph)
        × IsRanked graph rank
        × (lookup (exec_graph_id id) graph ≡ some node)
  unfolding get_graph add_all
  node_graph id fuel rank ranked c enough =
      let (node, found, same, parents) = covers (exec_graph_id id) c in
      let one : ExecutionGraph = (exec_graph_id id, node) ∷ [] in
      let (graph, run, s, extends) =
        incorporated [] one fuel (λ i n e. cc)
          (λ i n e.
            ParentsKnown-Grows known [] one (graph_parents n) (Grows-nil one)
              (subst (λ m. ParentsKnown known [] (graph_parents m)) (single i n node e) parents))
          (refl, tt) (omega (arith, enough)) in
      (
        graph,
        node,
        ap (λ o. o >>= λ n. incorporate_into_graph db fuel [] ((exec_graph_id id, n) ∷ [])) found
            ∙ run,
        extends.distinct (refl, tt),
        λ i n e.
            ForParents-inside (λ p. rank p < rank i) graph (graph_parents n)
              (subst (ParentsOf graph) e (ParentsOf-IsSearch known graph i (lookup i graph) refl s))
              (elim (extends.origin i n e) [
                | inr from ↦ ranked i n from
                | inl start ↦ ranked i n (from_start i n node start found)
              ]),
        extends.grows (exec_graph_id id) node
            (ground (arith, graph_id_eq.test_iff (exec_graph_id id) (exec_graph_id id))),
      )
    where
      single :
          (i : GraphId) (n node : Node)
          → lookup i ((exec_graph_id id, node) ∷ []) ≡ some n
          → node ≡ n
      single i n node e = ground (arith, e)

      from_start :
          (i : GraphId) (n node : Node)
          → lookup i ((exec_graph_id id, node) ∷ []) ≡ some n
          → get_node_by_graph_id db (exec_graph_id id) ≡ some node
          → get_node_by_graph_id db i ≡ some n
      from_start i n node e found = elim (Bool-cases (exec_graph_id id == i)) [
        | inl same ↦
            ap (get_node_by_graph_id db) (sym ((graph_id_eq.test_iff (exec_graph_id id) i).0 same))
            ∙ found
            ∙ ap some (single i n node e)
        | inr other ↦ absurd (ground (arith, e, other))
      ]

  -- Where the nodes of the database are known and can be ranked so that parents stand before
  -- their children, a known node has a hash, and it is the same text whatever the orders in
  -- which Go ranges over the node's graph, with a fuel above one more than the number of known
  -- nodes.
  pub hash_node_lem :
      (sha256 hex : Text → Text) (id fuel : ℕ) (rank : GraphId → ℕ)
      (orders orders' : ExecutionGraph → ℕ → List (GraphId × Node))
      → ((i : GraphId) (node : Node)
          → get_node_by_graph_id db i ≡ some node
          → ForParents (λ p. rank p < rank i) (graph_parents node))
      → ((graph : ExecutionGraph) (i : ℕ) → Distinct (keys graph) → IsOrder graph (orders graph i))
      → ((graph : ExecutionGraph) (i : ℕ) → Distinct (keys graph) → IsOrder graph (orders' graph i))
      → contains known (exec_graph_id id) ≡ true
      → 1 + length known < fuel
      → (hash : Text) × (hash_node sha256 hex db fuel orders id ≡ some (some (hex hash)))
        × (hash_node sha256 hex db fuel orders' id ≡ some (some (hex hash)))
  unfolding hash_node
  hash_node_lem sha256 hex id fuel rank orders orders' ranked o o' c enough =
      let (graph, node, run, d, acyclic, found) = node_graph id fuel rank ranked c enough in
      let (h, f, hashed, p, e) =
        get_hashes_lem sha256 (length graph + 1) graph (orders graph) rank (exec_graph_id id) node d
          acyclic (λ i. o graph i d) (omega arith) found in
      let (h', f', hashed', p', e') =
        get_hashes_lem sha256 (length graph + 1) graph (orders' graph) rank (exec_graph_id id) node
          d acyclic (λ i. o' graph i d) (omega arith) found in
      let same =
        get_hashes_unique sha256 (length graph + 1) (length graph + 1) graph (orders' graph)
          (orders graph) rank h' h (exec_graph_id id) d acyclic (λ i. o' graph i d)
          (λ i. o graph i d) hashed' hashed in
      (
        node_hash sha256 node f,
        rw (run, hashed) (ap some (lookup-get_hash_strings hex h (exec_graph_id id) _ e)),
        rw (run, hashed')
            (ap some (lookup-get_hash_strings hex h' (exec_graph_id id) _ (same ∙ e))),
      )
