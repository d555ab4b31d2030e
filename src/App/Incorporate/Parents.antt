-- ===== src/App/Incorporate/Parents.antt =====
-- app/graph.go: the loop of IncorporateIntoGraph over the parents of one node.
use skyhookml.Prelude.{
  Dict, lookup, insert, keys, contains, Distinct, lookup-insert, contains-keys-insert,
  keys-insert-Distinct, ◌==◌, Text, nat_eq, text_eq, pair_eq, ℕ, ◌+◌, ◌≤◌, ◌≡◌, refl, sym, ap,
  subst, ◌∙◌, ◌⊎◌, inl, inr, true, false, ◌||◌, none, some, List, [], ◌∷◌, arith, if◌then◌else◌,
  Bool-cases, Option-cases, length,
}
use skyhookml.Graph.Node.{GraphId, graph_id_eq, Node, graph_id, graph_parents}
use skyhookml.Graph.Hash.{ExecutionGraph}
use skyhookml.Graph.Hash.Order.{contains-lookup, lookup-contains}
use skyhookml.App.Incorporate.{Database, get_node_by_graph_id, add_parents}

-- Every parent is in the graph.
abbrev pub ParentsIn : ExecutionGraph → Dict Text GraphId → Type 0
ParentsIn graph [] = Unit
ParentsIn graph ((k, p) ∷ parents) = (contains (keys graph) p ≡ true) × ParentsIn graph parents

-- Every parent is in the graph or known to the database.
abbrev pub ParentsKnown : List GraphId → ExecutionGraph → Dict Text GraphId → Type 0
ParentsKnown known graph [] = Unit
ParentsKnown known graph ((k, p) ∷ parents) =
    ((contains known p || contains (keys graph) p) ≡ true) × ParentsKnown known graph parents

-- The database has the nodes with these ids, and with each of them its parents.
abbrev pub Covers : Database → List GraphId → Type 0
Covers db known =
    (id : GraphId)
    → contains known id ≡ true
    → (node : Node) × (get_node_by_graph_id db id ≡ some node)
      × (graph_id node ≡ id)
      × ParentsKnown known [] (graph_parents node)

abbrev pub Grows : ExecutionGraph → ExecutionGraph → Type 0
Grows graph graph' =
    (id : GraphId) (node : Node) → lookup id graph ≡ some node → lookup id graph' ≡ some node

pub Grows-contains :
    (graph graph' : ExecutionGraph) (id : GraphId)
    → Grows graph graph'
    → contains (keys graph) id ≡ true
    → contains (keys graph') id ≡ true
Grows-contains graph graph' id grows c =
    let (node, e) = contains-lookup graph id c in lookup-contains graph' id node (grows id node e)

pub ParentsIn-Grows :
    (graph graph' : ExecutionGraph) (parents : Dict Text GraphId)
    → Grows graph graph'
    → ParentsIn graph parents
    → ParentsIn graph' parents
ParentsIn-Grows graph graph' [] grows all = tt
ParentsIn-Grows graph graph' ((k, p) ∷ parents) grows all =
    (Grows-contains graph graph' p grows all.0, ParentsIn-Grows graph graph' parents grows all.1)

pub ParentsKnown-Grows :
    (known : List GraphId) (graph graph' : ExecutionGraph) (parents : Dict Text GraphId)
    → Grows graph graph'
    → ParentsKnown known graph parents
    → ParentsKnown known graph' parents
ParentsKnown-Grows known graph graph' [] grows all = tt
ParentsKnown-Grows known graph graph' ((k, p) ∷ parents) grows all = (
  ground (arith, Grows-contains graph graph' p grows, all.0),
  ParentsKnown-Grows known graph graph' parents grows all.1,
)

pub Grows-nil : (graph : ExecutionGraph) → Grows [] graph
Grows-nil graph id node e = cc

pub lookup-absent :
    (graph : ExecutionGraph) (id : GraphId)
    → lookup id graph ≡ none
    → contains (keys graph) id ≡ false
lookup-absent [] id e = refl
lookup-absent ((j, n) ∷ graph) id e = ground (arith, lookup-absent graph id)

pub Grows-insert :
    (graph : ExecutionGraph) (id : GraphId) (node : Node)
    → lookup id graph ≡ none
    → Grows graph (insert id node graph)
Grows-insert graph id node absent j n e =
    ground (arith, lookup-insert id j node graph, graph_id_eq.test_iff id j)

-- How many of the known ids are not in the graph.
abbrev pub absent : List GraphId → ExecutionGraph → ℕ
absent [] graph = 0
absent (id ∷ known) graph = (if contains (keys graph) id then 0 else 1) + absent known graph

pub absent-insert-le :
    (known : List GraphId) (graph : ExecutionGraph) (id : GraphId) (node : Node)
    → absent known (insert id node graph) ≤ absent known graph
absent-insert-le [] graph id node = omega arith
absent-insert-le (j ∷ known) graph id node =
    ground (arith, contains-keys-insert id j node graph, absent-insert-le known graph id node)

pub absent-insert :
    (known : List GraphId) (graph : ExecutionGraph) (id : GraphId) (node : Node)
    → contains known id ≡ true
    → contains (keys graph) id ≡ false
    → absent known (insert id node graph) + 1 ≤ absent known graph
absent-insert [] graph id node c a = cc
absent-insert (j ∷ known) graph id node c a = ground (
  arith,
  contains-keys-insert id j node graph,
  absent-insert-le known graph id node,
  absent-insert known graph id node,
  graph_id_eq.test_iff id j,
  graph_id_eq.test_iff j id,
  a,
)

-- What the loop has done when it ends.
pub record Added (db : Database) (known : List GraphId) (parents : Dict Text GraphId)
    (graph : ExecutionGraph) (q : List GraphId) (graph' : ExecutionGraph) (q' : List GraphId)
    : Type 0 where
  pub grows : Grows graph graph'
  pub inside : ParentsIn graph' parents
  -- A node that is new is to be searched, and its parents are known.
  pub fresh :
      (id : GraphId) (node : Node)
      → lookup id graph' ≡ some node
      → (lookup id graph ≡ some node)
        ⊎ ((contains q' id ≡ true)
            × ParentsKnown known graph' (graph_parents node)
            × (get_node_by_graph_id db id ≡ some node))
  pub distinct : Distinct (keys graph) → Distinct (keys graph')
  pub keeps : (id : GraphId) → contains q id ≡ true → contains q' id ≡ true
  pub queued :
      (id : GraphId) → contains q' id ≡ true → (contains q id || contains (keys graph') id) ≡ true
  pub less : length q' + absent known graph' ≤ length q + absent known graph

module _ (db : Database) (known : List GraphId) (covers : Covers db known) where
  add_known :
      (p : GraphId) (graph : ExecutionGraph) (q : List GraphId)
      → lookup p graph ≡ none
      → contains known p ≡ true
      → (node : Node) × (get_node_by_graph_id db p ≡ some node)
        × (graph_id node ≡ p)
        × Added db known [] graph q (insert p node graph) (p ∷ q)
        × (contains (keys (insert p node graph)) p ≡ true)
  add_known p graph q missing c =
      let (node, found, same, parents) = covers p c in
      let graph' = insert p node graph in
      let outside = lookup-absent graph p missing in
      (
        node,
        found,
        same,
        record {
          grows = Grows-insert graph p node missing;
          inside = tt;
          fresh = λ j n e. elim (Bool-cases (p == j)) [
            | inl equal ↦
                let j≡ = (graph_id_eq.test_iff p j).0 equal in
                let n≡ : node ≡ n = ground (arith, lookup-insert p j node graph) in
                inr (
                  ground (arith, equal),
                  ParentsKnown-Grows known [] graph' (graph_parents n) (Grows-nil graph')
                      (subst (λ m. ParentsKnown known [] (graph_parents m)) n≡ parents),
                  ap (get_node_by_graph_id db) (sym j≡) ∙ found ∙ ap some n≡,
                )
            | inr other ↦ inl (ground (arith, lookup-insert p j node graph))
          ];
          distinct = keys-insert-Distinct p node graph;
          keeps = λ j h. ground (arith, h);
          queued = λ j h. ground (arith, h, contains-keys-insert p j node graph);
          less = omega (arith, absent-insert known graph p node c outside);
        },
        ground (arith, contains-keys-insert p p node graph, graph_id_eq.test_iff p p),
      )

  Added-trans :
      (parents : Dict Text GraphId) (g h k : ExecutionGraph) (q r s : List GraphId)
      → Added db known [] g q h r
      → Added db known parents h r k s
      → Added db known parents g q k s
  Added-trans parents g h k q r s one two = record {
    grows = λ id n e. two.grows id n (one.grows id n e);
    inside = two.inside;
    fresh = λ id n e. elim (two.fresh id n e) [
      | inr new ↦ inr new
      | inl old ↦ elim (one.fresh id n old) [
        | inl older ↦ inl older
        | inr (queued, known_parents, found) ↦ inr (
          two.keeps id queued,
          ParentsKnown-Grows known h k (graph_parents n) two.grows known_parents,
          found,
        )
      ]
    ];
    distinct = λ d. two.distinct (one.distinct d);
    keeps = λ id c. two.keeps id (one.keeps id c);
    queued =
        λ id c. ground (arith, two.queued id c, one.queued id, Grows-contains h k id two.grows);
    less = omega (arith, one.less, two.less);
  }

  Added-cons :
      (key : Text) (p : GraphId) (parents : Dict Text GraphId) (g h : ExecutionGraph)
      (q r : List GraphId)
      → contains (keys h) p ≡ true
      → Added db known parents g q h r
      → Added db known ((key, p) ∷ parents) g q h r
  Added-cons key p parents g h q r c added = record {
    grows = added.grows;
    inside = (c, added.inside);
    fresh = added.fresh;
    distinct = added.distinct;
    keeps = added.keeps;
    queued = added.queued;
    less = added.less;
  }

  pub add_parents-Added :
      (parents : Dict Text GraphId) (graph : ExecutionGraph) (q : List GraphId)
      → ParentsKnown known graph parents
      → (graph' : ExecutionGraph) × (q' : List GraphId) × (add_parents db parents graph q
          ≡ some (graph', q'))
        × Added db known parents graph q graph' q'
  unfolding add_parents
  add_parents-Added [] graph q all = (
    graph,
    q,
    refl,
    record {
      grows = λ id n e. e;
      inside = tt;
      fresh = λ id n e. inl e;
      distinct = λ d. d;
      keeps = λ id c. c;
      queued = λ id c. ground (arith, c);
      less = omega arith;
    },
  )
  add_parents-Added ((k, p) ∷ parents) graph q all = elim (Option-cases (lookup p graph)) [
    | inr (node, found) ↦
        let (graph', q', run, added) = add_parents-Added parents graph q all.1 in
        let inside =
          Grows-contains graph graph' p added.grows (lookup-contains graph p node found) in
        (
          graph',
          q',
          rw (found, add_parents) run,
          Added-cons k p parents graph graph' q q' inside added,
        )
    | inl missing ↦
        let c : contains known p ≡ true = ground (arith, all.0, lookup-absent graph p missing) in
        let (node, found, same, first, inside) = add_known p graph q missing c in
        let (graph', q', run, added) =
          add_parents-Added parents (insert p node graph) (p ∷ q)
            (ParentsKnown-Grows known graph (insert p node graph) parents first.grows all.1) in
        (
          graph',
          q',
          rw (missing, found, same, add_parents) run,
          Added-cons k p parents graph graph' q q'
              (Grows-contains (insert p node graph) graph' p added.grows inside)
              (Added-trans parents graph (insert p node graph) graph' q (p ∷ q) q' first added),
        )
  ]
