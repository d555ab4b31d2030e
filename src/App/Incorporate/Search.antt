-- ===== src/App/Incorporate/Search.antt =====
-- app/graph.go: IncorporateIntoGraph adds all ancestors, and ends.
use skyhookml.Prelude.{
  Dict, lookup, insert, keys, contains, Distinct, lookup-insert, keys-insert-Distinct, ◌==◌, Text,
  nat_eq, text_eq, pair_eq, ℕ, zero, suc, ◌+◌, ◌<◌, ◌≡◌, refl, sym, ap, subst, ◌∙◌, ◌⊎◌, inl, inr,
  true, false, Option, none, some, List, [], ◌∷◌, arith, if◌then◌else◌, Bool-cases, length,
}
use skyhookml.Graph.Node.{GraphId, graph_id_eq, Node, graph_parents}
use skyhookml.Graph.Hash.{ExecutionGraph}
use skyhookml.Graph.Hash.Order.{contains-lookup}
use skyhookml.App.Incorporate.{
  Database, add_parents, search_ancestors, add_all, get_node_by_graph_id,
}
use skyhookml.App.Incorporate.Parents.{
  ParentsIn, ParentsKnown, Covers, Grows, Grows-contains, ParentsIn-Grows, ParentsKnown-Grows,
  absent, add_parents-Added,
}

-- Between two rounds: a node is to be searched, or its parents are in the graph.
pub record IsSearch (known : List GraphId) (graph : ExecutionGraph) (q : List GraphId)
    : Type 0 where
  pub waits :
      (id : GraphId) (node : Node)
      → lookup id graph ≡ some node
      → ((contains q id ≡ true) × ParentsKnown known graph (graph_parents node))
        ⊎ ParentsIn graph (graph_parents node)
  pub stored : (id : GraphId) → contains q id ≡ true → contains (keys graph) id ≡ true

-- What a search leaves in the graph, and where the rest of it is from.
pub record Extends (db : Database) (graph graph' : ExecutionGraph) : Type 0 where
  pub grows : Grows graph graph'
  pub origin :
      (id : GraphId) (node : Node)
      → lookup id graph' ≡ some node
      → (lookup id graph ≡ some node) ⊎ (get_node_by_graph_id db id ≡ some node)
  pub distinct : Distinct (keys graph) → Distinct (keys graph')

Extends-refl : (db : Database) (graph : ExecutionGraph) → Extends db graph graph
Extends-refl db graph = record { grows = λ id n e. e; origin = λ id n e. inl e; distinct = λ d. d }

Extends-trans :
    (db : Database) (g h k : ExecutionGraph) → Extends db g h → Extends db h k → Extends db g k
Extends-trans db g h k one two = record {
  grows = λ id n e. two.grows id n (one.grows id n e);
  origin =
      λ id n e. elim (two.origin id n e) [ inr found ↦ inr found | inl old ↦ one.origin id n old ];
  distinct = λ d. two.distinct (one.distinct d);
}

pub in_known :
    (known : List GraphId) (graph : ExecutionGraph) (parents : Dict Text GraphId)
    → ParentsIn graph parents
    → ParentsKnown known graph parents
in_known known graph [] all = tt
in_known known graph ((k, p) ∷ parents) all =
    (ground (arith, all.0), in_known known graph parents all.1)

absent-lookup :
    (graph : ExecutionGraph) (id : GraphId)
    → contains (keys graph) id ≡ false
    → lookup id graph ≡ none
absent-lookup [] id c = refl
absent-lookup ((j, n) ∷ graph) id c = ground (arith, absent-lookup graph id)

module _ (db : Database) (known : List GraphId) (covers : Covers db known) where
  -- One round.
  IsSearch-step :
      (graph : ExecutionGraph) (cur : GraphId) (q : List GraphId)
      → IsSearch known graph (cur ∷ q)
      → (node : Node) × (graph' : ExecutionGraph) × (q' : List GraphId) × (lookup cur graph
          ≡ some node)
        × (add_parents db (graph_parents node) graph q ≡ some (graph', q'))
        × IsSearch known graph' q'
        × Extends db graph graph'
        × (length q' + absent known graph' < length (cur ∷ q) + absent known graph)
  IsSearch-step graph cur q s =
      let inside = s.stored cur (ground (arith, graph_id_eq.test_iff cur cur)) in
      let (node, found) = contains-lookup graph cur inside in
      let parents : ParentsKnown known graph (graph_parents node) = elim (s.waits cur node found) [
        | inl (queued, all) ↦ all
        | inr all ↦ in_known known graph (graph_parents node) all
      ] in
      let (graph', q', run, added) =
        add_parents-Added db known covers (graph_parents node) graph q parents in
      (
        node,
        graph',
        q',
        found,
        run,
        record {
          waits = λ id n e. elim (added.fresh id n e) [
            | inr (queued, parents_known, from) ↦ inl (queued, parents_known)
            | inl old ↦ elim (s.waits id n old) [
              | inr all ↦ inr (ParentsIn-Grows graph graph' (graph_parents n) added.grows all)
              | inl (queued, all) ↦ elim (Bool-cases (cur == id)) [
                | inr other ↦ inl (
                  added.keeps id (ground (arith, queued, other)),
                  ParentsKnown-Grows known graph graph' (graph_parents n) added.grows all,
                )
                | inl same ↦
                    let cur≡ = (graph_id_eq.test_iff cur id).0 same in
                    let n≡ : node ≡ n = cc (found, old, ap (λ i. lookup i graph) cur≡) in
                    inr (subst (λ m. ParentsIn graph' (graph_parents m)) n≡ added.inside)
              ]
            ]
          ];
          stored = λ id c.
              ground
                (arith, added.queued id c, s.stored id, Grows-contains graph graph' id added.grows);
        },
        record {
          grows = added.grows;
          origin = λ id n e. elim (added.fresh id n e) [
            | inl old ↦ inl old
            | inr (queued, parents_known, from) ↦ inr from
          ];
          distinct = added.distinct;
        },
        omega (arith, added.less),
      )

  pub IsSearch-ends :
      (fuel : ℕ) (graph : ExecutionGraph) (q : List GraphId)
      → IsSearch known graph q
      → length q + absent known graph < fuel
      → (graph' : ExecutionGraph) × (search_ancestors db fuel graph q ≡ some graph')
        × IsSearch known graph' []
        × Extends db graph graph'
  unfolding search_ancestors
  IsSearch-ends zero graph q s enough = absurd (omega (arith, enough))
  IsSearch-ends (suc fuel) graph [] s enough = (graph, refl, s, Extends-refl db graph)
  IsSearch-ends (suc fuel) graph (cur ∷ q) s enough =
      let (node, h, r, found, run, s', extends, less) = IsSearch-step graph cur q s in
      let (graph', rest, done, extends') =
        IsSearch-ends fuel h r s' (omega (arith, less, enough)) in
      (
        graph',
        rw (found, run, search_ancestors) rest,
        done,
        Extends-trans db graph h graph' extends extends',
      )

unfoldable pub or_else {ℓ} : {A : Type ℓ} → Option A → Option A → Option A
or_else none other = other
or_else (some a) other = some a

pub lookup-add_all :
    (graph subgraph : ExecutionGraph) (id : GraphId)
    → Distinct (keys subgraph)
    → lookup id (add_all graph subgraph) ≡ or_else (lookup id subgraph) (lookup id graph)
unfolding add_all or_else
lookup-add_all graph [] id d = refl
lookup-add_all graph ((j, n) ∷ subgraph) id d = elim (Bool-cases (j == id)) [
  | inr other ↦
      lookup-add_all (insert j n graph) subgraph id d.1
      ∙ ap (or_else (lookup id subgraph))
          (lookup-insert j id n graph ∙ ap (λ b. if b then some n else lookup id graph) other)
      ∙ sym (ap (λ b. or_else (if b then some n else lookup id subgraph) (lookup id graph)) other)
  | inl same ↦
      let j≡ = (graph_id_eq.test_iff j id).0 same in
      let later : lookup id subgraph ≡ none =
        ap (λ i. lookup i subgraph) (sym j≡) ∙ absent-lookup subgraph j d.0 in
      lookup-add_all (insert j n graph) subgraph id d.1
      ∙ ap (λ o. or_else o (lookup id (insert j n graph))) later
      ∙ lookup-insert j id n graph
      ∙ ap (λ b. if b then some n else lookup id graph) same
      ∙ sym (ap (λ b. or_else (if b then some n else lookup id subgraph) (lookup id graph)) same)
]

pub add_all-Distinct :
    (graph subgraph : ExecutionGraph)
    → Distinct (keys graph)
    → Distinct (keys (add_all graph subgraph))
unfolding add_all
add_all-Distinct graph [] d = d
add_all-Distinct graph ((j, n) ∷ subgraph) d =
    add_all-Distinct (insert j n graph) subgraph (keys-insert-Distinct j n graph d)
