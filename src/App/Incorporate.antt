-- ===== src/App/Incorporate.antt =====
-- app/graph.go: GetNodeByGraphID, IncorporateIntoGraph, GetGraph and Hash. What the database has is an
-- argument, and so is how an op virtualizes a node. `none` is a panic, or a search that needs more
-- rounds than the fuel gives. The queue, from whose end the source takes, is a stack.
pub mod Parents
pub mod Search
pub mod Result
mod Tests
pub mod Nodes
use skyhookml.Prelude.{
  Dict, lookup, insert, keys, ◌==◌, Text, nat_eq, text_eq, pair_eq, ℕ, zero, suc, ◌+◌, Option, none,
  some, List, [], ◌∷◌, if◌then◌else◌, ◌>>=◌, length,
}
use skyhookml.Item.{Dataset}
use skyhookml.Graph.Node.{
  GraphId, graph_id_eq, Node, exec, dataset, ExecNode, VirtualNode, graph_id, graph_parents,
  exec_kind, dataset_kind,
}
use skyhookml.Graph.Hash.{ExecutionGraph, get_hashes, get_hash_strings}

pub record Database : Type 0 where
  pub exec_nodes : Dict ℕ ExecNode
  pub datasets : Dict ℕ Dataset
  pub virtualized : ExecNode → VirtualNode

pub exec_graph_id : ℕ → GraphId
exec_graph_id id = record { kind = exec_kind; id = id; virtual_key = [] }

-- The virtual node of a configured node, whose id must be the one asked for.
unfoldable pub checked_node : GraphId → VirtualNode → Option Node
checked_node id vnode = if id == graph_id (exec vnode) then some (exec vnode) else none

unfoldable pub get_node_by_graph_id : Database → GraphId → Option Node
get_node_by_graph_id db id =
    if id.kind == exec_kind
    then (if id.virtual_key == []
        then (do exec_node ← lookup id.id db.exec_nodes; checked_node id (db.virtualized exec_node))
        else none)
    else (if id.kind == dataset_kind
        then (do ds ← lookup id.id db.datasets; some (dataset ds))
        else none)

-- `for id, node := range subgraph { graph[id] = node }`
pub add_all : ExecutionGraph → ExecutionGraph → ExecutionGraph
add_all graph [] = graph
add_all graph ((id, node) ∷ subgraph) = add_all (insert id node graph) subgraph

-- The loop over the parents of a node, with the graph and the ids still to be searched.
pub add_parents :
    Database
    → Dict Text GraphId
    → ExecutionGraph
    → List GraphId
    → Option (ExecutionGraph × List GraphId)
add_parents db [] graph q = some (graph, q)
add_parents db ((k, parent_id) ∷ parents) graph q = elim (lookup parent_id graph) [
  | some node ↦ add_parents db parents graph q
  | none ↦ elim (get_node_by_graph_id db parent_id) [
    | none ↦ none
    | some node ↦ add_parents db parents (insert (graph_id node) node graph) (graph_id node ∷ q)
  ]
]

pub search_ancestors : Database → ℕ → ExecutionGraph → List GraphId → Option ExecutionGraph
search_ancestors db zero graph q = none
search_ancestors db (suc fuel) graph [] = some graph
search_ancestors db (suc fuel) graph (cur ∷ q) = do
  node ← lookup cur graph
  (graph', q') ← add_parents db (graph_parents node) graph q
  search_ancestors db fuel graph' q'

pub incorporate_into_graph : Database → ℕ → ExecutionGraph → ExecutionGraph → Option ExecutionGraph
incorporate_into_graph db fuel graph subgraph =
    search_ancestors db fuel (add_all graph subgraph) (keys subgraph)

pub get_graph : Database → ℕ → ℕ → Option ExecutionGraph
get_graph db fuel id = do
  node ← get_node_by_graph_id db (exec_graph_id id)
  incorporate_into_graph db fuel [] ((exec_graph_id id, node) ∷ [])

-- The hash of a node in its graph, as text, or none for a node that has none; the orders are those in which GetHashes ranges over the graph.
pub hash_node :
    (sha256 hex : Text → Text)
    → Database
    → ℕ
    → (ExecutionGraph → ℕ → List (GraphId × Node))
    → ℕ
    → Option (Option Text)
hash_node sha256 hex db fuel orders id = do
  graph ← get_graph db fuel id
  hashes ← get_hashes sha256 (length graph + 1) graph (orders graph)
  some (lookup (exec_graph_id id) (get_hash_strings hex hashes))
