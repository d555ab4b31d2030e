-- ===== src/App/Incorporate/Nodes.antt =====
-- app/graph.go: what GetNodeByGraphID returns.
use skyhookml.Prelude.{
  lookup, ◌==◌, nat_eq, text_eq, pair_eq, ◌≡◌, sym, ap, inl, inr, true, false, some, [], arith,
  Bool-cases, Option-cases,
}
use skyhookml.Graph.Node.{
  GraphId, graph_id_eq, Node, exec, VirtualNode, graph_id, exec_kind, dataset_kind,
}
use skyhookml.App.Incorporate.{Database, checked_node, get_node_by_graph_id}

checked_node-exec :
    (id : GraphId) (vn : VirtualNode) (node : Node)
    → checked_node id vn ≡ some node
    → (node ≡ exec vn) × (vn.orig_node.id ≡ id.id)
unfolding checked_node graph_id
checked_node-exec id vn node e = elim (Bool-cases (id == graph_id (exec vn))) [
  | inl same ↦
      let id≡ = (graph_id_eq.test_iff id (graph_id (exec vn))).0 same in
      let node≡ : some (exec vn) ≡ some node = rw same at e in
      let node≡' : exec vn ≡ node = cc in (sym node≡', sym (ap (λ i. i.id) id≡))
  | inr other ↦ absurd (ground (arith, e, other))
]

-- A node that is not a dataset is configured in the database.
pub get_node_by_graph_id-exec :
    (db : Database) (id : GraphId) (node : Node)
    → get_node_by_graph_id db id ≡ some node
    → (id.kind == dataset_kind) ≡ false
    → ((id.virtual_key == []) ≡ true)
      × (vnode : VirtualNode) × (node ≡ exec vnode)
      × (vnode.orig_node.id ≡ id.id)
unfolding get_node_by_graph_id
get_node_by_graph_id-exec db id node e other = elim (Bool-cases (id.kind == exec_kind)) [
  | inr neither ↦ absurd (ground (arith, e, other, neither))
  | inl is_exec ↦ elim (Bool-cases (id.virtual_key == [])) [
    | inr virtual ↦ absurd (ground (arith, e, is_exec, virtual))
    | inl concrete ↦ elim (Option-cases (lookup id.id db.exec_nodes)) [
      | inl missing ↦ absurd (ground (arith, e, is_exec, concrete, missing))
      | inr (exec_node, found) ↦
          let e' : checked_node id (db.virtualized exec_node) ≡ some node =
            ground (arith, e, is_exec, concrete, found) in
          let (node≡, id≡) = checked_node-exec id (db.virtualized exec_node) node e' in
          (concrete, db.virtualized exec_node, node≡, id≡)
    ]
  ]
]
