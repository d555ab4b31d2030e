-- ===== src/App/RunNode/Populate.antt =====
-- app/graph.go: populateReadyMissing on a graph of nodes that are configured in the database.
use skyhookml.Prelude.{
  lookup, keys, contains, lookup-insert, contains-keys-insert, keys-lookup, lookup-keys, ◌==◌,
  nat_eq, text_eq, pair_eq, ◌≡◌, refl, sym, ap, subst, ◌∙◌, ◌⊎◌, inl, inr, Bool, true, false, ◌||◌,
  Option, none, some, List, [], ◌∷◌, arith, Bool-cases,
}
use skyhookml.Graph.Node.{GraphId, graph_id_eq, Node, exec, VirtualNode, dataset_kind}
use skyhookml.Graph.Hash.{ExecutionGraph}
use skyhookml.Graph.Hash.Rounds.{AllIn}
use skyhookml.Graph.Hash.Order.{IsOrder}
use skyhookml.App.Incorporate.{get_node_by_graph_id}
use skyhookml.App.Incorporate.Nodes.{get_node_by_graph_id-exec}
use skyhookml.App.RunNode.{
  Outputs, State, Outside, all_done, set_ready, set_missing, place_exec, populate_exec,
  populate_node, populate_nodes, is_done,
}

-- Where the outputs that are ready at first are from.
abbrev pub IsSource : Outside → GraphId → Outputs → Type 0
IsSource o id outputs =
    (((id.kind == dataset_kind) ≡ true) × (outputs ≡ ([], o.get_dataset id.id) ∷ []))
    ⊎ (((id.kind == dataset_kind) ≡ false)
        × (o.get_datasets [] id.id ≡ some outputs)
        × (all_done o [] outputs ≡ true))

-- What holds while the graph is gone through.
pub record IsPopulated (o : Outside) (graph : ExecutionGraph) (s : State) : Type 0 where
  pub missing_from :
      (id : GraphId) (node : Node)
      → lookup id s.missing ≡ some node
      → (lookup id graph ≡ some node)
        × (vnode : VirtualNode) × (node ≡ exec vnode)
        × (contains s.exec_nodes vnode.orig_node.id ≡ true)
        × (is_done o [] id.id ≡ false)
  pub ready_from :
      (id : GraphId) (outputs : Outputs) → lookup id s.ready ≡ some outputs → IsSource o id outputs
  pub fresh : s.history ≡ []

-- The ids that are ready or missing stay so.
abbrev pub IsKept : State → State → Type 0
IsKept s t =
    (id : GraphId)
    → (contains (keys s.ready) id || contains (keys s.missing) id) ≡ true
    → (contains (keys t.ready) id || contains (keys t.missing) id) ≡ true

module _ (o : Outside) (graph : ExecutionGraph) where
  set_ready-IsPopulated :
      (id : GraphId) (outputs : Outputs) (s : State)
      → IsPopulated o graph s
      → IsSource o id outputs
      → IsPopulated o graph (set_ready o id outputs s)
        × IsKept s (set_ready o id outputs s)
        × (contains (keys (set_ready o id outputs s).ready) id ≡ true)
  unfolding set_ready
  set_ready-IsPopulated id outputs s p from = (
    record {
      missing_from = p.missing_from;
      ready_from = λ j outs e. elim (Bool-cases (id == j)) [
        | inr other ↦ p.ready_from j outs (ground (arith, lookup-insert id j outputs s.ready))
        | inl same ↦
            let outs≡ : outputs ≡ outs = ground (arith, lookup-insert id j outputs s.ready) in
            subst (λ i. IsSource o i outs) ((graph_id_eq.test_iff id j).0 same)
              (subst (IsSource o id) outs≡ from)
      ];
      fresh = p.fresh;
    },
    λ j c. ground (arith, c, contains-keys-insert id j outputs s.ready),
    ground (arith, contains-keys-insert id id outputs s.ready, graph_id_eq.test_iff id id),
  )

  set_missing-IsPopulated :
      (id : GraphId) (node : Node) (vnode : VirtualNode) (s : State)
      → IsPopulated o graph s
      → lookup id graph ≡ some node
      → node ≡ exec vnode
      → contains s.exec_nodes vnode.orig_node.id ≡ true
      → is_done o [] id.id ≡ false
      → IsPopulated o graph (set_missing o id node s)
        × IsKept s (set_missing o id node s)
        × (contains (keys (set_missing o id node s).missing) id ≡ true)
  unfolding set_missing
  set_missing-IsPopulated id node vnode s p found node≡ loaded waits = (
    record {
      missing_from = λ j n e. elim (Bool-cases (id == j)) [
        | inr other ↦ p.missing_from j n (ground (arith, lookup-insert id j node s.missing))
        | inl same ↦
            let n≡ : node ≡ n = ground (arith, lookup-insert id j node s.missing) in
            let id≡ = (graph_id_eq.test_iff id j).0 same in
            (
              ap (λ i. lookup i graph) (sym id≡) ∙ found ∙ ap some n≡,
              vnode,
              sym n≡ ∙ node≡,
              loaded,
              subst (λ i. is_done o [] i.id ≡ false) id≡ waits,
            )
      ];
      ready_from = p.ready_from;
      fresh = p.fresh;
    },
    λ j c. ground (arith, c, contains-keys-insert id j node s.missing),
    ground (arith, contains-keys-insert id id node s.missing, graph_id_eq.test_iff id id),
  )

  load : GraphId → State → State
  load id s = record s { exec_nodes = id.id ∷ s.exec_nodes }

  load-IsPopulated :
      (id : GraphId) (s : State) → IsPopulated o graph s → IsPopulated o graph (load id s)
  unfolding load
  load-IsPopulated id s p = record {
    missing_from = λ j n e.
        let (found, vnode, node≡, loaded, waits) = p.missing_from j n e in
        (found, vnode, node≡, ground (arith, loaded), waits);
    ready_from = p.ready_from;
    fresh = p.fresh;
  }

  -- What a step does.
  abbrev Populates : GraphId → Option State → State → Type 0
  Populates id step s =
      (t : State) × (step ≡ some t)
      × IsPopulated o graph t
      × IsKept s t
      × ((contains (keys t.ready) id || contains (keys t.missing) id) ≡ true)

  place_exec-Populates :
      (id : GraphId) (node : Node) (vnode : VirtualNode) (done : Bool) (datasets : Option Outputs)
      (s : State)
      → IsPopulated o graph s
      → lookup id graph ≡ some node
      → node ≡ exec vnode
      → contains s.exec_nodes vnode.orig_node.id ≡ true
      → (id.kind == dataset_kind) ≡ false
      → o.get_datasets [] id.id ≡ datasets
      → is_done o [] id.id ≡ done
      → Populates id (place_exec o id node done datasets s) s
  unfolding place_exec is_done
  place_exec-Populates id node vnode false datasets s p found node≡ loaded is_exec e not_done =
      let (pm, km, cm) = set_missing-IsPopulated id node vnode s p found node≡ loaded not_done in
      (set_missing o id node s, refl, pm, km, ground (arith, cm))
  place_exec-Populates id node vnode true none s p found node≡ loaded is_exec e done =
      let clash : false ≡ true = rw (e, is_done) at done in absurd cc
  place_exec-Populates id node vnode true (some datasets) s p found node≡ loaded is_exec e done =
      let all : all_done o [] datasets ≡ true = rw (e, is_done) at done in
      let (pr, kr, cr) = set_ready-IsPopulated id datasets s p (inr (is_exec, e, all)) in
      (set_ready o id datasets s, refl, pr, kr, ground (arith, cr))

  populate_exec-Populates :
      (id : GraphId) (node : Node) (vnode : VirtualNode) (s : State)
      → IsPopulated o graph s
      → lookup id graph ≡ some node
      → node ≡ exec vnode
      → vnode.orig_node.id ≡ id.id
      → (id.kind == dataset_kind) ≡ false
      → Populates id (populate_exec o id node s) s
  unfolding populate_exec load
  populate_exec-Populates id node vnode s p found node≡ id≡ is_exec =
      let loaded : contains (load id s).exec_nodes vnode.orig_node.id ≡ true =
        ground (arith, id≡, nat_eq.test_iff id.id vnode.orig_node.id) in
      place_exec-Populates id node vnode (is_done o s.history id.id)
        (o.get_datasets s.history id.id) (load id s) (load-IsPopulated id s p) found node≡ loaded
        is_exec (ap (λ h. o.get_datasets h id.id) (sym p.fresh))
        (ap (λ h. is_done o h id.id) (sym p.fresh))

  populate_node-Populates :
      (id : GraphId) (node : Node) (s : State)
      → IsPopulated o graph s
      → lookup id graph ≡ some node
      → get_node_by_graph_id o.db id ≡ some node
      → Populates id (populate_node o id node s) s
  unfolding populate_node
  populate_node-Populates id node s p found from =
      elim (Bool-cases (contains (keys s.ready) id || contains (keys s.missing) id)) [
        | inl seen ↦ (s, rw seen refl, p, λ j c. c, seen)
        | inr unseen ↦ elim (Bool-cases (id.kind == dataset_kind)) [
          | inl is_dataset ↦
              let (pr, kr, cr) =
                set_ready-IsPopulated id (([], o.get_dataset id.id) ∷ []) s p
                  (inl (is_dataset, refl)) in
              (
                set_ready o id (([], o.get_dataset id.id) ∷ []) s,
                rw (unseen, is_dataset) refl,
                pr,
                kr,
                ground (arith, cr),
              )
          | inr is_exec ↦
              let (concrete, vnode, node≡, id≡) =
                get_node_by_graph_id-exec o.db id node from is_exec in
              let (t, run, populated, kept, seen) =
                populate_exec-Populates id node vnode s p found node≡ id≡ is_exec in
              (t, rw (unseen, is_exec, concrete) run, populated, kept, seen)
        ]
      ]

  -- After the loop every node of the order is ready or missing.
  pub populate_nodes-IsPopulated :
      (order : List (GraphId × Node)) (s : State)
      → IsPopulated o graph s
      → AllIn graph order
      → ((id : GraphId) (node : Node)
          → lookup id graph ≡ some node
          → get_node_by_graph_id o.db id ≡ some node)
      → (t : State) × (populate_nodes o order s ≡ some t)
        × IsPopulated o graph t
        × IsKept s t
        × ((id : GraphId)
            → contains (keys order) id ≡ true
            → (contains (keys t.ready) id || contains (keys t.missing) id) ≡ true)
  unfolding populate_nodes
  populate_nodes-IsPopulated [] s p all from = (s, refl, p, λ id c. c, λ id c. cc)
  populate_nodes-IsPopulated ((id, node) ∷ order) s p all from =
      let (t, run, p', kept, seen) =
        populate_node-Populates id node s p all.0 (from id node all.0) in
      let (end, rest, p'', kept', seen') = populate_nodes-IsPopulated order t p' all.1 from in
      (
        end,
        rw run rest,
        p'',
        λ j c. kept' j (kept j c),
        λ j c. elim (Bool-cases (id == j)) [
          | inr other ↦ seen' j (ground (arith, c, other))
          | inl same ↦
              subst (λ i. (contains (keys end.ready) i || contains (keys end.missing) i) ≡ true)
                ((graph_id_eq.test_iff id j).0 same) (kept' id seen)
        ],
      )

  -- Whatever the order in which Go ranges over a graph of the database's nodes, from a state in
  -- which nothing is ready, missing or run, the loop of populateReadyMissing does not panic. A
  -- node of the graph is then ready, with the dataset itself or with outputs that exist and are
  -- done, or it is missing, and can be run and is not done.
  pub populate_nodes_lem :
      (order : List (GraphId × Node)) (s : State) (id : GraphId) (node : Node)
      → s.ready ≡ []
      → s.missing ≡ []
      → s.history ≡ []
      → IsOrder graph order
      → ((i : GraphId) (n : Node) → lookup i graph ≡ some n → get_node_by_graph_id o.db i ≡ some n)
      → lookup id graph ≡ some node
      → (t : State) × (populate_nodes o order s ≡ some t)
        × (((outputs : Outputs) × (lookup id t.ready ≡ some outputs) × IsSource o id outputs)
            ⊎ ((vnode : VirtualNode) × (lookup id t.missing ≡ some node)
                × (node ≡ exec vnode)
                × (contains t.exec_nodes vnode.orig_node.id ≡ true)
                × (is_done o [] id.id ≡ false)))
  populate_nodes_lem order s id node ready missing history range from found =
      let start : IsPopulated o graph s = record {
        missing_from = λ i n e. absurd (no_entry n (ap (lookup i) (sym missing) ∙ e));
        ready_from = λ i outs e. absurd (no_outputs outs (ap (lookup i) (sym ready) ∙ e));
        fresh = history;
      } in
      let (t, run, p, kept, seen) = populate_nodes-IsPopulated order s start range.0 from in
      (
        t,
        run,
        elim (Bool-cases (contains (keys t.ready) id)) [
          | inl is_ready ↦
              let (outputs, e) = keys-lookup id t.ready is_ready in
              inl (outputs, e, p.ready_from id outputs e)
          | inr not_ready ↦
              let both = seen id (range.1 id (lookup-keys id graph node found)) in
              let (n, e) = keys-lookup id t.missing (ground (arith, both, not_ready)) in
              let (in_graph, vnode, n≡, loaded, waits) = p.missing_from id n e in
              let node≡ : some n ≡ some node = sym in_graph ∙ found in
              let node≡' : n ≡ node = cc in inr (vnode, e ∙ node≡, sym node≡' ∙ n≡, loaded, waits)
        ],
      )
    where
      no_entry : (n : Node) → none ≡ some n → ⊥
      no_entry n e = cc

      no_outputs : (outs : Outputs) → none ≡ some outs → ⊥
      no_outputs outs e = cc
