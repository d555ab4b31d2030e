-- ===== src/App/RunNode/Tests.antt =====
-- Two nodes to be run, one of which reads the other's output, and a dataset that is ready.
use skyhookml.Prelude.{
  Dict, lookup, keys, contains, Distinct, ◌==◌, Text, codes, nat_eq, text_eq, pair_eq, ℕ, ◌<◌, ◌≡◌,
  refl, sym, ap, subst, ◌∙◌, ◌⊎◌, inl, inr, true, false, ◌||◌, none, some, List, [], ◌∷◌, ◌++◌,
  arith, Bool-cases,
}
use skyhookml.Item.{Dataset, int}
use skyhookml.Graph.Node.{
  graph_id, dataset, GraphId, graph_id_eq, graph_id_beq, Node, exec, ExecNode, VirtualNode,
  virtualize, exec_kind, dataset_kind,
}
use skyhookml.Graph.Hash.Order.{Distinct-AllIn}
use skyhookml.Graph.Hash.{ExecutionGraph}
use skyhookml.App.Incorporate.{checked_node, get_node_by_graph_id}
use skyhookml.App.RunNode.Populate.{IsSource, populate_nodes_lem}
use skyhookml.App.RunNode.Visit.{IsOffered, HasNames, all_parents}
use skyhookml.App.RunNode.{
  parent_ids, Run, State, Outside, created_datasets, recompute_needed, rounds, ok, failed,
  populate_nodes, Outputs, is_done,
}
use skyhookml.App.RunNode.Search.{Depends, AllExec, recompute_needed_lem}
use skyhookml.App.RunNode.Plan.{run_ids, AllNeeded, InOrder, IsPlan}
use skyhookml.App.RunNode.Rounds.{Failure}
use skyhookml.App.RunNode.Result.{rounds_lem}

abbrev photos : Dataset
photos = record {
  id = 3;
  name = codes "photos";
  kind = codes "data";
  data_type = int;
  metadata = [];
  hash = none;
}

abbrev configured : ℕ → Text → ExecNode
configured id name = record { id = id; name = name; op = codes "op"; params = []; parents = [] }

abbrev photos_id : GraphId
photos_id = record { kind = dataset_kind; id = 3; virtual_key = [] }

abbrev detect_id : GraphId
detect_id = record { kind = exec_kind; id = 5; virtual_key = [] }

abbrev count_id : GraphId
count_id = record { kind = exec_kind; id = 6; virtual_key = [] }

abbrev detect : VirtualNode
detect = record {
  name = codes "detect";
  op = codes "op";
  params = [];
  parents = (codes "in", record { graph_id = photos_id; name = []; data_type = int } ∷ []) ∷ [];
  orig_node = configured 5 (codes "detect");
  virtual_key = [];
}

abbrev count : VirtualNode
count = record {
  name = codes "count";
  op = codes "op";
  params = [];
  parents =
      (codes "in", record { graph_id = detect_id; name = codes "out"; data_type = int } ∷ []) ∷ [];
  orig_node = configured 6 (codes "count");
  virtual_key = [];
}

abbrev waiting : Dict GraphId Node
waiting = (count_id, exec count) ∷ (detect_id, exec detect) ∷ []

abbrev start : State
start = record {
  graph = [];
  ready = (photos_id, ([], photos) ∷ []) ∷ [];
  missing = waiting;
  needed = waiting;
  exec_nodes = 5 ∷ 6 ∷ [];
  history = [];
}

abbrev outside : Outside
outside = record {
  db = record { exec_nodes = []; datasets = []; virtualized = virtualize };
  get_dataset = λ id. photos;
  is_dataset_done = λ history ds. false;
  get_datasets = λ history id. none;
  create_datasets = λ history id. (codes "out", photos) ∷ [];
  get_virtual_datasets = λ history node. [];
  resolve = λ history node inputs. none;
  run = λ history runnable. none;
  range_graph = λ s. s.graph;
  range_needed = λ n s. s.needed;
}

abbrev rank : GraphId → ℕ
rank id = id.id

waiting_cases :
    (id : GraphId) (node : Node)
    → lookup id waiting ≡ some node
    → ((id ≡ count_id) × (node ≡ exec count)) ⊎ ((id ≡ detect_id) × (node ≡ exec detect))
waiting_cases id node e = elim (Bool-cases (count_id == id)) [
  | inl same ↦ inl (sym ((graph_id_eq.test_iff count_id id).0 same), ground (arith, e, same))
  | inr other ↦ elim (Bool-cases (detect_id == id)) [
    | inl same ↦
        inr (sym ((graph_id_eq.test_iff detect_id id).0 same), ground (arith, e, same, other))
    | inr neither ↦ absurd (ground (arith, e, other, neither))
  ]
]

waiting-AllExec : AllExec waiting
waiting-AllExec id node e = elim (waiting_cases id node e) [
  | inl (i, n) ↦ (count, n)
  | inr (i, n) ↦ (detect, n)
]

exec_inj : (v w : VirtualNode) → exec v ≡ exec w → v ≡ w
exec_inj v w e = cc

-- What holds of both nodes.
for_both {ℓ} :
    (P : GraphId → VirtualNode → Type ℓ) (id : GraphId) (vnode : VirtualNode)
    → P count_id count
    → P detect_id detect
    → lookup id waiting ≡ some (exec vnode)
    → P id vnode
for_both P id vnode p q e = elim (waiting_cases id (exec vnode) e) [
  | inl (i, n) ↦ rw (i, exec_inj vnode count n) p
  | inr (i, n) ↦ rw (i, exec_inj vnode detect n) q
]

one_parent : (q p : GraphId) (P : GraphId → Type 0) → P q → contains (q ∷ []) p ≡ true → P p
one_parent q p P at c = subst P ((graph_id_eq.test_iff q p).0 (ground (arith, c))) at

start-IsPlan : IsPlan outside rank start
unfolding graph_id_eq graph_id_beq text_eq nat_eq created_datasets
start-IsPlan = record {
  execs = waiting-AllExec;
  distinct = (refl, (refl, tt));
  loaded = λ id v e. for_both (λ i w. contains (5 ∷ 6 ∷ []) w.orig_node.id ≡ true) id v refl refl e;
  closed = λ id p v e c.
      for_both
        (λ i w.
          contains (parent_ids w.parents) p ≡ true
          → (contains (keys start.ready) p || contains (keys waiting) p) ≡ true)
        id v
        (one_parent detect_id p
          (λ q. (contains (keys start.ready) q || contains (keys waiting) q) ≡ true) refl)
        (one_parent photos_id p
          (λ q. (contains (keys start.ready) q || contains (keys waiting) q) ≡ true) refl)
        e c;
  ranked = λ id p v e c.
      for_both (λ i w. contains (parent_ids w.parents) p ≡ true → rank p < rank i) id v
        (one_parent detect_id p (λ q. rank q < 6) (omega arith))
        (one_parent photos_id p (λ q. rank q < 5) (omega arith)) e c;
  offered = λ id v e.
      for_both (λ i w. IsOffered start.ready (all_parents w.parents)) id v (λ outs f. cc, tt)
        (λ outs f. ground (arith, f), tt) e;
  named = λ id child v w h e f.
      for_both (λ i x. HasNames i (created_datasets outside h x) (all_parents w.parents)) id v
        (for_both (λ i x. HasNames count_id ((codes "out", photos) ∷ []) (all_parents x.parents))
          child w (λ same. refl, tt) (λ same. cc, tt) f)
        (for_both (λ i x. HasNames detect_id ((codes "out", photos) ∷ []) (all_parents x.parents))
          child w (λ same. refl, tt) (λ same. cc, tt) f)
        e;
}

rounds_lem_example :
    (runs : List Run) × (t : State) × (t.history ≡ runs ++ [])
    × AllNeeded start.needed runs
    × Distinct (run_ids runs)
    × InOrder start.ready runs
    × (((err : Text) × (rounds outside 3 9 count_id start ≡ some (failed err t))
          × Failure outside t err)
        ⊎ ((rounds outside 3 9 count_id start ≡ some (ok t))
            × (contains (run_ids runs) detect_id ≡ contains (keys start.needed) detect_id)))
rounds_lem_example =
    rounds_lem outside rank start start-IsPlan (λ history v inputs. refl)
      (λ n t d. ((Distinct-AllIn t.needed d, λ id c. c), d)) 9 count_id 3 detect_id (omega arith)

count-waiting : lookup count_id waiting ≡ some (exec count)
unfolding graph_id_eq graph_id_beq text_eq nat_eq
count-waiting = refl

recompute_needed_lem_example :
    (needed : Dict GraphId Node) × (recompute_needed 5 count_id start
      ≡ some (record start { needed = needed }))
    × ((Depends waiting count_id detect_id × (lookup detect_id needed ≡ lookup detect_id waiting))
        ⊎ ((¬ Depends waiting count_id detect_id) × (lookup detect_id needed ≡ none)))
recompute_needed_lem_example =
    recompute_needed_lem 5 count_id detect_id (exec count) start waiting-AllExec count-waiting
      (omega arith)

-- A database with the node and the dataset that it reads.
abbrev stored : Outside
stored = record outside {
  db = record {
    exec_nodes = (5, configured 5 (codes "detect")) ∷ [];
    datasets = (3, photos) ∷ [];
    virtualized = λ node. detect;
  };
}

abbrev start_graph : ExecutionGraph
start_graph = (detect_id, exec detect) ∷ (photos_id, dataset photos) ∷ []

abbrev empty : State
empty = record {
  graph = start_graph;
  ready = [];
  missing = [];
  needed = [];
  exec_nodes = [];
  history = [];
}

detect-stored : get_node_by_graph_id stored.db detect_id ≡ some (exec detect)
unfolding get_node_by_graph_id checked_node graph_id graph_id_eq graph_id_beq text_eq nat_eq
detect-stored = refl

photos-stored : get_node_by_graph_id stored.db photos_id ≡ some (dataset photos)
unfolding get_node_by_graph_id text_eq nat_eq
photos-stored = refl

start_graph-stored :
    (id : GraphId) (node : Node)
    → lookup id start_graph ≡ some node
    → get_node_by_graph_id stored.db id ≡ some node
start_graph-stored id node e = elim (Bool-cases (detect_id == id)) [
  | inl same ↦
      let node≡ : exec detect ≡ node = ground (arith, e, same) in
      ap (get_node_by_graph_id stored.db) (sym ((graph_id_eq.test_iff detect_id id).0 same))
      ∙ detect-stored
      ∙ ap some node≡
  | inr other ↦ elim (Bool-cases (photos_id == id)) [
    | inl same ↦
        let node≡ : dataset photos ≡ node = ground (arith, e, same, other) in
        ap (get_node_by_graph_id stored.db) (sym ((graph_id_eq.test_iff photos_id id).0 same))
        ∙ photos-stored
        ∙ ap some node≡
    | inr neither ↦ absurd (ground (arith, e, other, neither))
  ]
]

start_graph-Distinct : Distinct (keys start_graph)
unfolding graph_id_eq graph_id_beq text_eq nat_eq
start_graph-Distinct = (refl, (refl, tt))

detect_found : lookup detect_id start_graph ≡ some (exec detect)
unfolding graph_id_eq graph_id_beq text_eq nat_eq
detect_found = refl

populate_nodes_lem_example :
    (t : State) × (populate_nodes stored start_graph empty ≡ some t)
    × (((outputs : Outputs) × (lookup detect_id t.ready ≡ some outputs)
          × IsSource stored detect_id outputs)
        ⊎ ((vnode : VirtualNode) × (lookup detect_id t.missing ≡ some (exec detect))
            × (exec detect ≡ exec vnode)
            × (contains t.exec_nodes vnode.orig_node.id ≡ true)
            × (is_done stored [] detect_id.id ≡ false)))
populate_nodes_lem_example =
    populate_nodes_lem stored start_graph start_graph empty detect_id (exec detect) refl refl refl
      (Distinct-AllIn start_graph start_graph-Distinct, λ id c. c) start_graph-stored detect_found
