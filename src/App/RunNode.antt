-- ===== src/App/RunNode.antt =====
-- app/graph.go: RunNode. What the database answers, what the ops do and how Go orders its maps are
-- arguments, which may depend on the runs so far; so is whether a run succeeds. `none` is a panic of the
-- source, or a loop that needs more rounds than the fuel gives. The updates of MultiExecJobOp's plan and
-- the logs are left out.
pub mod Needed
pub mod Search
pub mod Visit
pub mod Plan
pub mod Rounds
pub mod Result
mod Tests
pub mod Whole
pub mod Populate
use skyhookml.Prelude.{
  Dict, lookup, insert, remove, keys, contains, ◌==◌, Text, nat_eq, text_eq, pair_eq, ℕ, zero, suc,
  Bool, true, false, ◌&&◌, ◌||◌, Option, none, some, List, [], ◌∷◌, ◌++◌, ltb, if◌then◌else◌, ◌>>=◌,
  length,
}
use skyhookml.Item.{Dataset}
use skyhookml.Graph.Node.{
  GraphId, graph_id_eq, Node, exec, dataset, VirtualNode, VirtualParent, Runnable, get_runnable,
  dataset_kind,
}
use skyhookml.Graph.Hash.{ExecutionGraph}
use skyhookml.App.Incorporate.{Database, incorporate_into_graph}

pub record RunNodeOptions : Type 0 where
  pub force : Bool
  pub no_run_tree : Bool

-- The output datasets of a node by name; a dataset is its own output, of the empty name.
abbrev pub Outputs : Type 0
Outputs = Dict Text Dataset

abbrev pub Inputs : Type 0
Inputs = Dict Text (List Dataset)

-- A run that succeeded.
pub record Run : Type 0 where
  pub id : GraphId
  pub node : VirtualNode
  pub runnable : Runnable

-- The variables of RunNode, and the runs so far, the latest first.
pub record State : Type 0 where
  pub graph : ExecutionGraph
  pub ready : Dict GraphId Outputs
  pub missing : Dict GraphId Node
  pub needed : Dict GraphId Node
  -- The keys of dbExecNodes.
  pub exec_nodes : List ℕ
  pub history : List Run

pub record Outside : Type 0 where
  pub db : Database
  -- GetDataset.
  pub get_dataset : ℕ → Dataset
  -- The column `done` of a dataset.
  pub is_dataset_done : List Run → Dataset → Bool
  -- GetDatasets(false), where all of them exist, of the node with an id.
  pub get_datasets : List Run → ℕ → Option Outputs
  -- GetDatasets(true).
  pub create_datasets : List Run → ℕ → Outputs
  pub get_virtual_datasets : List Run → VirtualNode → Outputs
  -- The subgraph, if any, and the node, which the op may have changed in place.
  pub resolve : List Run → VirtualNode → Inputs → Option (VirtualNode × ExecutionGraph)
  -- The error of GetTasks or else of RunData.Run.
  pub run : List Run → Runnable → Option Text
  -- The orders in which Go ranges over `graph` and, in a round of the outer loop, over `needed`.
  pub range_graph : State → List (GraphId × Node)
  pub range_needed : ℕ → State → List (GraphId × Node)

-- `node.(*skyhook.VirtualNode)`
pub virtual_node : Node → Option VirtualNode
virtual_node (exec node) = some node
virtual_node (dataset ds) = none

-- The ids over which the loops over `vnode.Parents` go.
abbrev pub list_ids : List VirtualParent → List GraphId
list_ids [] = []
list_ids (p ∷ plist) = p.graph_id ∷ list_ids plist

abbrev pub parent_ids : Dict Text (List VirtualParent) → List GraphId
parent_ids [] = []
parent_ids ((name, plist) ∷ parents) = list_ids plist ++ parent_ids parents

-- The dependencies that are missing and not yet needed.
pub add_missing :
    Dict GraphId Node
    → List GraphId
    → Dict GraphId Node
    → List GraphId
    → Dict GraphId Node × List GraphId
add_missing missing [] needed q = (needed, q)
add_missing missing (p ∷ parents) needed q = elim (lookup p missing) [
  | none ↦ add_missing missing parents needed q
  | some node ↦ elim (lookup p needed) [
    | some old ↦ add_missing missing parents needed q
    | none ↦ add_missing missing parents (insert p node needed) (p ∷ q)
  ]
]

pub search_needed :
    ℕ → Dict GraphId Node → List GraphId → Dict GraphId Node → Option (Dict GraphId Node)
search_needed zero missing q needed = none
search_needed (suc fuel) missing [] needed = some needed
search_needed (suc fuel) missing (cur ∷ q) needed = do
  node ← lookup cur needed
  vnode ← virtual_node node
  let (needed', q') = add_missing missing (parent_ids vnode.parents) needed q in
      search_needed fuel missing q' needed'

pub recompute_needed : ℕ → GraphId → State → Option State
recompute_needed fuel target s = elim (lookup target s.missing) [
  | none ↦ some s
  | some node ↦ do
    needed ← search_needed fuel s.missing (target ∷ []) ((target, node) ∷ [])
    some (record s { needed = needed })
]

module _ (o : Outside) where
  -- DBExecNode.IsDone, and the test of a virtual node's datasets.
  pub all_done : List Run → Outputs → Bool
  all_done history [] = true
  all_done history ((name, ds) ∷ outputs) = o.is_dataset_done history ds && all_done history outputs

  pub is_done : List Run → ℕ → Bool
  is_done history id = elim (o.get_datasets history id) [
    | none ↦ false
    | some datasets ↦ all_done history datasets
  ]

  pub set_ready : GraphId → Outputs → State → State
  set_ready id outputs s = record s { ready = insert id outputs s.ready }

  pub set_missing : GraphId → Node → State → State
  set_missing id node s = record s { missing = insert id node s.missing }

  -- By whether the node is done; it is a panic if it is done and lacks a dataset.
  pub place_exec : GraphId → Node → (done : Bool) → Option Outputs → State → Option State
  place_exec id node false datasets s = some (set_missing id node s)
  place_exec id node true none s = none
  place_exec id node true (some datasets) s = some (set_ready id datasets s)

  -- A node that is configured in the database.
  pub populate_exec : GraphId → Node → State → Option State
  populate_exec id node s =
      place_exec id node (is_done s.history id.id) (o.get_datasets s.history id.id)
        (record s { exec_nodes = id.id ∷ s.exec_nodes })

  pub populate_virtual : GraphId → Node → State → Option State
  populate_virtual id node s =
      if contains s.exec_nodes id.id
      then (do
        vnode ← virtual_node node
        let datasets = o.get_virtual_datasets s.history vnode in
            some (
              if all_done s.history datasets
              then set_ready id datasets s
              else set_missing id node s))
      else none

  pub populate_node : GraphId → Node → State → Option State
  populate_node id node s =
      if contains (keys s.ready) id || contains (keys s.missing) id
      then some s
      else if id.kind == dataset_kind
      then some (set_ready id (([], o.get_dataset id.id) ∷ []) s)
      else if id.virtual_key == []
      then populate_exec id node s
      else populate_virtual id node s

  pub populate_nodes : List (GraphId × Node) → State → Option State
  populate_nodes [] s = some s
  populate_nodes ((id, node) ∷ order) s = do s' ← populate_node id node s; populate_nodes order s'

  pub populate_ready_missing : ℕ → GraphId → State → Option State
  populate_ready_missing fuel target s = do
    s' ← populate_nodes (o.range_graph s) s
    recompute_needed fuel target s'

pub set_node : GraphId → Node → Dict GraphId Node → Dict GraphId Node
set_node id node m = if contains (keys m) id then insert id node m else m

-- Whether all parents are ready.
pub available : Dict GraphId Outputs → List GraphId → Bool
available ready [] = true
available ready (p ∷ parents) = contains (keys ready) p && available ready parents

-- The datasets of an input's parents; `none` is a nil pointer.
pub list_datasets : Dict GraphId Outputs → List VirtualParent → Option (List Dataset)
list_datasets ready [] = some []
list_datasets ready (p ∷ plist) = do
  outputs ← lookup p.graph_id ready
  ds ← lookup p.name outputs
  dslist ← list_datasets ready plist
  some (ds ∷ dslist)

pub parent_datasets : Dict GraphId Outputs → Dict Text (List VirtualParent) → Option Inputs
parent_datasets ready [] = some []
parent_datasets ready ((name, plist) ∷ parents) = do
  dslist ← list_datasets ready plist
  inputs ← parent_datasets ready parents
  some ((name, dslist) ∷ inputs)

-- What an iteration ends with: the state to go on from, or the error that RunNode returns.
pub data Step : Type 0 where
  ok : State → Step
  failed : (err : Text) → State → Step

-- After a run.
pub after_run : Option Text → Run → Outputs → State → Step
after_run (some err) run outputs s = failed err s
after_run none run outputs s = ok (record s {
  ready = insert run.id outputs s.ready;
  needed = remove run.id s.needed;
  history = run ∷ s.history;
})

module _ (o : Outside) where
  -- The output datasets, which are created if need be.
  pub created_datasets : List Run → VirtualNode → Outputs
  created_datasets history vnode =
      if vnode.virtual_key == []
      then o.create_datasets history vnode.orig_node.id
      else o.get_virtual_datasets history vnode

  pub output_datasets : VirtualNode → State → Option Outputs
  output_datasets vnode s =
      if contains s.exec_nodes vnode.orig_node.id
      then some (created_datasets s.history vnode)
      else none

  -- `none` of the inputs is a nil pointer.
  pub execute : GraphId → VirtualNode → Inputs → State → Option Step
  execute id vnode inputs s = do
    outputs ← output_datasets vnode s
    let runnable = get_runnable vnode inputs outputs in
        some (
          after_run (o.run s.history runnable)
            (record { id = id; node = vnode; runnable = runnable }) outputs s)

  -- The op has changed the node in place, to which the maps point, and replaces it by a subgraph.
  pub expand : ℕ → GraphId → GraphId → VirtualNode → ExecutionGraph → State → Option Step
  expand fuel target id vnode subgraph s = do
    graph ← incorporate_into_graph o.db fuel s.graph subgraph
    s' ← populate_ready_missing o fuel target (record s {
      graph = graph;
      missing = set_node id (exec vnode) s.missing;
      needed = set_node id (exec vnode) s.needed;
    })
    some (ok s')

  pub visit : ℕ → GraphId → GraphId → Node → State → Option Step
  visit fuel target id cur s = do
    vnode ← virtual_node cur
    if available s.ready (parent_ids vnode.parents)
        then (do
          inputs ← parent_datasets s.ready vnode.parents
          elim (o.resolve s.history vnode inputs) [
            | some (vnode', subgraph) ↦ expand fuel target id vnode' subgraph s
            | none ↦ execute id vnode inputs s
          ])
        else some (ok s)

  -- `for id, cur := range needed`
  pub round : ℕ → GraphId → List (GraphId × Node) → State → Option Step
  round fuel target [] s = some (ok s)
  round fuel target ((id, cur) ∷ order) s = do
    step ← visit fuel target id cur s
    elim step [ failed err s' ↦ some (failed err s') | ok s' ↦ round fuel target order s' ]

  pub rounds : ℕ → ℕ → GraphId → State → Option Step
  rounds zero fuel target s = none
  rounds (suc n) fuel target s =
      if ltb 0 (length s.needed)
      then (do
        step ← round fuel target (o.range_needed n s) s
        elim step [ failed err s' ↦ some (failed err s') | ok s' ↦ rounds n fuel target s' ])
      else some (ok s)
