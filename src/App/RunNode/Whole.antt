-- ===== src/App/RunNode/Whole.antt =====
-- app/graph.go: the check of RunNode for other jobs that run the same nodes, and RunNode as a whole. The lists
-- of ids that the other pending jobs have in their metadata are an argument.
pub mod Conflict
mod Tests
use skyhookml.Prelude.{
  Dict, lookup, lookup_or, insert, ◌==◌, Text, codes, nat_eq, text_eq, pair_eq, ℕ, not, ◌&&◌,
  Option, none, some, List, [], ◌∷◌, ◌++◌, eqb, if◌then◌else◌, ◌>>=◌, length, set,
}
use skyhookml.Graph.Node.{GraphId, graph_id_eq, Node, ExecNode}
use skyhookml.Graph.Hash.{ExecutionGraph}
use skyhookml.App.Incorporate.{exec_graph_id, get_graph}
use skyhookml.App.RunNode.{
  RunNodeOptions, Run, State, Outside, virtual_node, is_done, populate_ready_missing, Step, ok,
  failed, rounds,
}

-- The ids of the nodes that are to be run, and their names by id. An empty name counts as none.
pub add_id : ExecNode → List ℕ × Dict ℕ Text → List ℕ × Dict ℕ Text
add_id orig (our_ids, names) =
    if lookup_or [] orig.id names == []
    then (our_ids ++ orig.id ∷ [], insert orig.id orig.name names)
    else (our_ids, names)

pub collect_ids : List (GraphId × Node) → List ℕ × Dict ℕ Text → Option (List ℕ × Dict ℕ Text)
collect_ids [] collected = some collected
collect_ids ((gid, cur) ∷ order) collected = do
  vnode ← virtual_node cur
  collect_ids order (add_id vnode.orig_node collected)

pub conflict_message : Text → Text
conflict_message name =
    codes "another job has a conflict on node "
    ++ (name ++ codes ", wait for that job to finish and try again")

-- The conflict with one other job.
pub job_conflict : Dict ℕ Text → List ℕ → Option Text
job_conflict names [] = none
job_conflict names (id ∷ ids) =
    if lookup_or [] id names == []
    then job_conflict names ids
    else some (conflict_message (lookup_or [] id names))

pub jobs_conflict : Dict ℕ Text → List (List ℕ) → Option Text
jobs_conflict names [] = none
jobs_conflict names (ids ∷ pending) = elim (job_conflict names ids) [
  | some err ↦ some err
  | none ↦ jobs_conflict names pending
]

-- The error, with the ids that are written to the job's metadata.
pub conflict_err : List (GraphId × Node) → List (List ℕ) → Option (Option Text × List ℕ)
conflict_err order pending = do
  (our_ids, names) ← collect_ids order ([], [])
  some (jobs_conflict names pending, our_ids)

-- The state before the first search, in which a forced target is missing.
pub initial_state : RunNodeOptions → ℕ → ExecutionGraph → State
initial_state opts id graph = record {
  graph = graph;
  ready = [];
  missing =
      if opts.force
      then elim (lookup (exec_graph_id id) graph) [
        | none ↦ []
        | some node ↦ (exec_graph_id id, node) ∷ []
      ]
      else [];
  needed = [];
  exec_nodes = if opts.force then id ∷ [] else [];
  history = [];
}

pub finished : Step → Option Text × List Run
finished (ok s) = (none, s.history)
finished (failed err s) = (some err, s.history)

-- The error of RunNode for the node with an id, and the runs.
pub run_node : Outside → RunNodeOptions → List (List ℕ) → ℕ → ℕ → Option (Option Text × List Run)
run_node o opts pending fuel id = if is_done o [] id && not opts.force then some (none, []) else (do
  graph ← get_graph o.db fuel id
  s ← populate_ready_missing o fuel (exec_graph_id id) (initial_state opts id graph)
  if not (eqb (length s.needed) 1) && opts.no_run_tree
      then some (some (codes "NoRunTree is set but more than one node needed"), [])
      else (do
        (conflict, our_ids) ← conflict_err (o.range_needed fuel s) pending
        elim conflict [
          | some err ↦ some (some err, [])
          | none ↦ do step ← rounds o fuel fuel (exec_graph_id id) s; some (finished step)
        ]))
