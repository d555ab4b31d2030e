-- ===== src/App/Prepare.antt =====
-- app/exec.go: DBExecNode.PrepareRun. What it reads from the database is an argument (the output
-- datasets, and for each parent the dataset that it names), and so is GetTasks of the node's op. The job that RunData.SetJob creates is left out.
pub mod Laws
pub mod Runs
mod Tests
pub mod Parents
pub mod Computed
use skyhookml.Prelude.{
  Dict, keys, contains, Text, codes, nat_eq, text_eq, pair_eq, Bool, true, false, not, ◌&&◌, Option,
  none, some, List, [], ◌∷◌, ◌++◌, eqb, if◌then◌else◌, length, filter,
}
use skyhookml.Item.{Item, ExecTask, Dataset}
use skyhookml.Tasks.Groups.{group_items}

pub record ExecRunOptions : Type 0 where
  pub force : Bool
  pub incremental : Bool
  pub limit_output_keys : Option (List Text)

pub record DbDataset : Type 0 where
  pub dataset : Dataset
  pub done : Bool
  pub items : List Item

-- A parent: the output of a node, which may be missing, or a dataset.
pub data Parent : Type 0 where
  node_output : (node : Text) → (output : Text) → Option DbDataset → Parent
  source : DbDataset → Parent

pub data Result (A : Type 0) : Type 0 where
  ok : A → Result A
  error : (message : Text) → Result A

pub record RunData : Type 0 where
  pub tasks : List ExecTask
  pub will_be_done : Bool

pub data Prepared : Type 0 where
  already_done : Prepared
  refused : (message : Text) → Prepared
  prepared : RunData → Prepared

pub all_done : Dict Text DbDataset → Bool
all_done [] = true
all_done ((name, ds) ∷ outputs) = ds.done && all_done outputs

-- `ds.Clear(); ds.SetDone(false)`
pub clear_outputs : Dict Text DbDataset → Dict Text DbDataset
clear_outputs [] = []
clear_outputs ((name, ds) ∷ outputs) =
    (name, record { dataset = ds.dataset; done = false; items = [] }) ∷ clear_outputs outputs

-- The items of a parent, and whether it is fully computed.
pub parent_items : Bool → Parent → Result (List Item × Bool)
parent_items incremental (source ds) = ok (ds.items, true)
parent_items incremental (node_output node output none) =
    error (
      codes "dataset for parent node " ++ (node ++ (codes "[" ++ (output ++ codes "] is missing"))))
parent_items incremental (node_output node output (some ds)) =
    if not ds.done && not incremental
    then error (
        codes "dataset for parent node "
        ++ (node ++ (codes "[" ++ (output ++ codes "] is not done"))))
    else ok (ds.items, ds.done)

pub list_items : Bool → List Parent → Result (List (List Item) × Bool)
list_items incremental [] = ok ([], true)
list_items incremental (p ∷ plist) =
    let rest = list_items incremental plist in
    elim (parent_items incremental p) [
      | error message ↦ error message
      | ok (items, done) ↦ elim rest [
        | error message ↦ error message
        | ok (others, all) ↦ ok (items ∷ others, done && all)
      ]
    ]

pub input_items : Bool → Dict Text (List Parent) → Result (Dict Text (List (List Item)) × Bool)
input_items incremental [] = ok ([], true)
input_items incremental ((name, plist) ∷ parents) =
    let rest = input_items incremental parents in
    elim (list_items incremental plist) [
      | error message ↦ error message
      | ok (items, done) ↦ elim rest [
        | error message ↦ error message
        | ok (others, all) ↦ ok ((name, items) ∷ others, done && all)
      ]
    ]

-- If running incrementally, the tasks that were already computed are removed.
pub pending_tasks : ExecRunOptions → List Text → List ExecTask → List ExecTask
pending_tasks opts completed tasks =
    if opts.incremental then filter (λ t. not (contains completed t.key)) tasks else tasks

-- The tasks limited to certain keys, and whether the node will be done after them.
pub limit_tasks : Option (List Text) → Bool → List ExecTask → RunData
limit_tasks none parents_done tasks = record { tasks = tasks; will_be_done = parents_done }
limit_tasks (some limit) parents_done tasks =
    let ntasks = filter (λ t. contains limit t.key) tasks in
    if eqb (length ntasks) (length tasks)
    then record { tasks = tasks; will_be_done = parents_done }
    else record { tasks = ntasks; will_be_done = false }

-- GetComputedKeys: the keys that all output datasets have.
pub raw_outputs : Dict Text DbDataset → Dict Text (List (List Item))
raw_outputs [] = []
raw_outputs ((name, ds) ∷ outputs) = (name, ds.items ∷ []) ∷ raw_outputs outputs

pub get_computed_keys : Dict Text DbDataset → List Text
get_computed_keys outputs = keys (group_items (raw_outputs outputs))

module _ (get_tasks : Dict Text (List (List Item)) → Result (List ExecTask)) where
  pub prepare_tasks :
      ExecRunOptions → Dict Text DbDataset → Dict Text (List (List Item)) → Bool → Prepared
  prepare_tasks opts outputs items parents_done = elim (get_tasks items) [
    | error message ↦ refused message
    | ok tasks ↦ prepared (
        limit_tasks opts.limit_output_keys parents_done
          (pending_tasks opts (get_computed_keys outputs) tasks))
  ]

  -- After the check of the outputs.
  pub prepare_inputs : ExecRunOptions → Dict Text DbDataset → Dict Text (List Parent) → Prepared
  prepare_inputs opts outputs parents = elim (input_items opts.incremental parents) [
    | error message ↦ refused message
    | ok (items, parents_done) ↦ prepare_tasks opts outputs items parents_done
  ]

  -- The output datasets as they are afterwards, and the run.
  pub prepare_run :
      ExecRunOptions
      → Dict Text DbDataset
      → Dict Text (List Parent)
      → Dict Text DbDataset × Prepared
  prepare_run opts outputs parents =
      if opts.force
      then (clear_outputs outputs, prepare_inputs opts (clear_outputs outputs) parents)
      else (if all_done outputs
          then (outputs, already_done)
          else (outputs, prepare_inputs opts outputs parents))
