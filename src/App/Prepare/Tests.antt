-- ===== src/App/Prepare/Tests.antt =====
-- app/exec.go: a node that reads one dataset.
use skyhookml.Prelude.{
  Dict, keys, contains, Distinct, Text, codes, nat_eq, text_eq, pair_eq, ◌≡◌, refl, Bool, true,
  false, ◌&&◌, none, some, List, [], ◌∷◌,
}
use skyhookml.Item.{Item, ExecTask, int}
use skyhookml.App.Prepare.{
  ExecRunOptions, DbDataset, Parent, node_output, Result, ok, RunData, prepared, all_done,
  clear_outputs, parent_items, list_items, input_items, pending_tasks, limit_tasks,
  get_computed_keys, prepare_tasks, prepare_inputs, prepare_run,
}
use skyhookml.App.Prepare.Parents.{CanRead, all_contents, parents_done}
use skyhookml.App.Prepare.Computed.{is_computed, contains-get_computed_keys, kept_tasks, none_left}
use skyhookml.App.Prepare.Runs.{prepare_run_lem, prepare_run_full}

abbrev dataset_of : Text → Bool → DbDataset
dataset_of name done = record {
  dataset = record {
    id = 1;
    name = name;
    kind = codes "data";
    data_type = int;
    metadata = [];
    hash = none;
  };
  done = done;
  items = [];
}

abbrev task_of : Text → ExecTask
task_of key = record { key = key; items = []; metadata = [] }

abbrev two_tasks : Dict Text (List (List Item)) → Result (List ExecTask)
two_tasks items = ok (task_of (codes "a") ∷ task_of (codes "b") ∷ [])

abbrev outputs : Dict Text DbDataset
outputs = (codes "out", dataset_of (codes "o") false) ∷ []

abbrev parents : Dict Text (List Parent)
parents =
    (codes "in", node_output (codes "n") (codes "x") (some (dataset_of (codes "p") true)) ∷ []) ∷ []

abbrev limited : ExecRunOptions
limited = record { force = false; incremental = false; limit_output_keys = some (codes "b" ∷ []) }

abbrev whole : ExecRunOptions
whole = record { force = true; incremental = false; limit_output_keys = none }

abbrev only_b : RunData
only_b = record { tasks = task_of (codes "b") ∷ []; will_be_done = false }

abbrev both : RunData
both = record { tasks = task_of (codes "a") ∷ task_of (codes "b") ∷ []; will_be_done = true }

limited_runs : (prepare_run two_tasks limited outputs parents).1 ≡ prepared only_b
unfolding prepare_run prepare_inputs prepare_tasks limit_tasks pending_tasks input_items list_items
    parent_items all_done text_eq
limited_runs = refl

whole_runs : (prepare_run two_tasks whole outputs parents).1 ≡ prepared both
unfolding prepare_run prepare_inputs prepare_tasks limit_tasks pending_tasks input_items list_items
    parent_items clear_outputs text_eq
whole_runs = refl

-- An incremental run, where the first task has been computed.
abbrev resumed : ExecRunOptions
resumed = record { force = false; incremental = true; limit_output_keys = none }

abbrev partial : Dict Text DbDataset
partial =
    (
      codes "out",
      record (dataset_of (codes "o") false) {
        items =
            record {
              dataset = (dataset_of (codes "o") false).dataset;
              key = codes "a";
              ext = codes "int";
              format = codes "json";
              metadata = [];
              provider = none;
              provider_info = none;
            }
            ∷ [];
      },
    )
    ∷ []

abbrev unfinished : Dict Text (List Parent)
unfinished =
    (codes "in", node_output (codes "n") (codes "x") (some (dataset_of (codes "p") false)) ∷ [])
    ∷ []

abbrev rest : RunData
rest = record { tasks = task_of (codes "b") ∷ []; will_be_done = false }

partial-Distinct : Distinct (keys partial)
partial-Distinct = (refl, tt)

a_computed : contains (get_computed_keys partial) (codes "a") ≡ true
unfolding text_eq
a_computed = contains-get_computed_keys partial (codes "a") partial-Distinct

b_not_computed : contains (get_computed_keys partial) (codes "b") ≡ false
unfolding text_eq
b_not_computed = contains-get_computed_keys partial (codes "b") partial-Distinct

resumed_runs : (prepare_run two_tasks resumed partial unfinished).1 ≡ prepared rest
unfolding prepare_run prepare_inputs prepare_tasks limit_tasks pending_tasks input_items list_items
    parent_items all_done
resumed_runs = rw (a_computed, b_not_computed) refl

prepare_run_lem_example :
    CanRead true unfinished
    × (tasks : List ExecTask) × (two_tasks (all_contents unfinished) ≡ ok tasks)
    × (rest.tasks ≡ kept_tasks none (is_computed partial) tasks)
    × (rest.will_be_done ≡ (parents_done unfinished && none_left none (is_computed partial) tasks))
prepare_run_lem_example =
    prepare_run_lem two_tasks resumed partial unfinished rest partial-Distinct resumed_runs

prepare_run_full_example :
    (parents_done parents ≡ true)
    × (two_tasks (all_contents parents) ≡ ok both.tasks)
    × (both.will_be_done ≡ true)
prepare_run_full_example =
    prepare_run_full two_tasks whole outputs parents both refl refl whole_runs
