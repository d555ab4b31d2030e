-- ===== src/Tasks/Union/Tests.antt =====
-- exec_ops/union/union.go: two datasets that have a key in common.
use skyhookml.Prelude.{
  Dict, lookup_or, Distinct, Text, codes, nat_eq, text_eq, pair_eq, ◌≡◌, refl, none, some, List, [],
  ◌∷◌,
}
use skyhookml.Item.{Item, ExecTask, Dataset, int}
use skyhookml.Prelude.Decimal.{itoa}
use skyhookml.Tasks.Union.{
  candidate, fresh_key, union_task, union_items, union_datasets, union_tasks,
}
use skyhookml.Tasks.Union.Laws.{task_keys, task_inputs, alone, all_items, union_tasks_lem}

abbrev numbers : Dataset
numbers = record {
  id = 1;
  name = codes "d";
  kind = codes "data";
  data_type = int;
  metadata = [];
  hash = none;
}

abbrev item_of : Text → Item
item_of key = record {
  dataset = numbers;
  key = key;
  ext = [];
  format = [];
  metadata = [];
  provider = none;
  provider_info = none;
}

abbrev raw : Dict Text (List (List Item))
raw =
    (
      codes "inputs",
      (item_of (codes "a") ∷ []) ∷ (item_of (codes "a") ∷ item_of (codes "b") ∷ []) ∷ [],
    )
    ∷ []

union_runs :
    union_tasks raw
    ≡ some (
        union_task (codes "a") (item_of (codes "a"))
        ∷ union_task (codes "a-1") (item_of (codes "a"))
        ∷ union_task (codes "b") (item_of (codes "b"))
        ∷ [])
unfolding union_tasks union_datasets union_items fresh_key candidate itoa text_eq
union_runs = refl

union_tasks_lem_example :
    (tasks : List ExecTask) × (union_tasks raw ≡ some tasks)
    × Distinct (task_keys tasks)
    × (task_inputs tasks ≡ alone (all_items (lookup_or [] (codes "inputs") raw)))
union_tasks_lem_example = union_tasks_lem raw
