-- ===== src/Tasks/Groups/Tests.antt =====
-- exec_ops/util.go: grouping on small inputs.
use skyhookml.Prelude.{
  Dict, lookup, contains, Distinct, Text, codes, nat_eq, text_eq, pair_eq, ◌≡◌, refl, true, none,
  some, List, [], ◌∷◌, arith,
}
use skyhookml.Item.{Item, Dataset, DataType}
use skyhookml.Tasks.Groups.{
  RawItems, group_items, simple_tasks, map_get_output_keys, num_datasets, count_keys, add_dataset,
  add_datasets, add_inputs, retained, collect, append_item,
}
use skyhookml.Tasks.Groups.Counts.{contains-map_get_output_keys}
use skyhookml.Tasks.Groups.Laws.{first_item, raw_keys, lookup-group_items}
use skyhookml.Tasks.Groups.Shape.{widths, widths-group_items, task_keys, simple_tasks-output_keys}

abbrev pub any_dataset : Dataset
any_dataset = record {
  id = 1;
  name = codes "images";
  kind = codes "data";
  data_type = DataType.image;
  metadata = [];
  hash = none;
}

abbrev pub item_of : Text → Text → Item
item_of key ext = record {
  dataset = any_dataset;
  key = key;
  ext = ext;
  format = [];
  metadata = [];
  provider = none;
  provider_info = none;
}

-- Two inputs; the key "b" is missing in one dataset, and "a" stands twice in another.
abbrev pub two_inputs : RawItems
two_inputs =
    (
      codes "inputs",
      (item_of (codes "a") (codes "1") ∷ item_of (codes "b") (codes "2") ∷ [])
          ∷ (item_of (codes "a") (codes "3") ∷ item_of (codes "a") (codes "4") ∷ [])
          ∷ [],
    )
    ∷ (codes "masks", (item_of (codes "b") (codes "5") ∷ item_of (codes "a") (codes "6") ∷ []) ∷ [])
    ∷ []

abbrev group_a : Dict Text (List Item)
group_a =
    (codes "inputs", item_of (codes "a") (codes "1") ∷ item_of (codes "a") (codes "3") ∷ [])
    ∷ (codes "masks", item_of (codes "a") (codes "6") ∷ [])
    ∷ []

opened : Unit {0}
unfolding group_items map_get_output_keys num_datasets count_keys add_dataset add_datasets
    add_inputs retained collect append_item text_eq pair_eq first_item
opened = tt

group_items_runs : group_items two_inputs ≡ (codes "a", group_a) ∷ []
unfolding opened
group_items_runs = refl

lookup-group_items_example : lookup (codes "a") (group_items two_inputs) ≡ some group_a
unfolding opened
lookup-group_items_example =
    lookup-group_items two_inputs (codes "a") (refl, (refl, tt)) (omega arith)

widths-group_items_example : widths group_a ≡ (codes "inputs", 2) ∷ (codes "masks", 1) ∷ []
unfolding opened
widths-group_items_example =
    widths-group_items two_inputs (codes "a") group_a (refl, (refl, tt)) (omega arith) refl

simple_tasks-output_keys_example :
    (contains (task_keys (simple_tasks two_inputs)) (codes "b")
      ≡ contains (map_get_output_keys (raw_keys two_inputs)) (codes "b"))
    × Distinct (task_keys (simple_tasks two_inputs))
unfolding opened
simple_tasks-output_keys_example = simple_tasks-output_keys two_inputs (codes "b") (omega arith)

contains-map_get_output_keys_example :
    contains (map_get_output_keys (raw_keys two_inputs)) (codes "a") ≡ true
unfolding opened
contains-map_get_output_keys_example =
    contains-map_get_output_keys (raw_keys two_inputs) (codes "a") (omega arith)
