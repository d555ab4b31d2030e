-- ===== src/Tasks/Groups/Shape.antt =====
-- exec_ops/util.go: the shape of the groups and of the tasks made of them, and that the keys which an
-- incremental node announces are those of its tasks.
use skyhookml.Prelude.{
  Dict, lookup, keys, contains, Distinct, keys-tabulate, Text, nat_eq, text_eq, pair_eq, ℕ, ◌<◌,
  ◌≡◌, refl, sym, ap, ◌∙◌, inl, inr, true, some, List, [], ◌∷◌, map, arith, Bool-cases, length,
  length-append,
}
use mathlib.Core.Path.{ap₂}
use skyhookml.Item.{Item, ExecTask}
use skyhookml.Tasks.Groups.{
  RawItems, Hits, num_datasets, add_dataset, add_datasets, add_inputs, no_hits, retained,
  group_items, simple_task, simple_tasks, map_get_output_keys,
}
use skyhookml.Tasks.Groups.Counts.{
  in_all, in_all_lists, contains-map_get_output_keys, keys-count_keys-Distinct, retained-Distinct,
}
use skyhookml.Tasks.Groups.Laws.{
  first_item, firsts, item_keys, dataset_keys, raw_keys, group_of, lookup-group_items,
  num_datasets-raw_keys, contains-retained_keys, of_option,
}

add_datasets-Distinct :
    (name : Text) (h : Hits) (datasets : List (List Item))
    → Distinct (keys h.key_hits)
    → Distinct (keys (add_datasets name h datasets).key_hits)
unfolding add_datasets add_dataset
add_datasets-Distinct name h [] d = d
add_datasets-Distinct name h (items ∷ rest) d =
    add_datasets-Distinct name (add_dataset name h items) rest
      (keys-count_keys-Distinct _ h.key_hits d)

add_inputs-Distinct :
    (h : Hits) (raw : RawItems)
    → Distinct (keys h.key_hits)
    → Distinct (keys (add_inputs h raw).key_hits)
unfolding add_inputs
add_inputs-Distinct h [] d = d
add_inputs-Distinct h ((name, datasets) ∷ raw) d =
    add_inputs-Distinct (add_datasets name h datasets) raw (add_datasets-Distinct name h datasets d)

first_item-some :
    (k : Text) (items : List Item)
    → contains (item_keys items) k ≡ true
    → length (of_option (first_item k items)) ≡ 1
unfolding first_item
first_item-some k [] h = cc
first_item-some k (item ∷ rest) h = ground (arith, first_item-some k rest)

length-firsts :
    (k : Text) (datasets : List (List Item))
    → in_all_lists k (dataset_keys datasets) ≡ true
    → length (firsts k datasets) ≡ length datasets
length-firsts k [] h = refl
length-firsts k (items ∷ rest) h = ground (
  arith,
  length-append (of_option (first_item k items)) (firsts k rest),
  first_item-some k items,
  length-firsts k rest,
)

-- How many entries each input has.
abbrev pub widths {ℓ} : {A : Type ℓ} → Dict Text (List A) → List (Text × ℕ)
widths [] = []
widths ((name, l) ∷ m) = (name, length l) ∷ widths m

widths-group_of :
    (k : Text) (raw : RawItems)
    → in_all k (raw_keys raw) ≡ true
    → widths (group_of k raw) ≡ widths raw
widths-group_of k [] h = refl
widths-group_of k ((name, datasets) ∷ raw) h =
    ap₂ (λ (n : ℕ) (ws : List (Text × ℕ)). (name, n) ∷ ws) (length-firsts k datasets (ground arith))
      (widths-group_of k raw (ground arith))

-- Every group has exactly one item for each dataset of each input, where the inputs have distinct
-- names and at least one dataset.
pub widths-group_items :
    (raw : RawItems) (k : Text) (g : Dict Text (List Item))
    → Distinct (keys raw)
    → 0 < num_datasets raw
    → lookup k (group_items raw) ≡ some g
    → widths g ≡ widths raw
widths-group_items raw k g d h e = elim (Bool-cases (in_all k (raw_keys raw))) [
  | inl all ↦
      let same : g ≡ group_of k raw = ground (arith, lookup-group_items raw k d h) in
      rw same (widths-group_of k raw all)
  | inr missing ↦ ground (arith, lookup-group_items raw k d h)
]

abbrev pub task_keys : List ExecTask → List Text
task_keys [] = []
task_keys (task ∷ tasks) = task.key ∷ task_keys tasks

task_keys-simple_tasks :
    (groups : Dict Text (Dict Text (List Item))) → task_keys (map simple_task groups) ≡ keys groups
unfolding simple_task
task_keys-simple_tasks [] = refl
task_keys-simple_tasks ((k, g) ∷ groups) = ap (◌∷◌ k) (task_keys-simple_tasks groups)

pub task_keys-eq-retained :
    (raw : RawItems)
    → task_keys (simple_tasks raw) ≡ retained (num_datasets raw) (add_inputs no_hits raw).key_hits
unfolding simple_tasks group_items
task_keys-eq-retained raw = task_keys-simple_tasks _ ∙ keys-tabulate _ _

-- A node with at least one parent dataset has one task for each key that it announces as an output
-- key (GetOutputKeys), no task for another key, and no two tasks for one key.
pub simple_tasks-output_keys :
    (raw : RawItems) (k : Text)
    → 0 < num_datasets raw
    → (contains (task_keys (simple_tasks raw)) k ≡ contains (map_get_output_keys (raw_keys raw)) k)
      × Distinct (task_keys (simple_tasks raw))
simple_tasks-output_keys raw k h = rw (task_keys-eq-retained raw) (
  contains-retained_keys raw k h
      ∙ sym (
          contains-map_get_output_keys (raw_keys raw) k (omega (arith, num_datasets-raw_keys raw))),
  retained-Distinct (num_datasets raw) (add_inputs no_hits raw).key_hits
      (add_inputs-Distinct no_hits raw tt),
)
