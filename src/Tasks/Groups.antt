-- ===== src/Tasks/Groups.antt =====
-- exec_ops/util.go: items of one key grouped across the datasets of a node, and the tasks made of
-- these groups. A nil slice and an empty one are both the empty list.
pub mod Counts
pub mod Laws
pub mod Shape
mod Tests
use skyhookml.Prelude.{
  Dict, lookup_or, insert, keys, contains, filter, tabulate, nat_eq, Text, text_eq, pair_eq, ℕ, ◌+◌,
  true, false, List, [], ◌∷◌, ◌++◌, map, leb, if◌then◌else◌, length,
}
use skyhookml.Item.{Item, ExecTask}

-- The items of each dataset of each input.
abbrev pub RawItems : Type 0
RawItems = Dict Text (List (List Item))

-- `keyHits` counts the datasets that have a key; `itemsByNameKey` has the items of a key in the
-- datasets of an input.
pub record Hits : Type 0 where
  pub key_hits : Dict Text ℕ
  pub by_name_key : Dict (Text × Text) (List Item)

pub num_datasets {ℓ} : {A : Type ℓ} → Dict Text (List A) → ℕ
num_datasets [] = 0
num_datasets ((name, datasets) ∷ raw) = length datasets + num_datasets raw

-- `itemsByNameKey[k] = append(itemsByNameKey[k], item)`
pub append_item : Text → Item → Dict (Text × Text) (List Item) → Dict (Text × Text) (List Item)
append_item name item by =
    insert (name, item.key) (lookup_or [] (name, item.key) by ++ item ∷ []) by

-- The loop over the items of one dataset; `key_set` is the set of the keys that it has met.
pub collect :
    Text
    → List Item
    → List Text
    → Dict (Text × Text) (List Item)
    → List Text × Dict (Text × Text) (List Item)
collect name [] key_set by = (key_set, by)
collect name (item ∷ rest) key_set by = elim (contains key_set item.key) [
  | true ↦ collect name rest key_set by
  | false ↦ collect name rest (item.key ∷ key_set) (append_item name item by)
]

-- `for key := range keySet { keyHits[key]++ }`
pub count_keys : List Text → Dict Text ℕ → Dict Text ℕ
count_keys [] key_hits = key_hits
count_keys (key ∷ key_set) key_hits =
    count_keys key_set (insert key (lookup_or 0 key key_hits + 1) key_hits)

pub add_dataset : Text → Hits → List Item → Hits
add_dataset name h items =
    let (key_set, by) = collect name items [] h.by_name_key in
    record { key_hits = count_keys key_set h.key_hits; by_name_key = by }

pub add_datasets : Text → Hits → List (List Item) → Hits
add_datasets name h [] = h
add_datasets name h (items ∷ rest) = add_datasets name (add_dataset name h items) rest

pub add_inputs : Hits → RawItems → Hits
add_inputs h [] = h
add_inputs h ((name, datasets) ∷ raw) = add_inputs (add_datasets name h datasets) raw

abbrev pub no_hits : Hits
no_hits = record { key_hits = []; by_name_key = [] }

-- The keys that appear in all of the datasets.
pub retained : ℕ → Dict Text ℕ → List Text
retained num key_hits = filter (λ key. leb num (lookup_or 0 key key_hits)) (keys key_hits)

-- Key to input to the corresponding items in each dataset.
pub group_items : RawItems → Dict Text (Dict Text (List Item))
group_items raw =
    let h = add_inputs no_hits raw in
    tabulate (λ key. tabulate (λ name. lookup_or [] (name, key) h.by_name_key) (keys raw))
      (retained (num_datasets raw) h.key_hits)

-- One task for each group, in the order in which the map of groups is ranged over.
pub simple_task : Text × Dict Text (List Item) → ExecTask
simple_task (key, cur_items) = record {
  key = key;
  items = map (λ (name, item_list). (name, map (λ item. item ∷ []) item_list)) cur_items;
  metadata = [];
}

pub simple_tasks : RawItems → List ExecTask
simple_tasks raw = map simple_task (group_items raw)

-- A single task with all the input items.
pub single_task : Text → RawItems → List ExecTask
single_task key raw = record { key = key; items = raw; metadata = [] } ∷ []

-- MapGetOutputKeys: the same count over lists of keys.
pub distinct_keys : List Text → List Text → List Text
distinct_keys [] key_set = key_set
distinct_keys (key ∷ rest) key_set =
    distinct_keys rest (if contains key_set key then key_set else key ∷ key_set)

pub count_key_lists : List (List Text) → Dict Text ℕ → Dict Text ℕ
count_key_lists [] key_hits = key_hits
count_key_lists (key_list ∷ rest) key_hits =
    count_key_lists rest (count_keys (distinct_keys key_list []) key_hits)

pub count_inputs : Dict Text (List (List Text)) → Dict Text ℕ → Dict Text ℕ
count_inputs [] key_hits = key_hits
count_inputs ((name, key_lists) ∷ inputs) key_hits =
    count_inputs inputs (count_key_lists key_lists key_hits)

pub map_get_output_keys : Dict Text (List (List Text)) → List Text
map_get_output_keys inputs = retained (num_datasets inputs) (count_inputs inputs [])

-- MapGetNeededInputs: the output keys, at each of the parents of each input.
pub map_get_needed_inputs {ℓ} :
    {P : Type ℓ} → Dict Text (List P) → List Text → Dict Text (List (List Text))
map_get_needed_inputs parents outputs =
    map (λ (name, plist). (name, map (λ _. outputs) plist)) parents
