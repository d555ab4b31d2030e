-- ===== src/Tasks/Groups/Laws.antt =====
-- exec_ops/util.go: what the groups are.
use skyhookml.Prelude.{
  Dict, lookup, lookup_or, keys, contains, Distinct, lookup_or-insert, lookup-tabulate, tabulate,
  ◌==◌, Text, pair_eq_beq, nat_eq, text_eq, pair_eq, suc, ◌+◌, ◌<◌, ◌≡◌, refl, ap, ◌∙◌, Bool, false,
  not, ◌&&◌, ◌||◌, Option, none, some, List, [], ◌∷◌, ◌++◌, map, append-nil, append_assoc, arith,
  if◌then◌else◌, length,
}
use mathlib.Core.Path.{ap₂, fun_ext}
use skyhookml.Item.{Item}
use skyhookml.Tasks.Groups.Counts.{
  one_if, count_keys_lem, contains-retained, lists_with, inputs_with, in_all, inputs_with-in_all,
}
use skyhookml.Tasks.Groups.{
  append_item, collect, add_inputs, num_datasets, RawItems, add_dataset, add_datasets, Hits,
  group_items, retained, no_hits,
}

-- The first item of a key in a dataset.
unfoldable pub first_item : Text → List Item → Option Item
first_item key [] = none
first_item key (item ∷ rest) = if item.key == key then some item else first_item key rest

abbrev pub of_option : Option Item → List Item
of_option none = []
of_option (some item) = item ∷ []

-- The keys of a dataset's items.
abbrev pub item_keys : List Item → List Text
item_keys [] = []
item_keys (item ∷ items) = item.key ∷ item_keys items

-- The loop over a dataset's items meets exactly its keys, each once.
contains-collect :
    (name : Text) (items : List Item) (s : List Text) (by : Dict (Text × Text) (List Item))
    (k : Text)
    → contains (collect name items s by).0 k ≡ (contains s k || contains (item_keys items) k)
unfolding collect
contains-collect name [] s by k = ground arith
contains-collect name (item ∷ rest) s by k = ground (
  arith,
  contains-collect name rest s by k,
  contains-collect name rest (item.key ∷ s) (append_item name item by) k,
  text_eq.test_iff item.key k,
)

collect-Distinct :
    (name : Text) (items : List Item) (s : List Text) (by : Dict (Text × Text) (List Item))
    → Distinct s
    → Distinct (collect name items s by).0
unfolding collect
collect-Distinct name [] s by d = d
collect-Distinct name (item ∷ rest) s by d = ground (
  arith,
  collect-Distinct name rest s by d,
  collect-Distinct name rest (item.key ∷ s) (append_item name item by),
)

-- The items of a key in an input, as far as they are collected.
abbrev items_of : Text → Text → Dict (Text × Text) (List Item) → List Item
items_of n k by = lookup_or [] (n, k) by

append_item_lem :
    (name n : Text) (item : Item) (by : Dict (Text × Text) (List Item)) (k : Text)
    → items_of n k (append_item name item by)
      ≡ items_of n k by ++ (if name == n && item.key == k then item ∷ [] else [])
unfolding append_item
append_item_lem name n item by k = ground (
  arith,
  lookup_or-insert [] (name, item.key) (n, k) (items_of name item.key by ++ item ∷ []) by,
  pair_eq_beq name n item.key k,
  text_eq.test_iff name n,
  text_eq.test_iff item.key k,
  append-nil (items_of n k by),
)

-- What the loop appends for a key: its first item, unless the key was met before.
collect_items :
    (name n : Text) (items : List Item) (s : List Text) (by : Dict (Text × Text) (List Item))
    (k : Text)
    → items_of n k (collect name items s by).1
      ≡ items_of n k by
        ++ (if name == n && not (contains s k) then of_option (first_item k items) else [])
unfolding collect first_item
collect_items name n [] s by k = ground (arith, append-nil (items_of n k by))
collect_items name n (item ∷ rest) s by k = ground (
  arith,
  collect_items name n rest s by k,
  collect_items name n rest (item.key ∷ s) (append_item name item by) k,
  append_item_lem name n item by k,
  text_eq.test_iff item.key k,
  append-nil (items_of n k by),
  append-nil (items_of n k by ++ item ∷ []),
)

-- The first item of a key in each of the datasets that have it.
abbrev pub firsts : Text → List (List Item) → List Item
firsts k [] = []
firsts k (items ∷ rest) = of_option (first_item k items) ++ firsts k rest

add_dataset_hits :
    (name : Text) (h : Hits) (items : List Item) (k : Text)
    → lookup_or 0 k (add_dataset name h items).key_hits
      ≡ lookup_or 0 k h.key_hits + one_if (contains (item_keys items) k)
unfolding add_dataset
add_dataset_hits name h items k =
    let (key_set, by) = collect name items [] h.by_name_key in
    ground (
      arith,
      count_keys_lem (collect name items [] h.by_name_key).0 h.key_hits k
          (collect-Distinct name items [] h.by_name_key tt),
      contains-collect name items [] h.by_name_key k,
    )

add_dataset_items :
    (name n : Text) (h : Hits) (items : List Item) (k : Text)
    → items_of n k (add_dataset name h items).by_name_key
      ≡ items_of n k h.by_name_key ++ (if name == n then of_option (first_item k items) else [])
unfolding add_dataset
add_dataset_items name n h items k = ground (arith, collect_items name n items [] h.by_name_key k)

-- The keys of the items, dataset by dataset.
abbrev pub dataset_keys : List (List Item) → List (List Text)
dataset_keys [] = []
dataset_keys (items ∷ rest) = item_keys items ∷ dataset_keys rest

abbrev pub raw_keys : RawItems → Dict Text (List (List Text))
raw_keys [] = []
raw_keys ((name, datasets) ∷ raw) = (name, dataset_keys datasets) ∷ raw_keys raw

add_datasets_hits :
    (name : Text) (h : Hits) (datasets : List (List Item)) (k : Text)
    → lookup_or 0 k (add_datasets name h datasets).key_hits
      ≡ lookup_or 0 k h.key_hits + lists_with k (dataset_keys datasets)
unfolding add_datasets
add_datasets_hits name h [] k = omega arith
add_datasets_hits name h (items ∷ rest) k = ground (
  arith,
  add_datasets_hits name (add_dataset name h items) rest k,
  add_dataset_hits name h items k,
)

add_datasets_items :
    (name n : Text) (h : Hits) (datasets : List (List Item)) (k : Text)
    → items_of n k (add_datasets name h datasets).by_name_key
      ≡ items_of n k h.by_name_key ++ (if name == n then firsts k datasets else [])
unfolding add_datasets
add_datasets_items name n h [] k = ground (arith, append-nil (items_of n k h.by_name_key))
add_datasets_items name n h (items ∷ rest) k = ground (
  arith,
  add_datasets_items name n (add_dataset name h items) rest k,
  add_dataset_items name n h items k,
  append-nil (items_of n k h.by_name_key),
  append_assoc (items_of n k h.by_name_key) (of_option (first_item k items)) (firsts k rest),
)

-- The items of a key in the inputs of a name.
abbrev named_firsts : Text → Text → RawItems → List Item
named_firsts n k [] = []
named_firsts n k ((name, datasets) ∷ raw) =
    (if name == n then firsts k datasets else []) ++ named_firsts n k raw

add_inputs_hits :
    (h : Hits) (raw : RawItems) (k : Text)
    → lookup_or 0 k (add_inputs h raw).key_hits
      ≡ lookup_or 0 k h.key_hits + inputs_with k (raw_keys raw)
unfolding add_inputs
add_inputs_hits h [] k = omega arith
add_inputs_hits h ((name, datasets) ∷ raw) k = ground (
  arith,
  add_inputs_hits (add_datasets name h datasets) raw k,
  add_datasets_hits name h datasets k,
)

add_inputs_items :
    (n : Text) (h : Hits) (raw : RawItems) (k : Text)
    → items_of n k (add_inputs h raw).by_name_key
      ≡ items_of n k h.by_name_key ++ named_firsts n k raw
unfolding add_inputs
add_inputs_items n h [] k = ground (arith, append-nil (items_of n k h.by_name_key))
add_inputs_items n h ((name, datasets) ∷ raw) k =
    add_inputs_items n (add_datasets name h datasets) raw k
    ∙ ap (λ l. l ++ named_firsts n k raw) (add_datasets_items name n h datasets k)
    ∙ append_assoc (items_of n k h.by_name_key) (if name == n then firsts k datasets else [])
        (named_firsts n k raw)

named_firsts_absent :
    (n k : Text) (raw : RawItems) → contains (keys raw) n ≡ false → named_firsts n k raw ≡ []
named_firsts_absent n k [] h = refl
named_firsts_absent n k ((name, datasets) ∷ raw) h = ground (arith, named_firsts_absent n k raw)

-- The group of a key: for each input the first item of the key in each of its datasets.
abbrev pub group_of : Text → RawItems → Dict Text (List Item)
group_of k raw = map (λ (name, datasets). (name, firsts k datasets)) raw

-- An input of another name does not matter.
skip_name :
    (k name : Text) (datasets : List (List Item)) (raw : RawItems) (names : List Text)
    → contains names name ≡ false
    → tabulate (λ n. named_firsts n k ((name, datasets) ∷ raw)) names
      ≡ tabulate (λ n. named_firsts n k raw) names
skip_name k name datasets raw [] h = refl
skip_name k name datasets raw (n ∷ names) h =
    ap₂ (λ (l : List Item) ls. (n, l) ∷ ls)
      (ground (arith, text_eq.test_iff name n, text_eq.test_iff n name))
      (skip_name k name datasets raw names (ground arith))

group_of_lem :
    (k : Text) (raw : RawItems)
    → Distinct (keys raw)
    → tabulate (λ name. named_firsts name k raw) (keys raw) ≡ group_of k raw
group_of_lem k [] d = refl
group_of_lem k ((name, datasets) ∷ raw) d =
    ap₂ (λ (l : List Item) ls. (name, l) ∷ ls)
      (ground (
        arith,
        text_eq.test_iff name name,
        named_firsts_absent name k raw,
        append-nil (firsts k datasets),
      ))
      (skip_name k name datasets raw (keys raw) d.0 ∙ group_of_lem k raw d.1)

pub num_datasets-raw_keys : (raw : RawItems) → num_datasets (raw_keys raw) ≡ num_datasets raw
unfolding num_datasets
num_datasets-raw_keys [] = refl
num_datasets-raw_keys ((name, datasets) ∷ raw) =
    omega (arith, num_datasets-raw_keys raw, length-dataset_keys datasets)
  where
    length-dataset_keys : (ds : List (List Item)) → length (dataset_keys ds) ≡ length ds
    length-dataset_keys [] = refl
    length-dataset_keys (items ∷ rest) = ap suc (length-dataset_keys rest)

-- The counted keys of all inputs are kept exactly if every dataset has them.
pub contains-retained_keys :
    (raw : RawItems) (k : Text)
    → 0 < num_datasets raw
    → contains (retained (num_datasets raw) (add_inputs no_hits raw).key_hits) k
      ≡ in_all k (raw_keys raw)
contains-retained_keys raw k h = ground (
  arith,
  contains-retained (num_datasets raw) (add_inputs no_hits raw).key_hits k h,
  add_inputs_hits no_hits raw k,
  inputs_with-in_all k (raw_keys raw),
  num_datasets-raw_keys raw,
)

-- Where the inputs have distinct names and at least one dataset, there is a group for exactly the
-- keys that every dataset of every input has. The group holds, for each input, the first item of
-- that key in each of its datasets, in the order of the datasets.
pub lookup-group_items :
    (raw : RawItems) (k : Text)
    → Distinct (keys raw)
    → 0 < num_datasets raw
    → lookup k (group_items raw) ≡ (if in_all k (raw_keys raw) then some (group_of k raw) else none)
unfolding group_items
lookup-group_items raw k d h =
    lookup-tabulate (λ key. tabulate (λ name. items_of name key by) (keys raw)) kept k
    ∙ ap₂ (λ (b : Bool) (g : Dict Text (List Item)). if b then some g else none)
        (contains-retained_keys raw k h)
        (ap (λ (f : Text → List Item). tabulate f (keys raw))
            (fun_ext (λ name. add_inputs_items name no_hits raw k))
          ∙ group_of_lem k raw d)
  where
    by : Dict (Text × Text) (List Item)
    by = (add_inputs no_hits raw).by_name_key

    kept : List Text
    kept = retained (num_datasets raw) (add_inputs no_hits raw).key_hits

-- Without inputs there are no groups.
pub group_items-empty : group_items [] ≡ []
unfolding group_items add_inputs retained num_datasets
group_items-empty = refl

pub num_datasets-some :
    (name : Text) (items : List Item) (rest : List (List Item)) (raw : RawItems)
    → 0 < num_datasets ((name, items ∷ rest) ∷ raw)
unfolding num_datasets
num_datasets-some name items rest raw = omega arith
