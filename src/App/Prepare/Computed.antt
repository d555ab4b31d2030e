-- ===== src/App/Prepare/Computed.antt =====
-- app/exec.go: the keys that a node has computed, and the tasks that are left for PrepareRun.
use skyhookml.Prelude.{
  Dict, lookup, keys, contains, Distinct, keys-lookup, lookup-keys, ◌==◌, Text, nat_eq, text_eq,
  pair_eq, ◌≡◌, refl, sym, ap, subst, ◌∙◌, inl, inr, Bool, true, false, not, ◌&&◌, ◌||◌, Option,
  none, some, List, [], ◌∷◌, arith, if◌then◌else◌, Bool-cases, drop, filter,
}
use skyhookml.Item.{Item, ExecTask}
use skyhookml.Tasks.Groups.{group_items}
use skyhookml.Tasks.Groups.Counts.{in_all}
use skyhookml.Tasks.Groups.Laws.{
  raw_keys, item_keys, lookup-group_items, group_items-empty, num_datasets-some, group_of,
}
use skyhookml.App.Prepare.{DbDataset, clear_outputs, raw_outputs, get_computed_keys}
use skyhookml.App.Prepare.Laws.{within, tasks_within, all_within}

-- Some item has the key.
abbrev pub has_item : List Item → Text → Bool
has_item [] key = false
has_item (item ∷ items) key = item.key == key || has_item items key

abbrev pub all_have : Dict Text DbDataset → Text → Bool
all_have [] key = true
all_have ((name, ds) ∷ outputs) key = has_item ds.items key && all_have outputs key

-- There is an output dataset, and each of them has an item with the key.
abbrev pub is_computed : Dict Text DbDataset → Text → Bool
is_computed [] key = false
is_computed (output ∷ outputs) key = all_have (output ∷ outputs) key

contains-item_keys :
    (items : List Item) (key : Text) → contains (item_keys items) key ≡ has_item items key
contains-item_keys [] key = refl
contains-item_keys (item ∷ items) key = ground (arith, contains-item_keys items key)

in_all-raw_outputs :
    (outputs : Dict Text DbDataset) (key : Text)
    → in_all key (raw_keys (raw_outputs outputs)) ≡ all_have outputs key
unfolding raw_outputs
in_all-raw_outputs [] key = refl
in_all-raw_outputs ((name, ds) ∷ outputs) key =
    ground (arith, contains-item_keys ds.items key, in_all-raw_outputs outputs key)

keys-raw_outputs : (outputs : Dict Text DbDataset) → keys (raw_outputs outputs) ≡ keys outputs
unfolding raw_outputs
keys-raw_outputs [] = refl
keys-raw_outputs ((name, ds) ∷ outputs) = ap (◌∷◌ name) (keys-raw_outputs outputs)

-- A map has a key exactly if a lookup finds it.
contains-lookup :
    {V : Type 0} (key : Text) (m : Dict Text V) (b : Bool) (v : V)
    → lookup key m ≡ (if b then some v else none)
    → contains (keys m) key ≡ b
contains-lookup key m true v e = lookup-keys key m v e
contains-lookup key m false v e = elim (Bool-cases (contains (keys m) key)) [
  | inr gone ↦ gone
  | inl there ↦
      let (w, found) = keys-lookup key m there in
      let clash : none ≡ some w = sym e ∙ found in absurd cc
]

-- The computed keys are those that every output dataset has, if there is one.
pub contains-get_computed_keys :
    (outputs : Dict Text DbDataset) (key : Text)
    → Distinct (keys outputs)
    → contains (get_computed_keys outputs) key ≡ is_computed outputs key
unfolding get_computed_keys raw_outputs
contains-get_computed_keys [] key d = ap (λ m. contains (keys m) key) group_items-empty
contains-get_computed_keys ((name, ds) ∷ outputs) key d =
    let raw = raw_outputs ((name, ds) ∷ outputs) in
    contains-lookup key (group_items raw) (in_all key (raw_keys raw)) (group_of key raw) (
      lookup-group_items raw key (subst Distinct (sym (keys-raw_outputs ((name, ds) ∷ outputs))) d)
        (num_datasets-some name ds.items [] (raw_outputs outputs)))
    ∙ in_all-raw_outputs ((name, ds) ∷ outputs) key

keys-clear_outputs : (outputs : Dict Text DbDataset) → keys (clear_outputs outputs) ≡ keys outputs
unfolding clear_outputs
keys-clear_outputs [] = refl
keys-clear_outputs ((name, ds) ∷ outputs) = ap (◌∷◌ name) (keys-clear_outputs outputs)

is_computed-clear_outputs :
    (outputs : Dict Text DbDataset) (key : Text) → is_computed (clear_outputs outputs) key ≡ false
unfolding clear_outputs
is_computed-clear_outputs [] key = refl
is_computed-clear_outputs ((name, ds) ∷ outputs) key = refl

-- The keys that are computed when the tasks are selected: none if the outputs have been cleared.
abbrev pub computed_after : (force : Bool) → Dict Text DbDataset → Text → Bool
computed_after force outputs key = not force && is_computed outputs key

pub contains-computed_after :
    (force : Bool) (outputs : Dict Text DbDataset) (key : Text)
    → Distinct (keys outputs)
    → contains (get_computed_keys (if force then clear_outputs outputs else outputs)) key
      ≡ computed_after force outputs key
contains-computed_after true outputs key d =
    contains-get_computed_keys (clear_outputs outputs) key
      (subst Distinct (sym (keys-clear_outputs outputs)) d)
    ∙ is_computed-clear_outputs outputs key
contains-computed_after false outputs key d = contains-get_computed_keys outputs key d

-- The tasks of a run, where some keys are dropped and a limit is set.
abbrev pub kept_tasks : Option (List Text) → (Text → Bool) → List ExecTask → List ExecTask
kept_tasks limit dropped [] = []
kept_tasks limit dropped (t ∷ ts) =
    if within limit t.key && not (dropped t.key)
    then t ∷ kept_tasks limit dropped ts
    else kept_tasks limit dropped ts

-- Each task is dropped or within the limit.
abbrev pub none_left : Option (List Text) → (Text → Bool) → List ExecTask → Bool
none_left limit dropped [] = true
none_left limit dropped (t ∷ ts) =
    (dropped t.key || within limit t.key) && none_left limit dropped ts

-- The tasks that are left after the completed ones are removed.
abbrev pub without : Bool → List Text → List ExecTask → List ExecTask
without incremental completed ts =
    if incremental then filter (λ t. not (contains completed t.key)) ts else ts

module _ (limit : Option (List Text)) (completed : List Text) (dropped : Text → Bool) where
  pub kept_tasks-without :
      (incremental : Bool) (ts : List ExecTask)
      → ((key : Text) → (incremental && contains completed key) ≡ dropped key)
      → (tasks_within limit (without incremental completed ts) ≡ kept_tasks limit dropped ts)
        × (all_within limit (without incremental completed ts) ≡ none_left limit dropped ts)
  kept_tasks-without true [] same = (refl, refl)
  kept_tasks-without false [] same = (refl, refl)
  kept_tasks-without false (t ∷ ts) same =
      let (kept, all) = kept_tasks-without false ts same in
      (ground (arith, kept, same t.key), ground (arith, all, same t.key))
  kept_tasks-without true (t ∷ ts) same =
      let (kept, all) = kept_tasks-without true ts same in
      elim (Bool-cases (contains completed t.key)) [
        | inl drop ↦
            rw drop (ground (arith, kept, same t.key, drop), ground (arith, all, same t.key, drop))
        | inr keep ↦
            rw keep (ground (arith, kept, same t.key, keep), ground (arith, all, same t.key, keep))
      ]
