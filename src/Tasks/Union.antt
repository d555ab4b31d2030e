-- ===== src/Tasks/Union.antt =====
-- exec_ops/union/union.go: one task for each item of the inputs, with a key that no task before it has. A
-- search for such a key that needs more rounds than the fuel gives is `none`.
pub mod Keys
pub mod Laws
mod Tests
use skyhookml.Prelude.{
  Dict, lookup_or, contains, Text, codes, nat_eq, text_eq, pair_eq, ℕ, zero, suc, ◌+◌, Option, none,
  some, List, [], ◌∷◌, ◌++◌, if◌then◌else◌, ◌>>=◌, length,
}
use skyhookml.Item.{Item, ExecTask}
use skyhookml.Prelude.Decimal.{itoa}

-- The keys that are tried for an item.
pub candidate : Text → ℕ → Text
candidate key zero = key
candidate key (suc i) = key ++ (codes "-" ++ itoa (suc i))

pub fresh_key : ℕ → Text → ℕ → List Text → Option Text
fresh_key zero key i seen = none
fresh_key (suc fuel) key i seen =
    let rest = fresh_key fuel key (suc i) seen in
    if contains seen (candidate key i) then rest else some (candidate key i)

pub union_task : Text → Item → ExecTask
union_task key item = record {
  key = key;
  items = (codes "inputs", (item ∷ []) ∷ []) ∷ [];
  metadata = [];
}

-- The loop over the items of one dataset, with the keys seen.
pub union_items : List Text → List Item → Option (List Text × List ExecTask)
union_items seen [] = some (seen, [])
union_items seen (item ∷ rest) = do
  key ← fresh_key (length seen + 1) item.key 0 seen
  (seen', tasks) ← union_items (key ∷ seen) rest
  some (seen', union_task key item ∷ tasks)

pub union_datasets : List Text → List (List Item) → Option (List ExecTask)
union_datasets seen [] = some []
union_datasets seen (item_list ∷ rest) = do
  (seen', tasks) ← union_items seen item_list
  more ← union_datasets seen' rest
  some (tasks ++ more)

pub union_tasks : Dict Text (List (List Item)) → Option (List ExecTask)
union_tasks raw = union_datasets [] (lookup_or [] (codes "inputs") raw)
