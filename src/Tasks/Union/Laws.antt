-- ===== src/Tasks/Union/Laws.antt =====
-- exec_ops/union/union.go: the tasks of a union.
use skyhookml.Prelude.{
  Dict, lookup_or, contains, Distinct, contains-append, Distinct-append, Text, codes, nat_eq,
  text_eq, pair_eq, ◌≡◌, refl, sym, ap, subst, ◌∙◌, true, false, ◌||◌, some, List, [], ◌∷◌, ◌++◌,
  arith,
}
use skyhookml.Item.{Item, ExecTask}
use skyhookml.Tasks.Union.{union_task, union_items, union_datasets, union_tasks}
use skyhookml.Tasks.Union.Keys.{fresh_key-some}

abbrev pub task_keys : List ExecTask → List Text
task_keys [] = []
task_keys (t ∷ ts) = t.key ∷ task_keys ts

abbrev pub task_inputs : List ExecTask → List (Dict Text (List (List Item)))
task_inputs [] = []
task_inputs (t ∷ ts) = t.items ∷ task_inputs ts

-- Each item as the only one of a task.
abbrev pub alone : List Item → List (Dict Text (List (List Item)))
alone [] = []
alone (item ∷ items) = ((codes "inputs", (item ∷ []) ∷ []) ∷ []) ∷ alone items

abbrev pub all_items : List (List Item) → List Item
all_items [] = []
all_items (items ∷ rest) = items ++ all_items rest

-- The tasks made of some items, where some keys have been seen before them.
abbrev IsUnion : List Text → List Item → List ExecTask → Type 0
IsUnion seen items tasks =
    Distinct (task_keys tasks)
    × ((k : Text) → contains (task_keys tasks) k ≡ true → contains seen k ≡ false)
    × (task_inputs tasks ≡ alone items)

abbrev Sees : List Text → List ExecTask → List Text → Type 0
Sees seen tasks seen' =
    (k : Text) → contains seen' k ≡ (contains seen k || contains (task_keys tasks) k)

task_keys-append : (ts us : List ExecTask) → task_keys (ts ++ us) ≡ task_keys ts ++ task_keys us
task_keys-append [] us = refl
task_keys-append (t ∷ ts) us = ap (◌∷◌ t.key) (task_keys-append ts us)

task_inputs-append :
    (ts us : List ExecTask) → task_inputs (ts ++ us) ≡ task_inputs ts ++ task_inputs us
task_inputs-append [] us = refl
task_inputs-append (t ∷ ts) us = ap (◌∷◌ t.items) (task_inputs-append ts us)

alone-append : (xs ys : List Item) → alone (xs ++ ys) ≡ alone xs ++ alone ys
alone-append [] ys = refl
alone-append (x ∷ xs) ys = ap (◌∷◌ ((codes "inputs", (x ∷ []) ∷ []) ∷ [])) (alone-append xs ys)

union_items-IsUnion :
    (seen : List Text) (items : List Item)
    → (seen' : List Text) × (tasks : List ExecTask) × (union_items seen items ≡ some (seen', tasks))
      × IsUnion seen items tasks
      × Sees seen tasks seen'
unfolding union_items union_task
union_items-IsUnion seen [] = (seen, [], refl, (tt, λ k h. cc, refl), λ k. ground arith)
union_items-IsUnion seen (item ∷ items) =
    let (key, found, new) = fresh_key-some item.key seen in
    let (seen', tasks, run, (distinct, apart, inputs), sees) =
      union_items-IsUnion (key ∷ seen) items in
    (
      seen',
      union_task key item ∷ tasks,
      rw (found, run) refl,
      (
        (ground (arith, apart key, text_eq.test_iff key key), distinct),
        λ k h. ground (arith, apart k, h, new, text_eq.test_iff key k),
        ap (◌∷◌ ((codes "inputs", (item ∷ []) ∷ []) ∷ [])) inputs,
      ),
      λ k. ground (arith, sees k),
    )

union_datasets-IsUnion :
    (seen : List Text) (datasets : List (List Item))
    → (tasks : List ExecTask) × (union_datasets seen datasets ≡ some tasks)
      × IsUnion seen (all_items datasets) tasks
unfolding union_datasets
union_datasets-IsUnion seen [] = ([], refl, (tt, λ k h. cc, refl))
union_datasets-IsUnion seen (items ∷ datasets) =
    let (seen', tasks, run, (distinct, apart, inputs), sees) = union_items-IsUnion seen items in
    let (more, run', (distinct', apart', inputs')) = union_datasets-IsUnion seen' datasets in
    (
      tasks ++ more,
      rw (run, run') refl,
      (
        subst Distinct (sym (task_keys-append tasks more)) (
            Distinct-append (task_keys tasks) (task_keys more) distinct distinct'
              (λ k h. ground (arith, apart' k, sees k, h))),
        λ k h. ground (
          arith,
          apart k,
          apart' k,
          sees k,
          contains-append (task_keys tasks) (task_keys more) k,
          ap (λ ks. contains ks k) (task_keys-append tasks more),
          h,
        ),
        task_inputs-append tasks more
            ∙ ap (λ l. l ++ task_inputs more) inputs
            ∙ ap (λ l. alone items ++ l) inputs'
            ∙ sym (alone-append items (all_items datasets)),
      ),
    )

-- The search for keys always ends, so that there are tasks: one for each item of each dataset of the
-- inputs, in order, with that item alone, and no two of them have the same key, whatever keys the items have.
pub union_tasks_lem :
    (raw : Dict Text (List (List Item)))
    → (tasks : List ExecTask) × (union_tasks raw ≡ some tasks)
      × Distinct (task_keys tasks)
      × (task_inputs tasks ≡ alone (all_items (lookup_or [] (codes "inputs") raw)))
unfolding union_tasks
union_tasks_lem raw =
    let (tasks, run, (distinct, apart, inputs)) =
      union_datasets-IsUnion [] (lookup_or [] (codes "inputs") raw) in
    (tasks, run, distinct, inputs)
