-- ===== src/Tasks/Split/Tests.antt =====
-- exec_ops/split/split.go: splitting on small inputs.
use skyhookml.Prelude.{
  Text, codes, nat_eq, text_eq, pair_eq, ◌≡◌, refl, none, some, List, [], ◌∷◌, map, arith,
}
use skyhookml.Prelude.Decimal.{itoa}
use skyhookml.Item.{ExecTask}
use skyhookml.Tasks.Split.{Split, get_output_name, get_tasks, take_splits, tag, tag_all}
use skyhookml.Tasks.Split.Laws.{read_index, content, get_tasks_lem}

abbrev task_of : Text → ExecTask
task_of key = record { key = key; items = []; metadata = [] }

abbrev three_tasks : List ExecTask
three_tasks = task_of (codes "a") ∷ task_of (codes "b") ∷ task_of (codes "c") ∷ []

abbrev halves : List Split
halves =
    record { name = codes "train"; percentage = 50 }
    ∷ record { name = codes "val"; percentage = 50 }
    ∷ []

get_tasks_runs :
    get_tasks halves three_tasks []
    ≡ some (
        record { key = codes "a"; items = []; metadata = codes "0" }
        ∷ record { key = codes "b"; items = []; metadata = codes "1" }
        ∷ record { key = codes "c"; items = []; metadata = codes "1" }
        ∷ [])
unfolding get_tasks take_splits tag tag_all itoa
get_tasks_runs = refl

-- Percentages above 100 run out of range.
get_tasks_panics :
    get_tasks (record { name = codes "all"; percentage = 200 } ∷ []) three_tasks [] ≡ none
unfolding get_tasks take_splits
get_tasks_panics = refl

get_output_name_runs :
    get_output_name (record { name = codes "val"; percentage = 5 }) 2 ≡ codes "2-val"
unfolding get_output_name itoa
get_output_name_runs = refl

get_tasks_lem_example :
    (out : List ExecTask) × (get_tasks halves three_tasks [] ≡ some out)
    × (map content out ≡ map content three_tasks)
    × (map read_index out ≡ some 0 ∷ some 1 ∷ some 1 ∷ [])
get_tasks_lem_example = get_tasks_lem halves three_tasks [] (omega arith)
