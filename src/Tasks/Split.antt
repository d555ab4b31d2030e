-- ===== src/Tasks/Split.antt =====
-- exec_ops/split/split.go: the items of a dataset divided among several outputs. The tasks that come
-- out of rand.Shuffle, which is not modelled, are an argument, and so are the tasks that the array
-- behind that slice holds beyond its length, which a slice expression can reach. `none` is the panic
-- of a slice bound out of range. Percentages are natural numbers.
pub mod Laws
mod Tests
use skyhookml.Prelude.{
  Text, codes, nat_eq, text_eq, pair_eq, ℕ, suc, ◌+◌, ◌-◌, ◌*◌, ◌/◌, Option, some, List, [], ◌∷◌,
  ◌++◌, eqb, if◌then◌else◌, ◌>>=◌, length, slice,
}
use skyhookml.Prelude.Decimal.{itoa}
use skyhookml.Item.{ExecTask}

pub record Split : Type 0 where
  pub name : Text
  pub percentage : ℕ

pub get_output_name : Split → ℕ → Text
get_output_name s input_idx =
    if eqb input_idx 0 then s.name else itoa input_idx ++ (codes "-" ++ s.name)

-- The first loop: the slice of the tasks that each split gets.
pub take_splits : List Split → List ExecTask → List ExecTask → ℕ → ℕ → Option (List (List ExecTask))
take_splits [] tasks spare percentage_sum prev_idx = some []
take_splits (split ∷ splits) tasks spare percentage_sum prev_idx = do
  let percentage_sum' = percentage_sum + split.percentage
  let next_idx = percentage_sum' * length tasks / 100
  part ← slice (tasks ++ spare) prev_idx next_idx
  parts ← take_splits splits tasks spare percentage_sum' next_idx
  some (part ∷ parts)

-- The second loop: the index of the split becomes the metadata of its tasks.
pub tag : ℕ → List ExecTask → List ExecTask
tag i [] = []
tag i (task ∷ tasks) = record task { metadata = itoa i } ∷ tag i tasks

pub tag_all : ℕ → List (List ExecTask) → List ExecTask
tag_all i [] = []
tag_all i (part ∷ parts) = tag i part ++ tag_all (suc i) parts

pub get_tasks : List Split → List ExecTask → List ExecTask → Option (List ExecTask)
get_tasks splits tasks spare = do parts ← take_splits splits tasks spare 0 0; some (tag_all 0 parts)
