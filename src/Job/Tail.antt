-- ===== src/Job/Tail.antt =====
-- skyhook/job.go: TailJobOp, the job output of which the latest lines are kept.
-- `none` is a run-time panic (a slice bound out of range).
pub mod Laws
mod Tests
use skyhookml.Prelude.{
  Text, nat_eq, text_eq, pair_eq, ℕ, ◌-◌, min, Option, none, some, List, [], ◌∷◌, ◌++◌, ltb, leb,
  eqb, if◌then◌else◌, ◌>>=◌, length, take, drop,
}

abbrev pub tail_job_op_num_lines : ℕ
tail_job_op_num_lines = 1000

pub record TailJobOp : Type 0 where
  pub lines : List Text
  pub num_lines : ℕ

-- Go's `copy(dst, src)`: what `dst` holds afterwards. It copies as many elements as both have.
copy {ℓ} : {A : Type ℓ} → List A → List A → List A
copy [] src = []
copy (d ∷ ds) [] = d ∷ ds
copy (d ∷ ds) (s ∷ ss) = s ∷ copy ds ss

-- Go's `xs[i:]`.
slice_from {ℓ} : {A : Type ℓ} → List A → ℕ → Option (List A)
slice_from xs i = if leb i (length xs) then some (drop i xs) else none

-- The default capacity is set on the first call.
set_capacity : TailJobOp → TailJobOp
set_capacity op = if eqb op.num_lines 0 then record op { num_lines = tail_job_op_num_lines } else op

-- How many of the new lines still fit.
room : TailJobOp → List Text → ℕ
room op new =
    if ltb (length op.lines) op.num_lines
    then min (length new) (op.num_lines - length op.lines)
    else 0

-- The lines that fit are appended.
fill : TailJobOp → List Text → TailJobOp
fill op new = record op { lines = op.lines ++ take (room op new) new }

-- `copy(lines[len(lines)-len(new):], new)`: the lines with their end overwritten.
overwrite_end : List Text → List Text → Option (List Text)
overwrite_end lines new =
    let start = length lines - length new in
    if leb (length new) (length lines)
    then some (take start lines ++ copy (drop start lines) new)
    else none

-- Shift the full buffer to the left by the number of new lines, and write these at its end.
shift : TailJobOp → List Text → Option TailJobOp
shift op new = do
  source ← slice_from op.lines (length new)
  lines ← overwrite_end (copy op.lines source) new
  some (record op { lines = lines })

-- Of more new lines than the buffer holds, only the last ones are inserted.
latest : TailJobOp → List Text → List Text
latest op new = if ltb op.num_lines (length new) then drop (length new - op.num_lines) new else new

insert : TailJobOp → List Text → Option TailJobOp
insert op new = if ltb 0 (length (latest op new)) then shift op (latest op new) else some op

pub update : TailJobOp → List Text → Option TailJobOp
update op new = let op' = set_capacity op in insert (fill op' new) (drop (room op' new) new)
