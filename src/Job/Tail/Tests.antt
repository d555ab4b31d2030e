-- ===== src/Job/Tail/Tests.antt =====
-- skyhook/job.go: TailJobOp on small inputs.
use skyhookml.Prelude.{codes, nat_eq, text_eq, pair_eq, ◌≡◌, refl, some, [], ◌∷◌, arith}
use mathlib.Core.List.{flatten}
use skyhookml.Job.Tail.{
  TailJobOp, update, set_capacity, room, fill, latest, insert, shift, overwrite_end, slice_from,
  copy,
}
use skyhookml.Job.Tail.Laws.{updates, updates-eq-rtake}

abbrev full : TailJobOp
full = record { lines = codes "a" ∷ codes "b" ∷ []; num_lines = 2 }

update_runs :
    update full (codes "c" ∷ []) ≡ some (record full { lines = codes "b" ∷ codes "c" ∷ [] })
unfolding update set_capacity room fill latest insert shift overwrite_end slice_from copy
update_runs = refl

updates-eq-rtake_example :
    updates full ((codes "c" ∷ []) ∷ (codes "d" ∷ codes "e" ∷ codes "f" ∷ []) ∷ [])
    ≡ some (record full { lines = codes "e" ∷ codes "f" ∷ [] })
unfolding flatten
updates-eq-rtake_example =
    updates-eq-rtake full (codes "c" ∷ []) ((codes "d" ∷ codes "e" ∷ codes "f" ∷ []) ∷ [])
      (omega arith)
