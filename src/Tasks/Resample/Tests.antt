-- ===== src/Tasks/Resample/Tests.antt =====
-- exec_ops/resample/resample.go: resampling on small inputs.
use skyhookml.Prelude.{
  nat_eq, text_eq, pair_eq, ℕ, ◌≡◌, refl, some, List, [], ◌∷◌, arith, length, get_elem?,
}
use skyhookml.Tasks.Resample.{slice_one, resample_loop, resample}
use skyhookml.Tasks.Resample.Laws.{resample_lem}

abbrev five : List ℕ
five = 10 ∷ 11 ∷ 12 ∷ 13 ∷ 14 ∷ []

-- Three of every two.
resample_runs : resample five (3, 2) ≡ some (10 ∷ 10 ∷ 11 ∷ 12 ∷ 12 ∷ 13 ∷ 14 ∷ [])
unfolding resample resample_loop slice_one
resample_runs = refl

resample_lem_example :
    (out : List ℕ) × (resample five (3, 2) ≡ some out)
    × (length out ≡ 7)
    × (get_elem? out 5 ≡ some 13)
resample_lem_example = resample_lem five 3 2 5 (omega arith)
