-- ===== src/Data/Slices/Tests.antt =====
-- skyhook/data.go: five elements, two at a time.
use skyhookml.Prelude.{nat_eq, text_eq, pair_eq, ℕ, ◌≡◌, Option, none, some, List, [], ◌∷◌, arith}
use skyhookml.Data.Slices.{new_slice_reader}
use skyhookml.Data.Slices.Laws.{copy, contents, copy_lem}

copy_lem_example :
    (w : Option (List ℕ)) × (copy 6 2 (new_slice_reader (1 ∷ 2 ∷ 3 ∷ 4 ∷ 5 ∷ [])) none ≡ some w)
    × (contents w ≡ 1 ∷ 2 ∷ 3 ∷ 4 ∷ 5 ∷ [])
copy_lem_example = copy_lem (1 ∷ 2 ∷ 3 ∷ 4 ∷ 5 ∷ []) 2 (omega arith)
