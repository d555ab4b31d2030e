-- ===== src/Image/Line/Tests.antt =====
-- skyhook/bresenham.go: lines between given cells.
use skyhookml.Prelude.{nat_eq, text_eq, pair_eq, ◌≡◌, refl, some, [], ◌∷◌, arith}
use skyhookml.Prelude.Int.{pos, negsuc, ◌+ℤ◌, ◌-ℤ◌, abs}
use skyhookml.Image.Line.{draw_line_on_cells, walk, line_of, add_point, cell_of, step_of, in_range}
use skyhookml.Image.Line.Laws.{cell, cells, toward, draw_line_on_cells_lem}

opened : Unit {0}
unfolding draw_line_on_cells walk line_of add_point cell_of step_of in_range ◌+ℤ◌ ◌-ℤ◌ abs
opened = tt

-- From (0, 0) to (3, 2); the cell in row 2 is out of range.
draw_line_runs :
    draw_line_on_cells 9 (pos 0) (pos 0) (pos 3) (pos 2) (pos 10) (pos 2)
    ≡ some ((pos 0, pos 0) ∷ (pos 1, pos 0) ∷ (pos 2, pos 1) ∷ [])
unfolding opened
draw_line_runs = refl

draw_line_on_cells_lem_example :
    draw_line_on_cells 9 (pos 2) (pos 3) (pos 1) (negsuc 0) (pos 10) (pos 10)
    ≡ some ((pos 2, pos 3) ∷ (pos 2, pos 2) ∷ (pos 2, pos 1) ∷ (pos 2, pos 0) ∷ [])
unfolding opened cells cell toward
draw_line_on_cells_lem_example =
    draw_line_on_cells_lem 9 (pos 2) (pos 3) (pos 1) (negsuc 0) (pos 10) (pos 10) (omega arith)
      (omega arith)
