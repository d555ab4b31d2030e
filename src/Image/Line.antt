-- ===== src/Image/Line.antt =====
-- skyhook/bresenham.go: the cells of a line. Coordinates are integers; a run that needs more rounds
-- than the fuel gives is `none`.
pub mod Laws
mod Tests
use skyhookml.Prelude.{
  nat_eq, text_eq, pair_eq, ℕ, zero, suc, ◌+◌, ◌-◌, Bool, true, false, ◌&&◌, Option, none, some,
  List, [], ◌∷◌, ◌++◌, leb, if◌then◌else◌,
}
use skyhookml.Prelude.Int.{ℤ, pos, negsuc, ◌+ℤ◌, ◌-ℤ◌, abs, leb_ℤ, ltb_ℤ, eqb_ℤ}

abbrev pub Cell : Type 0
Cell = ℤ × ℤ

-- What stays the same in the loop.
pub record Line : Type 0 where
  pub follow_x : Bool
  pub x1 : ℤ
  pub delta_x : ℕ
  pub delta_y : ℕ
  pub xstep : ℤ
  pub ystep : ℤ
  pub max_x : ℤ
  pub max_y : ℤ

-- `+1` if the coordinate is to grow from `a` to `b`, and otherwise `-1`.
pub step_of : ℤ → ℤ → ℤ
step_of a b = if ltb_ℤ a b then pos 1 else negsuc 0

pub in_range : ℤ → ℤ → Cell → Bool
in_range max_x max_y (x, y) = leb_ℤ (pos 0) x && ltb_ℤ x max_x && leb_ℤ (pos 0) y && ltb_ℤ y max_y

pub add_point : Line → List Cell → Cell → List Cell
add_point l points p = if in_range l.max_x l.max_y p then points ++ p ∷ [] else points

-- The cell of the loop's `x` and `y`, which are swapped if the line is followed along y.
pub cell_of : Line → ℤ → ℤ → Cell
cell_of l x y = if l.follow_x then (x, y) else (y, x)

-- The loop over `x`.
pub walk : ℕ → Line → ℤ → ℤ → ℕ → List Cell → Option (List Cell)
walk zero l x y current_error points = none
walk (suc fuel) l x y current_error points =
    let points' = add_point l points (cell_of l x y) in
    let error' = current_error + l.delta_y in
    let carry = leb l.delta_x error' in
    let rest =
      walk fuel l (x +ℤ l.xstep) (if carry then y +ℤ l.ystep else y)
        (if carry then error' - l.delta_x else error') points' in
    if eqb_ℤ x (l.x1 +ℤ l.xstep) then some points else rest

-- The line between two values along the followed coordinate (x) and the other one (y).
pub line_of : Bool → ℤ → ℤ → ℤ → ℤ → ℤ → ℤ → Line
line_of follow_x x0 y0 x1 y1 max_x max_y = record {
  follow_x = follow_x;
  x1 = x1;
  delta_x = abs (x1 -ℤ x0);
  delta_y = abs (y1 -ℤ y0);
  xstep = step_of x0 x1;
  ystep = step_of y0 y1;
  max_x = max_x;
  max_y = max_y;
}

pub draw_line_on_cells : ℕ → ℤ → ℤ → ℤ → ℤ → ℤ → ℤ → Option (List Cell)
draw_line_on_cells fuel start_x start_y end_x end_y max_x max_y =
    if leb (abs (end_y -ℤ start_y)) (abs (end_x -ℤ start_x))
    then walk fuel (line_of true start_x start_y end_x end_y max_x max_y) start_x start_y 0 []
    else walk fuel (line_of false start_y start_x end_y end_x max_x max_y) start_y start_x 0 []
