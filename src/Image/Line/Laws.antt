-- ===== src/Image/Line/Laws.antt =====
-- skyhook/bresenham.go: the loop ends, and what its points are.
use skyhookml.Prelude.{
  nat_eq, text_eq, pair_eq, ℕ, zero, suc, ◌+◌, ◌-◌, ◌*◌, ◌/◌, ◌%◌, ◌≤◌, ◌<◌, ◌≡◌, refl, sym, ap,
  subst, ◌∙◌, ◌⊎◌, inl, inr, Bool, true, false, some, List, [], ◌∷◌, ◌++◌, append-nil, append_assoc,
  arith, leb, if◌then◌else◌, ltb→lt, ltb→le, Bool-cases, filter,
}
use skyhookml.Prelude.Int.{
  ℤ, pos, ◌+ℤ◌, ◌-ℤ◌, abs, ltb_ℤ, pos_part, neg_part, int_laws, +ℤ_parts, -ℤ_parts, parts_zero,
  eqb_ℤ_iff,
}
use skyhookml.Image.Line.{
  step_of, Cell, cell_of, Line, line_of, in_range, eqb_ℤ, walk, add_point, draw_line_on_cells,
}

-- The value that lies `k` steps from `a` in the direction of `b`.
unfoldable pub toward : ℤ → ℤ → ℕ → ℤ
toward a b k = if ltb_ℤ a b then a +ℤ pos k else a -ℤ pos k

next_quotient_carry :
    (n a d : ℕ)
    → 0 < d
    → a ≤ d
    → d ≤ n % d + a
    → ((n + a) / d ≡ n / d + 1) × ((n + a) % d ≡ n % d + a - d)
next_quotient_carry n a d h k c = grind arith

next_quotient_keep :
    (n a d : ℕ) → 0 < d → n % d + a < d → ((n + a) / d ≡ n / d) × ((n + a) % d ≡ n % d + a)
next_quotient_keep n a d h c = grind arith

toward_zero : (a b : ℤ) → toward a b 0 ≡ a
unfolding toward
toward_zero a b = elim (Bool-cases (ltb_ℤ a b)) [
  | inl up ↦ rw up (omega int_laws)
  | inr down ↦ rw down (omega int_laws)
]

toward_step : (a b : ℤ) (k : ℕ) → toward a b k +ℤ step_of a b ≡ toward a b (k + 1)
unfolding toward step_of
toward_step a b k = elim (Bool-cases (ltb_ℤ a b)) [
  | inl up ↦ rw up (omega int_laws)
  | inr down ↦ rw down (omega int_laws)
]

-- After as many steps as the distance the other end is reached.
toward_end : (a b : ℤ) → toward a b (abs (b -ℤ a)) ≡ b
unfolding toward abs
toward_end a b = elim (Bool-cases (ltb_ℤ a b)) [
  | inl up ↦ rw up (omega (int_laws, parts_zero (b -ℤ a), ltb→lt _ _ up))
  | inr down ↦ rw down (omega (int_laws, parts_zero (b -ℤ a), ltb→le _ _ down))
]

toward_injective : (a b : ℤ) (j k : ℕ) → toward a b j ≡ toward a b k → j ≡ k
unfolding toward
toward_injective a b j k e = elim (Bool-cases (ltb_ℤ a b)) [
  | inl up ↦ up_injective (rw up at e)
  | inr down ↦ down_injective (rw down at e)
]
  where
    up_injective : a +ℤ pos j ≡ a +ℤ pos k → j ≡ k
    up_injective p =
        omega (arith, ap pos_part p, ap neg_part p, +ℤ_parts a (pos j), +ℤ_parts a (pos k))

    down_injective : a -ℤ pos j ≡ a -ℤ pos k → j ≡ k
    down_injective p =
        omega (arith, ap pos_part p, ap neg_part p, -ℤ_parts a (pos j), -ℤ_parts a (pos k))

module _ (follow_x : Bool) (x0 y0 x1 y1 max_x max_y : ℤ) where
  abbrev drawn : Line
  drawn = line_of follow_x x0 y0 x1 y1 max_x max_y

  abbrev dist_x : ℕ
  dist_x = abs (x1 -ℤ x0)

  abbrev dist_y : ℕ
  dist_y = abs (y1 -ℤ y0)

  -- The cell after `k` rounds: `k` steps along the line, and ⌊k * dist_y / dist_x⌋ across.
  unfoldable pub cell : ℕ → Cell
  unfolding cell_of
  cell k = cell_of drawn (toward x0 x1 k) (toward y0 y1 (k * dist_y / dist_x))

  -- `n` cells from the one of index `k` on.
  unfoldable pub cells : ℕ → ℕ → List Cell
  cells zero k = []
  cells (suc n) k = cell k ∷ cells n (k + 1)

  abbrev visible : List Cell → List Cell
  visible = filter (in_range max_x max_y)

  -- The loop's other variables after `k` rounds, unless the loop is over then.
  abbrev AtStep : ℕ → ℕ → ℤ → ℕ → Type 0
  AtStep n k y current_error =
      (n ≡ 0) ⊎ ((y ≡ toward y0 y1 (k * dist_y / dist_x)) × (current_error ≡ k * dist_y % dist_x))

  module _ (flat : dist_y ≤ dist_x) where
    carry_step :
        (k : ℕ)
        → 0 < dist_x
        → let e = k * dist_y % dist_x + dist_y in
          ((if leb dist_x e
              then toward y0 y1 (k * dist_y / dist_x) +ℤ step_of y0 y1
              else toward y0 y1 (k * dist_y / dist_x))
            ≡ toward y0 y1 ((k + 1) * dist_y / dist_x))
          × ((if leb dist_x e then e - dist_x else e) ≡ (k + 1) * dist_y % dist_x)
    carry_step k h = elim (Bool-cases (leb dist_x (k * dist_y % dist_x + dist_y))) [
      | inl over ↦
          let (q, r) = next_quotient_carry (k * dist_y) dist_y dist_x h flat (ground arith) in
          rw over (
            toward_step y0 y1 (k * dist_y / dist_x)
                ∙ ap (toward y0 y1) (sym q ∙ ap (λ n. n / dist_x) one_more),
            sym r ∙ ap (λ n. n % dist_x) one_more,
          )
      | inr under ↦
          let (q, r) = next_quotient_keep (k * dist_y) dist_y dist_x h (ground arith) in
          rw under (
            ap (toward y0 y1) (sym q ∙ ap (λ n. n / dist_x) one_more),
            sym r ∙ ap (λ n. n % dist_x) one_more,
          )
    ]
      where
        one_more : k * dist_y + dist_y ≡ (k + 1) * dist_y
        one_more = omega arith

    at_next :
        (n k : ℕ) (y : ℤ) (current_error : ℕ)
        → k + suc n ≡ dist_x + 1
        → AtStep (suc n) k y current_error
        → let e = current_error + dist_y in
          AtStep n
            (k + 1)
            (if leb dist_x e then y +ℤ step_of y0 y1 else y)
            (if leb dist_x e then e - dist_x else e)
    at_next zero k y current_error e at = inl refl
    at_next (suc n) k y current_error e (inl none_left) = absurd (omega arith)
    at_next (suc n) k y current_error e (inr (same_y, same_error)) =
        rw (same_y, same_error) (inr (carry_step k (omega arith)))

    -- The loop's test tells the last round.
    past_end : x1 +ℤ step_of x0 x1 ≡ toward x0 x1 (dist_x + 1)
    past_end = ap (λ z. z +ℤ step_of x0 x1) (sym (toward_end x0 x1)) ∙ toward_step x0 x1 dist_x

    not_done : (k : ℕ) → k ≤ dist_x → eqb_ℤ (toward x0 x1 k) (x1 +ℤ step_of x0 x1) ≡ false
    not_done k h = elim (Bool-cases (eqb_ℤ (toward x0 x1 k) (x1 +ℤ step_of x0 x1))) [
      | inl same ↦
          let e = toward_injective x0 x1 k (dist_x + 1) ((eqb_ℤ_iff _ _).0 same ∙ past_end) in
          absurd (omega arith)
      | inr other ↦ other
    ]

    done : (k : ℕ) → k ≡ dist_x + 1 → eqb_ℤ (toward x0 x1 k) (x1 +ℤ step_of x0 x1) ≡ true
    done k h = (eqb_ℤ_iff _ _).1 (ap (toward x0 x1) h ∙ sym past_end)

    add_point_append :
        (points : List Cell) (p : Cell) (rest : List Cell)
        → add_point drawn points p ++ rest
          ≡ points ++ (if in_range max_x max_y p then p ∷ rest else rest)
    unfolding add_point line_of
    add_point_append points p rest = elim (Bool-cases (in_range max_x max_y p)) [
      | inl visible_cell ↦ rw visible_cell (append_assoc points (p ∷ []) rest)
      | inr hidden ↦ rw hidden
    ]

    at_cell :
        (n k : ℕ) (y : ℤ) (current_error : ℕ)
        → AtStep (suc n) k y current_error
        → cell_of drawn (toward x0 x1 k) y ≡ cell k
    unfolding cell
    at_cell n k y current_error (inl none_left) = absurd (omega arith)
    at_cell n k y current_error (inr (same_y, same_error)) =
        ap (cell_of drawn (toward x0 x1 k)) same_y

    walk_lem :
        (n k fuel : ℕ) (y : ℤ) (current_error : ℕ) (points : List Cell)
        → k + n ≡ dist_x + 1
        → n < fuel
        → AtStep n k y current_error
        → walk fuel drawn (toward x0 x1 k) y current_error points
          ≡ some (points ++ visible (cells n k))
    unfolding walk cells line_of
    walk_lem n k zero y current_error points e h at = elim h [ ]
    walk_lem zero k (suc fuel) y current_error points e h at =
        rw (done k (omega arith)) (ap some (sym (append-nil points)))
    walk_lem (suc n) k (suc fuel) y current_error points e h at =
        rw (not_done k (omega arith), toward_step x0 x1 k)
          (walk_lem n (k + 1) fuel _ _ _ (omega arith) (omega arith)
              (at_next n k y current_error e at)
            ∙ ap some (
                add_point_append points (cell_of drawn (toward x0 x1 k) y)
                  (visible (cells n (k + 1)))
                ∙ ap
                    (λ p.
                      points
                      ++ (if in_range max_x max_y p
                          then p ∷ visible (cells n (k + 1))
                          else visible (cells n (k + 1))))
                    (at_cell n k y current_error at)))

    -- Enough fuel for the rounds of the loop.
    walk_from_start :
        (fuel : ℕ)
        → dist_x + 1 < fuel
        → walk fuel drawn x0 y0 0 [] ≡ some (visible (cells (dist_x + 1) 0))
    walk_from_start fuel h =
        subst (λ x. walk fuel drawn x y0 0 [] ≡ some (visible (cells (dist_x + 1) 0)))
          (toward_zero x0 x1)
          (walk_lem (dist_x + 1) 0 fuel y0 0 [] (omega arith) h
            (inr (sym (toward_zero y0 y1) ∙ ap (toward y0 y1) (omega arith), omega arith)))

-- Given fuel above the larger distance plus one, the loop ends, and the points are those of the cells
-- ⌊k * e / d⌋ across after k steps along, for k from 0 to d, that lie in range, in this order, where d
-- is the larger of the two distances and e the smaller.
pub draw_line_on_cells_lem :
    (fuel : ℕ) (start_x start_y end_x end_y max_x max_y : ℤ)
    → abs (end_x -ℤ start_x) + 1 < fuel
    → abs (end_y -ℤ start_y) + 1 < fuel
    → draw_line_on_cells fuel start_x start_y end_x end_y max_x max_y
      ≡ some (
          if leb (abs (end_y -ℤ start_y)) (abs (end_x -ℤ start_x))
          then filter
              (in_range max_x max_y)
              (cells true start_x start_y end_x end_y max_x max_y (abs (end_x -ℤ start_x) + 1) 0)
          else filter
              (in_range max_x max_y)
              (cells false start_y start_x end_y end_x max_x max_y (abs (end_y -ℤ start_y) + 1) 0))
unfolding draw_line_on_cells
draw_line_on_cells_lem fuel sx sy ex ey max_x max_y h k =
    elim (Bool-cases (leb (abs (ey -ℤ sy)) (abs (ex -ℤ sx)))) [
      | inl flat ↦ rw flat (walk_from_start true sx sy ex ey max_x max_y (ground arith) fuel h)
      | inr steep ↦ rw steep (walk_from_start false sy sx ey ex max_x max_y (ground arith) fuel k)
    ]
