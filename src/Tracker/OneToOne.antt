-- ===== src/Tracker/OneToOne.antt =====
-- exec_ops/simple_tracker/tracker.go: ExtractMatches gives one-to-one matches of good scores.
use skyhookml.Prelude.{
  contains, Distinct, ◌==◌, nat_eq, text_eq, pair_eq, ℕ, zero, suc, ◌+◌, ◌≡◌, refl, sym, ap, subst,
  ◌∙◌, inl, inr, true, false, ◌||◌, Option, none, some, List, [], ◌∷◌, ◌++◌, arith, eqb, Bool-cases,
  ◌>>=◌, length, get_elem?, set, replicate, length-replicate, length-set,
}
use skyhookml.Tracker.{
  row_max, Params, Candidate, Outside, place, col_max, cell_list, cells, extract_matches,
}
use skyhookml.Tracker.Matches.{
  IsWide, IsWide-get_elem?, get_elem?-lt, get_elem?-some, Scored, RowAt, RowsAt, IsTransitive,
  row_max-RowsAt, zero_add,
}
use skyhookml.Tracker.Columns.{
  match_rows, ColAt, ColsAt, ColsAt-weaken, ColsAt-set, ColsAt-bound, set-rows, IsPlaced,
  match_cols, ColsAt-Distinct,
}

module _ {S : Type 0} (o : Outside S) (params : Params S) where
  tail-Distinct :
      (i : ℕ) (cell : Option (ℕ × ℕ)) (rest rest' : List (ℕ × ℕ))
      → ((k : ℕ)
          → contains (match_rows rest') k ≡ true
          → ((i == k) || contains (match_rows rest) k) ≡ true)
      → Distinct (match_rows (cell_list o params cell ++ rest))
      → contains (match_rows (cell_list o params cell ++ rest)) i ≡ false
      → (Distinct (match_rows rest)
          → contains (match_rows rest) i ≡ false
          → Distinct (match_rows rest'))
      → Distinct (match_rows (cell_list o params cell ++ rest'))
  unfolding cell_list
  tail-Distinct i none rest rest' within d fresh next = next d fresh
  tail-Distinct i (some (r, j)) rest rest' within d fresh next = (
    ground (arith, within r, d.0, fresh, nat_eq.test_iff i r, nat_eq.test_iff r i),
    next d.1 (ground (arith, fresh)),
  )

  new-Distinct :
      (i j : ℕ) (cell : Option (ℕ × ℕ)) (rest : List (ℕ × ℕ))
      → Distinct (match_rows (cell_list o params cell ++ rest))
      → contains (match_rows (cell_list o params cell ++ rest)) i ≡ false
      → Distinct (i ∷ match_rows rest)
  unfolding cell_list
  new-Distinct i j none rest d fresh = (fresh, d)
  new-Distinct i j (some (r, l)) rest d fresh = (ground (arith, fresh), d.1)

  set-Distinct :
      (i j n : ℕ) (score : S) (cols : List (Candidate S))
      → Distinct (match_rows (cells o params cols))
      → contains (match_rows (cells o params cols)) i ≡ false
      → Distinct
          (match_rows (cells o params (set cols n (record { cell = some (i, j); score = score }))))
  unfolding cells cell_list
  set-Distinct i j n score [] d fresh = tt
  set-Distinct i j zero score (c ∷ cols) d fresh =
      new-Distinct i j c.cell (cells o params cols) d fresh
  set-Distinct i j (suc n) score (c ∷ cols) d fresh =
      tail-Distinct i c.cell (cells o params cols)
        (cells o params (set cols n (record { cell = some (i, j); score = score })))
        (set-rows o params [] i j n score cols) d fresh (set-Distinct i j n score cols)

  module _ (matrix : List (List S)) (wide : ℕ) (is_wide : IsWide wide matrix) where
    place-IsPlaced :
        (i : ℕ) (cell : Option (ℕ × ℕ)) (score : S) (cols : List (Candidate S))
        → RowAt o params matrix i cell score
        → IsPlaced o params matrix wide i cols
        → (cols' : List (Candidate S)) × (place o params cell
              (record { cell = cell; score = score })
              cols
            ≡ some cols')
          × IsPlaced o params matrix wide (i + 1) cols'
    unfolding place
    place-IsPlaced i none score cols at p = (
      cols,
      refl,
      record {
        at = ColsAt-weaken o params matrix i 0 cols p.at;
        distinct = p.distinct;
        width = p.width;
      },
    )
    place-IsPlaced i (some (r, j)) score cols at p =
        let (row, found, in_row, above) = at.1 in
        let lt = get_elem?-lt row j score in_row in
        let row_wide = IsWide-get_elem? wide matrix r row is_wide found in
        let (old, e) = get_elem?-some cols j (omega (arith, lt, row_wide, p.width)) in
        let new : Candidate S = record { cell = some (r, j); score = score } in
        let fresh = ColsAt-bound o params matrix i 0 cols p.at in
        elim (Bool-cases (o.gt score old.score)) [
          | inr lower ↦ (
            cols,
            rw (e, lower) refl,
            record {
              at = ColsAt-weaken o params matrix i 0 cols p.at;
              distinct = p.distinct;
              width = p.width;
            },
          )
          | inl higher ↦ (
            set cols j new,
            rw (e, higher) refl,
            record {
              at =
                  ColsAt-set o params matrix (i + 1) 0 j cols new
                    (ColsAt-weaken o params matrix i 0 cols p.at)
                    (omega arith, omega (arith, at.0), at.1);
              distinct = set-Distinct r j j score cols p.distinct (
                  subst (λ n. contains (match_rows (cells o params cols)) n ≡ false) (sym at.0)
                    fresh);
              width = length-set cols j new ∙ p.width;
            },
          )
        ]

    col_max-IsPlaced :
        (i : ℕ) (candidates cols : List (Candidate S))
        → RowsAt o params matrix i candidates
        → IsPlaced o params matrix wide i cols
        → (cols' : List (Candidate S)) × (bound : ℕ) × (col_max o params candidates cols
            ≡ some cols')
          × IsPlaced o params matrix wide bound cols'
    unfolding col_max
    col_max-IsPlaced i [] cols rows p = (cols, i, refl, p)
    col_max-IsPlaced i (c ∷ candidates) cols rows p =
        let (cols', run, p') = place-IsPlaced i c.cell c.score cols rows.0 p in
        let (end, bound, rest, q) = col_max-IsPlaced (i + 1) candidates cols' rows.1 p' in
        (end, bound, ap (λ r. r >>= λ cs. col_max o params candidates cs) run ∙ rest, q)

    replicate-ColsAt :
        (n j : ℕ)
        → ColsAt o params matrix 0 j (replicate n (record { cell = none; score = o.zero_score }))
    replicate-ColsAt zero j = tt
    replicate-ColsAt (suc n) j = (tt, replicate-ColsAt n (j + 1))

    cells-replicate :
        (n : ℕ) → cells o params (replicate n (record { cell = none; score = o.zero_score })) ≡ []
    unfolding cells cell_list
    cells-replicate zero = refl
    cells-replicate (suc n) = cells-replicate n

  module _ (matrix : List (List S)) where
    -- Every match is a cell of the matrix whose score is above the minimum.
    abbrev pub AllScored : List (ℕ × ℕ) → Type 0
    AllScored [] = Unit
    AllScored ((i, j) ∷ matches) =
        ((score : S) × Scored o params matrix i j score) × AllScored matches

    head-AllScored :
        (bound j : ℕ) (cell : Option (ℕ × ℕ)) (score : S) (rest : List (ℕ × ℕ))
        → ColAt o params matrix bound j cell score
        → AllScored rest
        → AllScored (cell_list o params cell ++ rest)
    unfolding cell_list
    head-AllScored bound j none score rest at all = all
    head-AllScored bound j (some (r, k)) score rest at all = ((score, at.2), all)

    cells-AllScored :
        (bound j : ℕ) (cols : List (Candidate S))
        → ColsAt o params matrix bound j cols
        → AllScored (cells o params cols)
    unfolding cells
    cells-AllScored bound j [] at = tt
    cells-AllScored bound j (c ∷ cols) at =
        head-AllScored bound j c.cell c.score (cells o params cols) at.0
          (cells-AllScored bound (j + 1) cols at.1)

  -- On a matrix whose rows have one length, ExtractMatches does not panic, and its matches are
  -- cells of the matrix with scores above the minimum, no two of them in a row or in a column. The
  -- comparison of scores is transitive.
  pub extract_matches_lem :
      (matrix : List (List S)) (wide : ℕ)
      → IsTransitive o.gt
      → IsWide wide matrix
      → (matches : List (ℕ × ℕ)) × (extract_matches o params matrix ≡ some matches)
        × AllScored matrix matches
        × Distinct (match_rows matches)
        × Distinct (match_cols matches)
  unfolding extract_matches
  extract_matches_lem [] wide trans is_wide = ([], refl, tt, tt, tt)
  extract_matches_lem (row ∷ rest) wide trans is_wide = elim (Bool-cases (eqb (length row) 0)) [
    | inl empty ↦ ([], rw empty refl, tt, tt, tt)
    | inr some_col ↦
        let matrix = row ∷ rest in
        let (cols, bound, run, p) =
          col_max-IsPlaced matrix wide is_wide 0 (row_max o params 0 matrix)
            (replicate (length row) (record { cell = none; score = o.zero_score }))
            (row_max-RowsAt o params matrix trans 0 matrix
              (λ k r e. subst (λ n. get_elem? matrix n ≡ some r) (zero_add k) e))
            (record {
              at = replicate-ColsAt matrix wide is_wide (length row) 0;
              distinct =
                  subst (λ ms. Distinct (match_rows ms))
                    (sym (cells-replicate matrix wide is_wide (length row))) tt;
              width = length-replicate (length row) _ ∙ is_wide.0;
            }) in
        (
          cells o params cols,
          rw (some_col, run) refl,
          cells-AllScored matrix bound 0 cols p.at,
          p.distinct,
          ColsAt-Distinct o params matrix bound 0 cols p.at,
        )
  ]
