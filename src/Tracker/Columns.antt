-- ===== src/Tracker/Columns.antt =====
-- exec_ops/simple_tracker/tracker.go: the matches of ExtractMatches are one-to-one.
use skyhookml.Prelude.{
  contains, Distinct, ◌==◌, nat_eq, text_eq, pair_eq, ℕ, zero, suc, ◌+◌, ◌<◌, ◌≡◌, refl, sym, subst,
  true, false, ◌||◌, Option, none, some, List, [], ◌∷◌, ◌++◌, arith, length, set,
}
use skyhookml.Tracker.{Params, Candidate, Outside, cell_list, cells}
use skyhookml.Tracker.Matches.{Scored}

abbrev pub match_rows : List (ℕ × ℕ) → List ℕ
match_rows [] = []
match_rows ((i, j) ∷ matches) = i ∷ match_rows matches

abbrev pub match_cols : List (ℕ × ℕ) → List ℕ
match_cols [] = []
match_cols ((i, j) ∷ matches) = j ∷ match_cols matches

module _ {S : Type 0} (o : Outside S) (params : Params S) (matrix : List (List S)) where
  -- A candidate of column j whose row is below the bound.
  abbrev pub ColAt : ℕ → ℕ → Option (ℕ × ℕ) → S → Type 0
  ColAt bound j none score = Unit
  ColAt bound j (some (r, k)) score = (k ≡ j) × (r < bound) × Scored o params matrix r k score

  abbrev pub ColsAt : ℕ → ℕ → List (Candidate S) → Type 0
  ColsAt bound j [] = Unit
  ColsAt bound j (c ∷ cols) = ColAt bound j c.cell c.score × ColsAt bound (j + 1) cols

  ColAt-weaken :
      (bound j : ℕ) (cell : Option (ℕ × ℕ)) (score : S)
      → ColAt bound j cell score
      → ColAt (bound + 1) j cell score
  ColAt-weaken bound j none score at = tt
  ColAt-weaken bound j (some (r, k)) score at = (at.0, omega (arith, at.1), at.2)

  pub ColsAt-weaken :
      (bound j : ℕ) (cols : List (Candidate S)) → ColsAt bound j cols → ColsAt (bound + 1) j cols
  ColsAt-weaken bound j [] at = tt
  ColsAt-weaken bound j (c ∷ cols) at =
      (ColAt-weaken bound j c.cell c.score at.0, ColsAt-weaken bound (j + 1) cols at.1)

  pub ColsAt-set :
      (bound j k : ℕ) (cols : List (Candidate S)) (c : Candidate S)
      → ColsAt bound j cols
      → ColAt bound (j + k) c.cell c.score
      → ColsAt bound j (set cols k c)
  ColsAt-set bound j k [] c at new = tt
  ColsAt-set bound j zero (d ∷ cols) c at new =
      let here : j + 0 ≡ j = omega arith in
      (subst (λ n. ColAt bound n c.cell c.score) here new, at.1)
  ColsAt-set bound j (suc k) (d ∷ cols) c at new =
      let next : j + suc k ≡ j + 1 + k = omega arith in
      (
        at.0,
        ColsAt-set bound (j + 1) k cols c at.1 (subst (λ n. ColAt bound n c.cell c.score) next new),
      )

  -- What holds of the columns, where the rows up to the bound have been placed.
  pub record IsPlaced (wide bound : ℕ) (cols : List (Candidate S)) : Type 0 where
    pub at : ColsAt bound 0 cols
    pub distinct : Distinct (match_rows (cells o params cols))
    pub width : length cols ≡ wide

  -- The rows of the matches are below the bound.
  head-bound :
      (bound j : ℕ) (cell : Option (ℕ × ℕ)) (score : S) (rest : List (ℕ × ℕ))
      → ColAt bound j cell score
      → contains (match_rows rest) bound ≡ false
      → contains (match_rows (cell_list o params cell ++ rest)) bound ≡ false
  unfolding cell_list
  head-bound bound j none score rest here c = c
  head-bound bound j (some (r, k)) score rest here c =
      ground (arith, here.1, c, nat_eq.test_iff r bound)

  pub ColsAt-bound :
      (bound j : ℕ) (cols : List (Candidate S))
      → ColsAt bound j cols
      → contains (match_rows (cells o params cols)) bound ≡ false
  unfolding cells
  ColsAt-bound bound j [] at = refl
  ColsAt-bound bound j (c ∷ cols) at =
      head-bound bound j c.cell c.score (cells o params cols) at.0
        (ColsAt-bound bound (j + 1) cols at.1)

  -- Matches of columns from j on have no column before it.
  head-column :
      (bound j k : ℕ) (cell : Option (ℕ × ℕ)) (score : S) (rest : List (ℕ × ℕ))
      → k < j
      → ColAt bound j cell score
      → contains (match_cols rest) k ≡ false
      → contains (match_cols (cell_list o params cell ++ rest)) k ≡ false
  unfolding cell_list
  head-column bound j k none score rest lt here c = c
  head-column bound j k (some (r, i)) score rest lt here c =
      ground (arith, here.0, c, lt, nat_eq.test_iff i k)

  ColsAt-column :
      (bound j k : ℕ) (cols : List (Candidate S))
      → k < j
      → ColsAt bound j cols
      → contains (match_cols (cells o params cols)) k ≡ false
  unfolding cells
  ColsAt-column bound j k [] lt at = refl
  ColsAt-column bound j k (c ∷ cols) lt at =
      head-column bound j k c.cell c.score (cells o params cols) lt at.0
        (ColsAt-column bound (j + 1) k cols (omega (arith, lt)) at.1)

  head-Distinct :
      (bound j : ℕ) (cell : Option (ℕ × ℕ)) (score : S) (rest : List (ℕ × ℕ))
      → ColAt bound j cell score
      → contains (match_cols rest) j ≡ false
      → Distinct (match_cols rest)
      → Distinct (match_cols (cell_list o params cell ++ rest))
  unfolding cell_list
  head-Distinct bound j none score rest here c d = d
  head-Distinct bound j (some (r, i)) score rest here c d =
      (subst (λ n. contains (match_cols rest) n ≡ false) (sym here.0) c, d)

  pub ColsAt-Distinct :
      (bound j : ℕ) (cols : List (Candidate S))
      → ColsAt bound j cols
      → Distinct (match_cols (cells o params cols))
  unfolding cells
  ColsAt-Distinct bound j [] at = tt
  ColsAt-Distinct bound j (c ∷ cols) at =
      head-Distinct bound j c.cell c.score (cells o params cols) at.0
        (ColsAt-column bound (j + 1) j cols (omega arith) at.1)
        (ColsAt-Distinct bound (j + 1) cols at.1)

  -- The rows after a candidate is put into a column.
  tail-row :
      (i : ℕ) (cell : Option (ℕ × ℕ)) (rest rest' : List (ℕ × ℕ))
      → ((k : ℕ)
          → contains (match_rows rest') k ≡ true
          → ((i == k) || contains (match_rows rest) k) ≡ true)
      → (k : ℕ) → contains (match_rows (cell_list o params cell ++ rest')) k ≡ true
      → ((i == k) || contains (match_rows (cell_list o params cell ++ rest)) k) ≡ true
  unfolding cell_list
  tail-row i none rest rest' within k c = within k c
  tail-row i (some (r, j)) rest rest' within k c = ground (arith, c, within k)

  new-row :
      (i j k : ℕ) (cell : Option (ℕ × ℕ)) (rest : List (ℕ × ℕ))
      → contains (i ∷ match_rows rest) k ≡ true
      → ((i == k) || contains (match_rows (cell_list o params cell ++ rest)) k) ≡ true
  unfolding cell_list
  new-row i j k none rest c = c
  new-row i j k (some (r, l)) rest c = ground (arith, c)

  pub set-rows :
      (i j n : ℕ) (score : S) (cols : List (Candidate S)) (k : ℕ)
      → contains
          (match_rows (cells o params (set cols n (record { cell = some (i, j); score = score }))))
          k
        ≡ true
      → ((i == k) || contains (match_rows (cells o params cols)) k) ≡ true
  unfolding cells cell_list
  set-rows i j n score [] k c = cc
  set-rows i j zero score (d ∷ cols) k c = new-row i j k d.cell (cells o params cols) c
  set-rows i j (suc n) score (d ∷ cols) k c =
      tail-row i d.cell (cells o params cols)
        (cells o params (set cols n (record { cell = some (i, j); score = score })))
        (set-rows i j n score cols) k c
