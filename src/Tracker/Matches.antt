-- ===== src/Tracker/Matches.antt =====
-- exec_ops/simple_tracker/tracker.go: the best candidate of each row of ExtractMatches.
use skyhookml.Prelude.{
  nat_eq, text_eq, pair_eq, ℕ, zero, suc, ◌+◌, ◌<◌, ◌≡◌, refl, sym, ap, subst, ◌∙◌, ◌⊎◌, inl, inr,
  Bool, true, Option, none, some, List, [], ◌∷◌, arith, if◌then◌else◌, Bool-cases, length,
  get_elem?,
}
use skyhookml.Tracker.{Params, Candidate, Outside, get_min_iou, best_in_row, row_max}

-- Every row has the width.
abbrev pub IsWide {ℓ} : {S : Type ℓ} → ℕ → List (List S) → Type 0
IsWide width [] = Unit
IsWide width (row ∷ matrix) = (length row ≡ width) × IsWide width matrix

pub IsWide-get_elem? {ℓ} :
    {S : Type ℓ} (width : ℕ) (matrix : List (List S)) (i : ℕ) (row : List S)
    → IsWide width matrix
    → get_elem? matrix i ≡ some row
    → length row ≡ width
IsWide-get_elem? width [] i row wide e = cc
IsWide-get_elem? width (r ∷ matrix) zero row wide e =
    let r≡ : r ≡ row = cc in ap length (sym r≡) ∙ wide.0
IsWide-get_elem? width (r ∷ matrix) (suc i) row wide e =
    IsWide-get_elem? width matrix i row wide.1 e

pub get_elem?-lt {ℓ} :
    {A : Type ℓ} (xs : List A) (i : ℕ) (a : A) → get_elem? xs i ≡ some a → i < length xs
get_elem?-lt [] i a e = cc
get_elem?-lt (x ∷ xs) zero a e = omega arith
get_elem?-lt (x ∷ xs) (suc i) a e = omega (arith, get_elem?-lt xs i a e)

pub get_elem?-some {ℓ} :
    {A : Type ℓ} (xs : List A) (i : ℕ) → i < length xs → (a : A) × (get_elem? xs i ≡ some a)
get_elem?-some [] i lt = absurd (omega (arith, lt))
get_elem?-some (x ∷ xs) zero lt = (x, refl)
get_elem?-some (x ∷ xs) (suc i) lt = get_elem?-some xs i (omega (arith, lt))

pub add_zero : (n : ℕ) → n + 0 ≡ n
add_zero n = omega arith

pub zero_add : (n : ℕ) → n ≡ 0 + n
zero_add n = omega arith

pub shift : (n k : ℕ) → n + suc k ≡ n + 1 + k
shift n k = omega arith

abbrev pub IsTransitive : {S : Type 0} → (S → S → Bool) → Type 0
IsTransitive {S = S} gt = (a b c : S) → gt a b ≡ true → gt b c ≡ true → gt a c ≡ true

module _ {S : Type 0} (o : Outside S) (params : Params S) (matrix : List (List S)) where
  -- The matrix has this score in a cell, and it is above the minimum.
  abbrev pub Scored : ℕ → ℕ → S → Type 0
  Scored i j score =
      (row : List S) × (get_elem? matrix i ≡ some row)
      × (get_elem? row j ≡ some score)
      × (o.gt score (get_min_iou o params) ≡ true)

  -- A candidate of row i.
  abbrev pub RowAt : ℕ → Option (ℕ × ℕ) → S → Type 0
  RowAt i none score = Unit
  RowAt i (some (r, j)) score = (r ≡ i) × Scored r j score

  abbrev pub RowsAt : ℕ → List (Candidate S) → Type 0
  RowsAt i [] = Unit
  RowsAt i (c ∷ candidates) = RowAt i c.cell c.score × RowsAt (i + 1) candidates

  best_in_row-RowAt :
      (trans : IsTransitive o.gt) (i j : ℕ) (full row : List S) (best : Candidate S)
      → get_elem? matrix i ≡ some full
      → ((k : ℕ) (x : S) → get_elem? row k ≡ some x → get_elem? full (j + k) ≡ some x)
      → RowAt i best.cell best.score
      → (best.score ≡ get_min_iou o params) ⊎ (o.gt best.score (get_min_iou o params) ≡ true)
      → RowAt i (best_in_row o params i j row best).cell (best_in_row o params i j row best).score
  unfolding best_in_row
  best_in_row-RowAt trans i j full [] best e inside at above = at
  best_in_row-RowAt trans i j full (prob ∷ row) best e inside at above =
      let better : Candidate S = record { cell = some (i, j); score = prob } in
      let choose : Bool → Candidate S = λ b. if b then better else best in
      let Goal : Candidate S → Type 0 = λ c.
        RowAt i (best_in_row o params i (j + 1) row c).cell
          (best_in_row o params i (j + 1) row c).score in
      elim (Bool-cases (o.gt prob best.score)) [
        | inr lower ↦
            subst Goal (sym (ap choose lower))
              (best_in_row-RowAt trans i (j + 1) full row best e next at above)
        | inl higher ↦
            let over = over_min higher above in
            let found =
              subst (λ k. get_elem? full k ≡ some prob) (add_zero j) (inside 0 prob refl) in
            subst Goal (sym (ap choose higher)) (
              best_in_row-RowAt trans i (j + 1) full row better e next
                (refl, (full, e, found, over)) (inr over))
      ]
    where
      next : (k : ℕ) (x : S) → get_elem? row k ≡ some x → get_elem? full (j + 1 + k) ≡ some x
      next k x f = subst (λ n. get_elem? full n ≡ some x) (shift j k) (inside (suc k) x f)

      over_min :
          o.gt prob best.score ≡ true
          → (best.score ≡ get_min_iou o params) ⊎ (o.gt best.score (get_min_iou o params) ≡ true)
          → o.gt prob (get_min_iou o params) ≡ true
      over_min higher (inl same) = subst (λ m. o.gt prob m ≡ true) same higher
      over_min higher (inr more) = trans prob best.score (get_min_iou o params) higher more

  pub row_max-RowsAt :
      (trans : IsTransitive o.gt) (i : ℕ) (rows : List (List S))
      → ((k : ℕ) (row : List S) → get_elem? rows k ≡ some row → get_elem? matrix (i + k) ≡ some row)
      → RowsAt i (row_max o params i rows)
  unfolding row_max
  row_max-RowsAt trans i [] inside = tt
  row_max-RowsAt trans i (row ∷ rows) inside =
      let here : i + 0 ≡ i = omega arith in
      (
        best_in_row-RowAt trans i 0 row row (record { cell = none; score = get_min_iou o params })
            (subst (λ n. get_elem? matrix n ≡ some row) here (inside 0 row refl))
            (λ k x e. subst (λ n. get_elem? row n ≡ some x) (zero_add k) e) tt (inl refl),
        row_max-RowsAt trans (i + 1) rows
            (λ k r e. subst (λ n. get_elem? matrix n ≡ some r) (shift i k) (inside (suc k) r e)),
      )
