-- ===== src/Tasks/Resample/Laws.antt =====
-- exec_ops/resample/resample.go: what the resampled sequence holds.
use skyhookml.Prelude.{
  nat_eq, text_eq, pair_eq, ℕ, zero, suc, ◌+◌, ◌*◌, ◌/◌, ◌≤◌, ◌<◌, ◌≡◌, refl, sym, ap, ◌∙◌, inl,
  inr, false, none, some, List, [], ◌∷◌, arith, ltb, eqb, if◌then◌else◌, Bool-cases, length,
  get_elem?, get_elem?-none,
}
use skyhookml.Tasks.Resample.{slice_one, resample_loop, resample}

-- The source index of an output index lies in the data.
index_in_range : (n num den i : ℕ) → 0 < den → i < n * num / den → i * den / num < n
index_in_range n num den i h lt = grind arith

get_elem?-some {ℓ} :
    {A : Type ℓ} (xs : List A) (i : ℕ) → i < length xs → (x : A) × (get_elem? xs i ≡ some x)
get_elem?-some [] i h = absurd (omega arith)
get_elem?-some (x ∷ xs) zero h = (x, refl)
get_elem?-some (x ∷ xs) (suc i) h = get_elem?-some xs i (omega arith)

module _ {ℓ} {A : Type ℓ} (xs : List A) (num den : ℕ) (h : 0 < den) where
  -- What a list of outputs from index `i` on has to be.
  abbrev IsSampled : ℕ → List A → Type ℓ
  IsSampled i out = (k : ℕ) → k < length out → get_elem? out k ≡ get_elem? xs ((i + k) * den / num)

  IsSampled-cons :
      (i : ℕ) (x : A) (out : List A)
      → get_elem? xs (i * den / num) ≡ some x
      → IsSampled (i + 1) out
      → IsSampled i (x ∷ out)
  IsSampled-cons i x out found sampled zero lt =
      let e : i ≡ i + 0 = omega arith in rw (← e) (sym found)
  IsSampled-cons i x out found sampled (suc k) lt =
      let e : i + 1 + k ≡ i + suc k = omega arith in rw (← e) (sampled k (omega arith))

  resample_loop_lem :
      (rounds i : ℕ)
      → i + rounds ≤ length xs * num / den
      → (out : List A) × (resample_loop xs (num, den) rounds i ≡ some out)
        × (length out ≡ rounds)
        × IsSampled i out
  unfolding resample_loop slice_one
  resample_loop_lem zero i fits = ([], refl, refl, λ k lt. absurd (omega arith))
  resample_loop_lem (suc rounds) i fits =
      let (x, found) =
        get_elem?-some xs (i * den / num) (index_in_range (length xs) num den i h (omega arith)) in
      let (out, run, len, sampled) = resample_loop_lem rounds (i + 1) (omega arith) in
      (x ∷ out, rw (found, run), ap suc len, IsSampled-cons i x out found sampled)

-- By a fraction num/den with den > 0 no slice is out of range: the result has ⌊n * num / den⌋
-- elements for n in the data, and its element i, if i is below that number, is the element
-- ⌊i * den / num⌋ of the data.
pub resample_lem {ℓ} :
    {A : Type ℓ} (xs : List A) (num den i : ℕ)
    → 0 < den
    → (out : List A) × (resample xs (num, den) ≡ some out)
      × (length out ≡ length xs * num / den)
      × (get_elem? out i
          ≡ (if ltb i (length xs * num / den) then get_elem? xs (i * den / num) else none))
unfolding resample
resample_lem xs num den i h =
    let (out, run, len, sampled) =
      resample_loop_lem xs num den h (length xs * num / den) 0 (omega arith) in
    let nonzero : eqb den 0 ≡ false = ground arith in
    (
      out,
      rw nonzero run,
      len,
      elim (Bool-cases (ltb i (length xs * num / den))) [
        | inl inside ↦
            rw inside (
              sampled i (ground (arith, len))
              ∙ ap (λ j. get_elem? xs (j * den / num)) (omega arith))
        | inr outside ↦ rw outside (get_elem?-none out i (ground (arith, len)))
      ],
    )
