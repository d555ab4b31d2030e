-- ===== src/Tasks/Resample.antt =====
-- exec_ops/resample/resample.go: a sequence read at another rate. `none` is a run-time panic: a
-- division by zero, or a slice bound out of range.
pub mod Laws
mod Tests
use skyhookml.Prelude.{
  nat_eq, text_eq, pair_eq, ℕ, zero, suc, ◌+◌, ◌*◌, ◌/◌, Option, none, some, List, [], ◌∷◌, eqb,
  if◌then◌else◌, ◌>>=◌, length, get_elem?,
}

-- `spec.Slice(data, idx, idx+1)` of a sequence type, whose data are a list.
pub slice_one {ℓ} : {A : Type ℓ} → List A → ℕ → Option A
slice_one = get_elem?

-- The loop writes one slice for each `i`, as long as rounds are left.
pub resample_loop {ℓ} : {A : Type ℓ} → List A → ℕ × ℕ → ℕ → ℕ → Option (List A)
resample_loop xs (num, den) zero i = some []
resample_loop xs (num, den) (suc rounds) i = do
  x ← slice_one xs (i * den / num)
  out ← resample_loop xs (num, den) rounds (i + 1)
  some (x ∷ out)

-- The items that are written for data that is no video, by the fraction (numerator, denominator).
pub resample {ℓ} : {A : Type ℓ} → List A → ℕ × ℕ → Option (List A)
resample xs (num, den) =
    if eqb den 0 then none else resample_loop xs (num, den) (length xs * num / den) 0

-- Of a video only the framerate changes.
pub resample_framerate : ℕ × ℕ → ℕ × ℕ → ℕ × ℕ
resample_framerate (rate_num, rate_den) (num, den) = (rate_num * num, rate_den * den)
