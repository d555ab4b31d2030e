-- ===== src/Data/Slices.antt =====
-- skyhook/data.go: SliceReader and SliceWriter, for sequence data in memory. The data is a list, which the
-- spec's Length, Slice and Append read as `length`, Go's slice expression and `append`.
pub mod Laws
mod Tests
use skyhookml.Prelude.{
  nat_eq, text_eq, pair_eq, ℕ, ◌+◌, ◌-◌, Option, none, some, List, ◌++◌, ltb, eqb, if◌then◌else◌,
  length, slice,
}

pub record SliceReader {ℓ} (A : Type ℓ) : Type ℓ where
  pub values : List A
  pub pos : ℕ

pub data ReadResult {ℓ} (A : Type ℓ) : Type ℓ where
  eof : ReadResult A
  -- The run-time panic of a slice bound out of range.
  out_of_range : ReadResult A
  chunk : List A → SliceReader A → ReadResult A

pub new_slice_reader {ℓ} : {A : Type ℓ} → List A → SliceReader A
new_slice_reader values = record { values = values; pos = 0 }

pub slice_or_panic {ℓ} : {A : Type ℓ} → Option (List A) → SliceReader A → ReadResult A
slice_or_panic none r = out_of_range
slice_or_panic (some values) r = chunk values r

pub read {ℓ} : {A : Type ℓ} → ℕ → SliceReader A → ReadResult A
read n r =
    let remaining = length r.values - r.pos in
    let n' = if ltb remaining n then remaining else n in
    if eqb remaining 0
    then eof
    else slice_or_panic (slice r.values r.pos (r.pos + n')) (record r { pos = r.pos + n' })

-- What a writer has so far; `none` is nil.
pub write {ℓ} : {A : Type ℓ} → Option (List A) → List A → Option (List A)
write none values = some values
write (some old) values = some (old ++ values)
