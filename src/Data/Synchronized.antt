-- ===== src/Data/Synchronized.antt =====
-- skyhook/data_synchronized_reader.go: SynchronizedReader after the readers are opened, and PerFrame. How a
-- reader reads is an argument, and so is the callback, which changes a state of type W. `none` is a panic,
-- or a loop that needs more rounds than the fuel gives.
pub mod Chunks
pub mod Frames
pub mod Result
pub mod InMemory
pub mod Lengths
pub mod SameLength
mod Tests
use skyhookml.Prelude.{
  Text, codes, nat_eq, text_eq, pair_eq, ℕ, zero, suc, ◌+◌, not, ◌&&◌, Option, none, some, List, [],
  ◌∷◌, ◌++◌, ltb, eqb, if◌then◌else◌, ◌>>=◌, length, slice,
}
use skyhookml.Prelude.Decimal.{itoa}

-- What Read returns: the end, an error, a slice bound out of range, or a chunk.
pub data Reading {ℓ κ} (R : Type ℓ) (A : Type κ) : Type (ℓ ⊔ κ) where
  eof : Reading R A
  failed : (err : Text) → Reading R A
  out_of_range : Reading R A
  chunk : List A → R → Reading R A

-- What a callback returns: its error, and the new state.
abbrev pub Outcome : Type 0 → Type 0
Outcome W = Option (Option Text × W)

-- `if err != nil { return err }` after the call of a callback.
pub after_callback : {W : Type 0} → (W → Outcome W) → Option Text × W → Outcome W
after_callback rest (none, w) = rest w
after_callback rest (some err, w) = some (some err, w)

-- The chunks of a round; nil is `none`.
pub data Round (R A : Type 0) : Type 0 where
  stopped : (err : Text) → Round R A
  panicked : Round R A
  chunks : ℕ → List (Option (List A)) → List R → Round R A

abbrev pub different_lengths : Text
different_lengths = codes "inputs have different lengths"

pub push : {R A : Type 0} → Option (List A) → R → Round R A → Round R A
push values r (stopped err) = stopped err
push values r panicked = panicked
push values r (chunks count datas readers) = chunks count (values ∷ datas) (r ∷ readers)

module _ {R A : Type 0} (read : ℕ → R → Reading R A) where
  -- The loop over the readers, from reader i on.
  pub read_all : ℕ → ℕ → ℕ → List R → Round R A
  read_all n i count [] = chunks count [] []
  read_all n i count (r ∷ readers) = elim (read n r) [
    | eof ↦
        if ltb 0 i && not (eqb count 0)
        then stopped different_lengths
        else push none r (read_all n (i + 1) count readers)
    | failed err ↦ stopped (codes "error reading from input " ++ (itoa i ++ (codes ": " ++ err)))
    | out_of_range ↦ panicked
    | chunk values r' ↦
        if eqb i 0
        then push (some values) r' (read_all n (i + 1) (length values) readers)
        else if eqb count (length values)
        then push (some values) r' (read_all n (i + 1) count readers)
        else stopped different_lengths
  ]

  pub synchronized_reader :
      {W : Type 0}
      → (W → ℕ → ℕ → List (Option (List A)) → Outcome W)
      → ℕ
      → ℕ
      → ℕ
      → List R
      → W
      → Outcome W
  synchronized_reader f zero n pos readers w = none
  synchronized_reader f (suc fuel) n pos readers w = elim (read_all n 0 0 readers) [
    | stopped err ↦ some (some err, w)
    | panicked ↦ none
    | chunks count datas readers' ↦
        if eqb count 0
        then some (none, w)
        else (f w pos count datas
            >>= after_callback (synchronized_reader f fuel n (pos + count) readers'))
  ]

-- `specs[itemIdx].Slice(d, i, i+1)` of each data.
pub slices_at : {A : Type 0} → ℕ → List (Option (List A)) → Option (List (List A))
slices_at i [] = some []
slices_at i (none ∷ datas) = none
slices_at i (some values ∷ datas) = do
  element ← slice values i (i + 1)
  cur ← slices_at i datas
  some (element ∷ cur)

module _ {A W : Type 0} (f : W → ℕ → List (List A) → Outcome W) where
  -- The loop over the elements of a chunk, of which k are left.
  pub frame_loop : ℕ → ℕ → ℕ → List (Option (List A)) → W → Outcome W
  frame_loop pos i zero datas w = some (none, w)
  frame_loop pos i (suc k) datas w = do
    cur ← slices_at i datas
    f w (pos + i) cur >>= after_callback (frame_loop pos (i + 1) k datas)

  pub per_frame : {R : Type 0} → (ℕ → R → Reading R A) → ℕ → List R → W → Outcome W
  per_frame read fuel readers w =
      synchronized_reader read (λ w' pos count datas. frame_loop pos 0 count datas w') fuel 32 0
        readers w
