-- ===== src/Data/Slices/Laws.antt =====
-- skyhook/data.go: copying sequence data from a SliceReader to a SliceWriter.
use skyhookml.Prelude.{
  nat_eq, text_eq, pair_eq, ℕ, zero, suc, ◌+◌, ◌-◌, ◌≤◌, ◌<◌, min, ◌≡◌, refl, ap, ◌∙◌, inl, inr,
  true, false, Option, none, some, List, [], ◌∷◌, ◌++◌, arith, ltb, eqb, if◌then◌else◌, Bool-cases,
  length, take, drop, take_add, slice, slice_lem,
}
use skyhookml.Data.Slices.{
  SliceReader, ReadResult, eof, out_of_range, chunk, new_slice_reader, slice_or_panic, read, write,
}

-- What a writer has been given, which is nil at first.
abbrev pub contents {ℓ} : {A : Type ℓ} → Option (List A) → List A
contents none = []
contents (some values) = values

-- A client that reads n elements at a time until the end, and writes what it reads.
copy_result {ℓ} :
    {A : Type ℓ}
    → ReadResult A
    → Option (List A)
    → (SliceReader A → Option (List A) → Option (Option (List A)))
    → Option (Option (List A))
copy_result eof w copy_rest = some w
copy_result out_of_range w copy_rest = none
copy_result (chunk values r) w copy_rest = copy_rest r (write w values)

pub copy {ℓ} : {A : Type ℓ} → ℕ → ℕ → SliceReader A → Option (List A) → Option (Option (List A))
copy zero n r w = none
copy (suc fuel) n r w = copy_result (read n r) w (copy fuel n)

contents-write {ℓ} :
    {A : Type ℓ} (w : Option (List A)) (values : List A)
    → contents (write w values) ≡ contents w ++ values
unfolding write
contents-write none values = refl
contents-write (some old) values = refl

pub read-eof {ℓ} :
    {A : Type ℓ} (n : ℕ) (r : SliceReader A) → length r.values ≤ r.pos → read n r ≡ eof
unfolding read
read-eof n r h = let e : eqb (length r.values - r.pos) 0 ≡ true = ground arith in rw e refl

-- A read in the middle of the data gives the next elements, and moves on.
pub read-chunk {ℓ} :
    {A : Type ℓ} (n : ℕ) (r : SliceReader A)
    → r.pos < length r.values
    → 0 < n
    → (k : ℕ) × (0 < k)
      × (r.pos + k ≤ length r.values)
      × (read n r ≡ chunk (take k (drop r.pos r.values)) (record r { pos = r.pos + k }))
      × (k ≡ min n (length r.values - r.pos))
unfolding read slice_or_panic
read-chunk n r h more =
    let k = if ltb (length r.values - r.pos) n then length r.values - r.pos else n in
    let positive : 0 < k = ground arith in
    let inside : r.pos + k ≤ length r.values = ground arith in
    let going : eqb (length r.values - r.pos) 0 ≡ false = ground arith in
    let size : (r.pos + k) - r.pos ≡ k = omega arith in
    (
      k,
      positive,
      inside,
      ap
            (λ b.
              if b
              then eof
              else slice_or_panic (slice r.values r.pos (r.pos + k)) (record r { pos = r.pos + k }))
            going
          ∙ ap (λ o. slice_or_panic o (record r { pos = r.pos + k }))
              (slice_lem r.values r.pos (r.pos + k) (omega arith) inside)
          ∙ ap (λ m. chunk (take m (drop r.pos r.values)) (record r { pos = r.pos + k })) size,
      ground arith,
    )

take-all {ℓ} : {A : Type ℓ} (n : ℕ) (xs : List A) → length xs ≤ n → take n xs ≡ xs
take-all zero [] h = refl
take-all (suc n) [] h = refl
take-all zero (x ∷ xs) h = absurd (omega (arith, h))
take-all (suc n) (x ∷ xs) h = ap (◌∷◌ x) (take-all n xs (omega arith))

copy_from {ℓ} :
    {A : Type ℓ} (fuel n : ℕ) (values : List A) (pos : ℕ) (w : Option (List A))
    → 0 < n
    → length values - pos < fuel
    → contents w ≡ take pos values
    → (w' : Option (List A)) × (copy fuel n (record { values = values; pos = pos }) w ≡ some w')
      × (contents w' ≡ values)
unfolding copy copy_result
copy_from zero n values pos w h enough c = absurd (omega (arith, enough))
copy_from (suc fuel) n values pos w h enough c = elim (Bool-cases (ltb pos (length values))) [
  | inr end ↦
      let over : length values ≤ pos = ground (arith, end) in
      (
        w,
        ap (λ o. copy_result o w (copy fuel n))
            (read-eof n (record { values = values; pos = pos }) over),
        c ∙ take-all pos values over,
      )
  | inl middle ↦
      let (k, positive, inside, e, exact) =
        read-chunk n (record { values = values; pos = pos }) (ground (arith, middle)) h in
      let (w', run, c') =
        copy_from fuel n values (pos + k) (write w (take k (drop pos values))) h
          (omega (arith, enough, positive, inside))
          (contents-write w (take k (drop pos values))
            ∙ ap (λ l. l ++ take k (drop pos values)) c
            ∙ take_add pos k values) in
      (w', ap (λ o. copy_result o w (copy fuel n)) e ∙ run, c')
]

-- Whatever the number n > 0 of elements that are read at a time, a client that reads until the end,
-- and writes what it reads, comes to the end after at most as many reads as there are elements and one
-- more, no read is out of range, and the writer then has exactly the data.
pub copy_lem {ℓ} :
    {A : Type ℓ} (values : List A) (n : ℕ)
    → 0 < n
    → (w : Option (List A)) × (copy (length values + 1) n (new_slice_reader values) none ≡ some w)
      × (contents w ≡ values)
unfolding new_slice_reader
copy_lem values n h = copy_from (length values + 1) n values 0 none h (omega arith) refl
