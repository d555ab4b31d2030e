-- ===== src/Data/Synchronized/InMemory.antt =====
-- skyhook/data_synchronized_reader.go: the readers of data in memory, which SynchronizedReader uses for items
-- that are not on disk.
use skyhookml.Prelude.{
  nat_eq, text_eq, pair_eq, ℕ, ◌+◌, ◌<◌, min, ◌≡◌, refl, sym, ap, ◌∙◌, inl, inr, List, arith, ltb,
  Bool-cases, length, take, drop, length-drop, take-all, drop-all, drop-drop,
}
use skyhookml.Data.Slices
use skyhookml.Data.Slices.{SliceReader, ReadResult, new_slice_reader}
use skyhookml.Data.Slices.Laws.{read-eof, read-chunk}
use skyhookml.Data.Synchronized.{Reading, eof, out_of_range, chunk}
use skyhookml.Data.Synchronized.Chunks.{SequenceReader}

pub to_reading : {A : Type 0} → ReadResult A → Reading (SliceReader A) A
to_reading ReadResult.eof = eof
to_reading ReadResult.out_of_range = out_of_range
to_reading (ReadResult.chunk values r) = chunk values r

take-min {ℓ} : {A : Type ℓ} (n : ℕ) (xs : List A) → take (min n (length xs)) xs ≡ take n xs
take-min n xs = elim (Bool-cases (ltb (length xs) n)) [
  | inl short ↦
      let same : min n (length xs) ≡ length xs = ground (arith, short) in
      ap (λ k. take k xs) same
      ∙ take-all (length xs) xs (omega arith)
      ∙ sym (take-all n xs (ground (arith, short)))
  | inr long ↦ let same : min n (length xs) ≡ n = ground (arith, long) in ap (λ k. take k xs) same
]

drop-min {ℓ} : {A : Type ℓ} (n : ℕ) (xs : List A) → drop (min n (length xs)) xs ≡ drop n xs
drop-min n xs = elim (Bool-cases (ltb (length xs) n)) [
  | inl short ↦
      let same : min n (length xs) ≡ length xs = ground (arith, short) in
      ap (λ k. drop k xs) same
      ∙ drop-all (length xs) xs (omega arith)
      ∙ sym (drop-all n xs (ground (arith, short)))
  | inr long ↦ let same : min n (length xs) ≡ n = ground (arith, long) in ap (λ k. drop k xs) same
]

-- What is left of the data.
abbrev left : {A : Type 0} → SliceReader A → List A
left r = drop r.pos r.values

pub slices : {A : Type 0} → SequenceReader (SliceReader A) A
unfolding to_reading
slices = record {
  read = λ n r. to_reading (Slices.read n r);
  contents = left;
  read-end = λ n r e. ap to_reading (read-eof n r (ground (arith, length-drop r.pos r.values, e)));
  read-next = λ n r more full.
      let inside : r.pos < length r.values = omega (arith, length-drop r.pos r.values, full) in
      let (k, positive, bound, e, exact) = read-chunk n r inside more in
      let k≡ : k ≡ min n (length (left r)) =
        exact ∙ ap (min n) (sym (length-drop r.pos r.values)) in
      (
        record r { pos = r.pos + k },
        ap to_reading e
            ∙ ap (λ xs. chunk xs (record r { pos = r.pos + k }))
                (ap (λ m. take m (left r)) k≡ ∙ take-min n (left r)),
        sym (drop-drop k r.pos r.values) ∙ ap (λ m. drop m (left r)) k≡ ∙ drop-min n (left r),
      );
}

pub contents-slices : {A : Type 0} (r : SliceReader A) → slices.contents r ≡ drop r.pos r.values
unfolding slices
contents-slices r = refl
