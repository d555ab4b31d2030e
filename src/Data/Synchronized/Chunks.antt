-- ===== src/Data/Synchronized/Chunks.antt =====
-- skyhook/data_synchronized_reader.go: one round of SynchronizedReader.
use skyhookml.Prelude.{
  nat_eq, text_eq, pair_eq, ℕ, ◌+◌, ◌-◌, ◌<◌, min, ◌≡◌, refl, ap, ◌∙◌, true, false, not, ◌&&◌,
  Option, none, some, List, [], ◌∷◌, map, arith, ltb, eqb, eqb_iff, length, take, drop, length-take,
  length-drop,
}
use skyhookml.Data.Synchronized.{Reading, eof, chunk, chunks, push, read_all}

-- A SequenceReader: `contents` is what is left to read. A read gives the next n elements or those
-- that are left, and the end if there are none.
pub record SequenceReader (R A : Type 0) : Type 0 where
  pub read : ℕ → R → Reading R A
  pub contents : R → List A
  pub read-end : (n : ℕ) (r : R) → length (contents r) ≡ 0 → read n r ≡ eof
  pub read-next :
      (n : ℕ) (r : R)
      → 0 < n
      → 0 < length (contents r)
      → (r' : R) × (read n r ≡ chunk (take n (contents r)) r') × (contents r' ≡ drop n (contents r))

-- Every list has the length.
abbrev pub AllLength {ℓ} : {A : Type ℓ} → ℕ → List (List A) → Type 0
AllLength size [] = Unit
AllLength size (xs ∷ xss) = (length xs ≡ size) × AllLength size xss

pub AllLength-drop {ℓ} :
    {A : Type ℓ} (n size : ℕ) (xss : List (List A))
    → AllLength size xss
    → AllLength (size - n) (map (drop n) xss)
AllLength-drop n size [] all = tt
AllLength-drop n size (xs ∷ xss) all =
    (length-drop n xs ∙ ap (λ k. k - n) all.0, AllLength-drop n size xss all.1)

abbrev pub taken {ℓ} : {A : Type ℓ} → ℕ → List A → Option (List A)
taken n xs = some (take n xs)

module _ {R A : Type 0} (s : SequenceReader R A) where
  -- What the readers have left.
  abbrev pub Reads : List R → List (List A) → Type 0
  Reads [] [] = Unit
  Reads [] (xs ∷ xss) = ⊥
  Reads (r ∷ readers) [] = ⊥
  Reads (r ∷ readers) (xs ∷ xss) = (s.contents r ≡ xs) × Reads readers xss

  -- The readers after the first.
  read_rest :
      (n i size : ℕ) (readers : List R) (xss : List (List A))
      → 0 < n
      → 0 < size
      → 0 < i
      → Reads readers xss
      → AllLength size xss
      → (readers' : List R) × (read_all s.read n i (min n size) readers
          ≡ chunks (min n size) (map (taken n) xss) readers')
        × Reads readers' (map (drop n) xss)
  unfolding read_all push
  read_rest n i size [] [] more full later reads all = ([], refl, tt)
  read_rest n i size [] (xs ∷ xss) more full later reads all = absurd reads
  read_rest n i size (r ∷ readers) [] more full later reads all = absurd reads
  read_rest n i size (r ∷ readers) (xs ∷ xss) more full later reads all =
      let len : length (s.contents r) ≡ size = ap length reads.0 ∙ all.0 in
      let (r', e, left) = s.read-next n r more (omega (arith, len, full)) in
      let (readers', rest, reads') =
        read_rest n (i + 1) size readers xss more full (omega arith) reads.1 all.1 in
      let first : eqb i 0 ≡ false = ground (arith, later) in
      let same : eqb (min n size) (length (take n (s.contents r))) ≡ true =
        (eqb_iff (min n size) (length (take n (s.contents r)))).1
          (omega (arith, length-take n (s.contents r), len)) in
      let taken_xs : some (take n (s.contents r)) ≡ taken n xs = ap (taken n) reads.0 in
      (
        r' ∷ readers',
        rw (e, read_all)
            (rw (first, same, rest)
              (ap (λ values. chunks (min n size) (values ∷ map (taken n) xss) (r' ∷ readers'))
                taken_xs)),
        (left ∙ ap (drop n) reads.0, reads'),
      )

  -- A round in which all readers have elements left.
  pub read_all-chunks :
      (n size : ℕ) (r : R) (readers : List R) (xs : List A) (xss : List (List A))
      → 0 < n
      → 0 < size
      → Reads (r ∷ readers) (xs ∷ xss)
      → AllLength size (xs ∷ xss)
      → (readers' : List R) × (read_all s.read n 0 0 (r ∷ readers)
          ≡ chunks (min n size) (map (taken n) (xs ∷ xss)) readers')
        × Reads readers' (map (drop n) (xs ∷ xss))
  unfolding read_all push
  read_all-chunks n size r readers xs xss more full reads all =
      let len : length (s.contents r) ≡ size = ap length reads.0 ∙ all.0 in
      let (r', e, left) = s.read-next n r more (omega (arith, len, full)) in
      let (readers', rest, reads') =
        read_rest n (0 + 1) size readers xss more full (omega arith) reads.1 all.1 in
      let size≡ : length (take n (s.contents r)) ≡ min n size =
        omega (arith, length-take n (s.contents r), len) in
      let taken_xs : some (take n (s.contents r)) ≡ taken n xs = ap (taken n) reads.0 in
      (
        r' ∷ readers',
        rw (e, read_all)
            (rw (size≡, rest)
              (ap (λ values. chunks (min n size) (values ∷ map (taken n) xss) (r' ∷ readers'))
                taken_xs)),
        (left ∙ ap (drop n) reads.0, reads'),
      )

  -- A round at the end of all readers.
  pub read_all-end :
      (n i : ℕ) (readers : List R) (xss : List (List A))
      → Reads readers xss
      → AllLength 0 xss
      → (datas : List (Option (List A))) × (read_all s.read n i 0 readers ≡ chunks 0 datas readers)
  unfolding read_all push
  read_all-end n i [] [] reads all = ([], refl)
  read_all-end n i [] (xs ∷ xss) reads all = absurd reads
  read_all-end n i (r ∷ readers) [] reads all = absurd reads
  read_all-end n i (r ∷ readers) (xs ∷ xss) reads all =
      let e = s.read-end n r (ap length reads.0 ∙ all.0) in
      let (datas, rest) = read_all-end n (i + 1) readers xss reads.1 all.1 in
      let going : (ltb 0 i && not (eqb 0 0)) ≡ false = ground arith in
      (none ∷ datas, rw (e, read_all) (rw (going, rest) refl))
