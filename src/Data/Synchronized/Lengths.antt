-- ===== src/Data/Synchronized/Lengths.antt =====
-- skyhook/data_synchronized_reader.go: inputs of different lengths are an error.
use skyhookml.Prelude.{
  Text, nat_eq, text_eq, pair_eq, ℕ, zero, suc, ◌+◌, ◌-◌, ◌<◌, min, ◌≡◌, refl, sym, ap, subst, ◌∙◌,
  ◌⊎◌, inl, inr, true, false, not, ◌&&◌, Option, none, some, List, [], ◌∷◌, map, arith, ltb, eqb,
  Bool-cases, length, take, drop, length-take, length-drop, drop-nil,
}
use skyhookml.Data.Synchronized.{
  Round, stopped, panicked, chunks, different_lengths, push, read_all,
}
use skyhookml.Data.Synchronized.Chunks.{SequenceReader, AllLength, Reads}

-- Every list has, up to n, as many elements as the count says.
abbrev pub AllMin {ℓ} : {A : Type ℓ} → ℕ → ℕ → List (List A) → Type 0
AllMin n count [] = Unit
AllMin n count (xs ∷ xss) = (min n (length xs) ≡ count) × AllMin n count xss

pub AllMin-AllLength {ℓ} :
    {A : Type ℓ} (n size : ℕ) (xss : List (List A))
    → AllMin n (min n size) xss
    → AllLength (size - n) (map (drop n) xss)
    → AllLength size xss
AllMin-AllLength n size [] same rest = tt
AllMin-AllLength n size (xs ∷ xss) same rest =
    (ground (arith, same.0, rest.0, length-drop n xs), AllMin-AllLength n size xss same.1 rest.1)

pub AllMin-zero {ℓ} :
    {A : Type ℓ} (n : ℕ) (xss : List (List A)) → 0 < n → AllMin n 0 xss → AllLength 0 xss
AllMin-zero n [] more same = tt
AllMin-zero n (xs ∷ xss) more same = (ground (arith, same.0, more), AllMin-zero n xss more same.1)

push-chunks :
    {R A : Type 0} (values : Option (List A)) (r : R) (round : Round R A) (count : ℕ)
    (datas : List (Option (List A))) (readers : List R)
    → push values r round ≡ chunks count datas readers
    → (ds : List (Option (List A))) × (rs : List R) × (round ≡ chunks count ds rs)
      × (readers ≡ r ∷ rs)
unfolding push
push-chunks values r (stopped err) count datas readers e = absurd cc
push-chunks values r panicked count datas readers e = absurd cc
push-chunks values r (chunks c ds rs) count datas readers e =
    let c≡ : c ≡ count = cc in
    let rs≡ : r ∷ rs ≡ readers = cc in (ds, rs, ap (λ k. chunks k ds rs) c≡, sym rs≡)

not_chunks :
    {R A : Type 0} (err : Text) (count : ℕ) (datas : List (Option (List A))) (readers : List R)
    → stopped err ≡ chunks count datas readers
    → ⊥
not_chunks err count datas readers e = cc

size_cases : (m : ℕ) → (m ≡ 0) ⊎ (0 < m)
size_cases zero = inl refl
size_cases (suc m) = inr (omega arith)

module _ {R A : Type 0} (s : SequenceReader R A) where
  -- The reader whose chunk is put before those of the others.
  push-AllMin :
      (n count count' : ℕ) (values : Option (List A)) (r : R) (round : Round R A)
      (readers' : List R) (datas : List (Option (List A))) (xs : List A) (xss : List (List A))
      → s.contents r ≡ drop n xs
      → min n (length xs) ≡ count
      → ((ds : List (Option (List A))) (rs : List R)
          → round ≡ chunks count' ds rs
          → (count' ≡ count) × AllMin n count xss × Reads s rs (map (drop n) xss))
      → push values r round ≡ chunks count' datas readers'
      → (count' ≡ count) × AllMin n count (xs ∷ xss) × Reads s readers' (map (drop n) (xs ∷ xss))
  push-AllMin n count count' values r round readers' datas xs xss left same rest e =
      let (ds, rs, e', rs≡) = push-chunks values r round count' datas readers' e in
      let (c≡, all, reads) = rest ds rs e' in
      (
        c≡,
        (same, all),
        subst (λ rs'. Reads s rs' (map (drop n) (xs ∷ xss))) (sym rs≡) (left, reads),
      )

  drop-empty :
      (n : ℕ) (r : R) (xs : List A)
      → s.contents r ≡ xs
      → length (s.contents r) ≡ 0
      → s.contents r ≡ drop n xs
  drop-empty n r xs reads empty =
      none_left (s.contents r) empty
      ∙ sym (drop-nil n)
      ∙ ap (drop n) (sym (none_left (s.contents r) empty) ∙ reads)
    where
      none_left : (ys : List A) → length ys ≡ 0 → ys ≡ []
      none_left [] e = refl
      none_left (y ∷ ys) e = absurd (omega (arith, e))

  rest-AllMin :
      (n i count count' : ℕ) (readers readers' : List R) (datas : List (Option (List A)))
      (xss : List (List A))
      → 0 < n
      → 0 < i
      → Reads s readers xss
      → read_all s.read n i count readers ≡ chunks count' datas readers'
      → (count' ≡ count) × AllMin n count xss × Reads s readers' (map (drop n) xss)
  unfolding read_all
  rest-AllMin n i count count' [] readers' datas [] more later reads e =
      let c≡ : count ≡ count' = cc in
      let rs≡ : [] ≡ readers' = cc in (sym c≡, tt, subst (λ rs. Reads s rs []) rs≡ tt)
  rest-AllMin n i count count' [] readers' datas (xs ∷ xss) more later reads e = absurd reads
  rest-AllMin n i count count' (r ∷ readers) readers' datas [] more later reads e = absurd reads
  rest-AllMin n i count count' (r ∷ readers) readers' datas (xs ∷ xss) more later reads e =
      let len : length (s.contents r) ≡ length xs = ap length reads.0 in
      let rest : (ds : List (Option (List A))) (rs : List R)
          → read_all s.read n (i + 1) count readers ≡ chunks count' ds rs
          → (count' ≡ count) × AllMin n count xss × Reads s rs (map (drop n) xss) =
        λ ds rs h.
          rest-AllMin n (i + 1) count count' readers rs ds xss more (omega arith) reads.1 h in
      elim (size_cases (length (s.contents r))) [
        | inl empty ↦
            let e' = rw (s.read-end n r empty, read_all) at e in
            elim (Bool-cases (eqb count 0)) [
              | inl zero_count ↦
                  let going : (ltb 0 i && not (eqb count 0)) ≡ false = ground (arith, zero_count) in
                  push-AllMin n count count' none r (read_all s.read n (i + 1) count readers)
                    readers' datas xs xss (drop-empty n r xs reads.0 empty)
                    (ground (arith, zero_count, empty, len)) rest (rw going at e')
              | inr counted ↦
                  let stops : (ltb 0 i && not (eqb count 0)) ≡ true =
                    ground (arith, counted, later) in
                  absurd (not_chunks different_lengths count' datas readers' (rw stops at e'))
            ]
        | inr full ↦
            let (r', got, left) = s.read-next n r more full in
            let not_first : eqb i 0 ≡ false = ground (arith, later) in
            let e' = rw (got, read_all) at e in
            let e'' = rw not_first at e' in
            elim (Bool-cases (eqb count (length (take n (s.contents r))))) [
              | inr unequal ↦
                  absurd (not_chunks different_lengths count' datas readers' (rw unequal at e''))
              | inl equal ↦
                  push-AllMin n count count' (some (take n (s.contents r))) r'
                    (read_all s.read n (i + 1) count readers) readers' datas xs xss
                    (left ∙ ap (drop n) reads.0)
                    (ground (arith, equal, length-take n (s.contents r), len)) rest
                    (rw equal at e'')
            ]
      ]

  pub all-AllMin :
      (n count' : ℕ) (r : R) (readers readers' : List R) (datas : List (Option (List A)))
      (xs : List A) (xss : List (List A))
      → 0 < n
      → Reads s (r ∷ readers) (xs ∷ xss)
      → read_all s.read n 0 0 (r ∷ readers) ≡ chunks count' datas readers'
      → (count' ≡ min n (length xs))
        × AllMin n (min n (length xs)) xss
        × Reads s readers' (map (drop n) (xs ∷ xss))
  unfolding read_all
  all-AllMin n count' r readers readers' datas xs xss more reads e =
      let len : length (s.contents r) ≡ length xs = ap length reads.0 in
      elim (size_cases (length (s.contents r))) [
        | inl empty ↦
            let e' = rw (s.read-end n r empty, read_all) at e in
            let going : (ltb 0 0 && not (eqb 0 0)) ≡ false = refl in
            let size≡ : min n (length xs) ≡ 0 = omega (arith, empty, len) in
            let (c≡, all, reads') =
              push-AllMin n 0 count' none r (read_all s.read n (0 + 1) 0 readers) readers' datas xs
                xss (drop-empty n r xs reads.0 empty) size≡
                (λ ds rs h.
                  rest-AllMin n (0 + 1) 0 count' readers rs ds xss more (omega arith) reads.1 h)
                e' in
            (c≡ ∙ sym size≡, subst (λ k. AllMin n k xss) (sym size≡) all.1, reads')
        | inr full ↦
            let (r', got, left) = s.read-next n r more full in
            let e' = rw (got, read_all) at e in
            let size≡ : length (take n (s.contents r)) ≡ min n (length xs) =
              omega (arith, length-take n (s.contents r), len) in
            let e'' = rw size≡ at e' in
            let (c≡, all, reads') =
              push-AllMin n (min n (length xs)) count' (some (take n (s.contents r))) r'
                (read_all s.read n (0 + 1) (min n (length xs)) readers) readers' datas xs xss
                (left ∙ ap (drop n) reads.0) refl
                (λ ds rs h.
                  rest-AllMin n (0 + 1) (min n (length xs)) count' readers rs ds xss more
                    (omega arith) reads.1 h)
                e'' in
            (c≡, all.1, reads')
      ]
