-- ===== src/Tasks/Union/Keys.antt =====
-- exec_ops/union/union.go: the search for a key ends.
use skyhookml.Prelude.{
  contains, Distinct, ◌==◌, beq_ne, Text, codes, nat_eq, text_eq, pair_eq, ℕ, zero, suc, ◌+◌, ◌≤◌,
  ◌<◌, ◌≡◌, refl, sym, ap, ◌≢◌, ◌⊎◌, inl, inr, true, false, some, List, [], ◌∷◌, ◌++◌, arith,
  if◌then◌else◌, Bool-cases, length, length-append,
}
use skyhookml.Prelude.Decimal.{itoa, itoa-injective}
use skyhookml.Tasks.Union.{candidate, fresh_key}

longer : (key s : Text) → key ≡ key ++ s → length s ≡ 0
longer key s e = omega (arith, ap length e, length-append key s)

cancel : (key s t : Text) → key ++ s ≡ key ++ t → s ≡ t
cancel [] s t e = e
cancel (c ∷ key) s t e = let e' : key ++ s ≡ key ++ t = cc in cancel key s t e'

candidate-injective : (key : Text) (i j : ℕ) → candidate key i ≡ candidate key j → i ≡ j
unfolding candidate
candidate-injective key zero zero e = refl
candidate-injective key zero (suc j) e =
    absurd (omega (arith, longer key (codes "-" ++ itoa (suc j)) e))
candidate-injective key (suc i) zero e =
    absurd (omega (arith, longer key (codes "-" ++ itoa (suc i)) (sym e)))
candidate-injective key (suc i) (suc j) e =
    let dashed = cancel key (codes "-" ++ itoa (suc i)) (codes "-" ++ itoa (suc j)) e in
    let digits : itoa (suc i) ≡ itoa (suc j) = cc in itoa-injective (suc i) (suc j) digits

-- The first `n` keys that are tried from the index `i` on.
abbrev candidates : Text → ℕ → ℕ → List Text
candidates key i zero = []
candidates key i (suc n) = candidate key i ∷ candidates key (suc i) n

candidates-later :
    (key : Text) (i j n : ℕ) → i < j → contains (candidates key j n) (candidate key i) ≡ false
candidates-later key i j zero h = refl
candidates-later key i j (suc n) h =
    let apart : candidate key j ≢ candidate key i =
      λ e. omega (arith, candidate-injective key j i e, h) in
    ground (
      arith,
      candidates-later key i (suc j) n (omega arith),
      beq_ne (candidate key j) (candidate key i) apart,
    )

candidates-Distinct : (key : Text) (i n : ℕ) → Distinct (candidates key i n)
candidates-Distinct key i zero = tt
candidates-Distinct key i (suc n) =
    (candidates-later key i (suc i) n (omega arith), candidates-Distinct key (suc i) n)

abbrev remove_first : Text → List Text → List Text
remove_first k [] = []
remove_first k (x ∷ xs) = if x == k then xs else x ∷ remove_first k xs

length-remove_first :
    (k : Text) (xs : List Text) → contains xs k ≡ true → length (remove_first k xs) + 1 ≡ length xs
length-remove_first k [] h = cc
length-remove_first k (x ∷ xs) h = ground (arith, length-remove_first k xs, h)

contains-remove_first :
    (k j : Text) (xs : List Text)
    → (k == j) ≡ false
    → contains xs j ≡ true
    → contains (remove_first k xs) j ≡ true
contains-remove_first k j [] ne h = cc
contains-remove_first k j (x ∷ xs) ne h = ground (
  arith,
  contains-remove_first k j xs,
  text_eq.test_iff x k,
  text_eq.test_iff x j,
  text_eq.test_iff k j,
  ne,
  h,
)

abbrev AllOf : List Text → List Text → Type 0
AllOf [] seen = Unit
AllOf (c ∷ cs) seen = (contains seen c ≡ true) × AllOf cs seen

AllOf-remove_first :
    (k : Text) (cs seen : List Text)
    → contains cs k ≡ false
    → AllOf cs seen
    → AllOf cs (remove_first k seen)
AllOf-remove_first k [] seen h all = tt
AllOf-remove_first k (c ∷ cs) seen h all = (
  contains-remove_first k c seen (ground (arith, h, text_eq.test_iff c k, text_eq.test_iff k c))
      all.0,
  AllOf-remove_first k cs seen (ground (arith, h)) all.1,
)

-- Distinct keys that are all seen are not more than the keys seen.
length-AllOf : (cs seen : List Text) → Distinct cs → AllOf cs seen → length cs ≤ length seen
length-AllOf [] seen d all = omega arith
length-AllOf (c ∷ cs) seen d all = omega (
  arith,
  length-remove_first c seen all.0,
  length-AllOf cs (remove_first c seen) d.1 (AllOf-remove_first c cs seen d.0 all.1),
)

length-candidates : (key : Text) (i n : ℕ) → length (candidates key i n) ≡ n
length-candidates key i zero = refl
length-candidates key i (suc n) = ap suc (length-candidates key (suc i) n)

search_key :
    (fuel : ℕ) (key : Text) (i : ℕ) (seen : List Text)
    → ((k : Text) × (fresh_key fuel key i seen ≡ some k) × (contains seen k ≡ false))
      ⊎ AllOf (candidates key i fuel) seen
unfolding fresh_key
search_key zero key i seen = inr tt
search_key (suc fuel) key i seen = elim (Bool-cases (contains seen (candidate key i))) [
  | inr new ↦ inl (candidate key i, rw new refl, new)
  | inl old ↦ elim (search_key fuel key (suc i) seen) [
    | inl (k, found, new) ↦ inl (k, rw old found, new)
    | inr all ↦ inr (old, all)
  ]
]

pub fresh_key-some :
    (key : Text) (seen : List Text)
    → (k : Text) × (fresh_key (length seen + 1) key 0 seen ≡ some k) × (contains seen k ≡ false)
fresh_key-some key seen = elim (search_key (length seen + 1) key 0 seen) [
  | inl found ↦ found
  | inr all ↦ absurd (
      omega (
        arith,
        length-AllOf (candidates key 0 (length seen + 1)) seen
            (candidates-Distinct key 0 (length seen + 1)) all,
        length-candidates key 0 (length seen + 1),
      ))
]
