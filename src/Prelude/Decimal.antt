-- ===== src/Prelude/Decimal.antt =====
-- strconv.Itoa and strconv.Atoi on natural numbers.
use skyhookml.Prelude.Tests.{eqb, leb, if◌then◌else◌, Bool-cases}
use skyhookml.Prelude.Keys.{Text}
use Prim.Native.Nat.{ℕ, zero, suc, ◌+◌, ◌-◌, ◌*◌, ◌/◌, ◌%◌, ◌<◌}
use mathlib.Core.Path.{◌≡◌, ap, ◌∙◌}
use mathlib.Core.Logic.{inl, inr}
use mathlib.Core.Bool.{◌&&◌}
use mathlib.Core.Option.{Option, none, some}
use mathlib.Core.List.{[], ◌∷◌}
use native.Mathlib.Omega.{arith}

-- The digits of `n`, last first, in front of what is written already.
digits : ℕ → ℕ → Text → Text
digits zero n out = out
digits (suc fuel) n out =
    let rest = digits fuel (n / 10) ((b'0' + n % 10) ∷ out) in
    if eqb (n / 10) 0 then (b'0' + n % 10) ∷ out else rest

unfoldable pub itoa : ℕ → Text
unfolding digits
itoa n = digits (suc n) n []

scan : Text → ℕ → Option ℕ
scan [] n = some n
scan (c ∷ s) n = if leb b'0' c && leb c b'9' then scan s (n * 10 + (c - b'0')) else none

-- `none` is the error of a text that is not a number.
unfoldable pub atoi : Text → Option ℕ
unfolding scan
atoi [] = none
atoi (c ∷ s) = scan (c ∷ s) 0

scan-digits : (fuel n : ℕ) (out : Text) → n < fuel → scan (digits fuel n out) 0 ≡ scan out n
unfolding scan digits
scan-digits zero n out h = elim h [ ]
scan-digits (suc fuel) n out h = ground (
  arith,
  scan-digits fuel (n / 10) ((b'0' + n % 10) ∷ out),
  ap (scan out) (last_digit n),
  ap (scan out) (small n),
)
  where
    last_digit : (k : ℕ) → (k / 10) * 10 + (b'0' + k % 10 - b'0') ≡ k
    last_digit k = omega arith

    small : (k : ℕ) → 0 * 10 + (b'0' + k % 10 - b'0') ≡ k % 10
    small k = omega arith

digits_cons :
    (fuel n : ℕ) (out : Text) → n < fuel → (c : ℕ) × (s : Text) × (digits fuel n out ≡ c ∷ s)
unfolding digits
digits_cons zero n out h = elim h [ ]
digits_cons (suc fuel) n out h = elim (Bool-cases (eqb (n / 10) 0)) [
  | inl last ↦ (b'0' + n % 10, out, rw last)
  | inr more ↦ rw more (digits_cons fuel (n / 10) ((b'0' + n % 10) ∷ out) (ground arith))
]

atoi-eq-scan : (t : Text) (c : ℕ) (s : Text) → t ≡ c ∷ s → atoi t ≡ scan t 0
unfolding atoi
atoi-eq-scan t c s e = rw e

-- Reading back what was printed.
pub atoi-itoa : (n : ℕ) → atoi (itoa n) ≡ some n
unfolding itoa scan
atoi-itoa n =
    let (c, s, e) = digits_cons (suc n) n [] (omega arith) in
    atoi-eq-scan (digits (suc n) n []) c s e ∙ scan-digits (suc n) n [] (omega arith)

pub itoa-injective : (m n : ℕ) → itoa m ≡ itoa n → m ≡ n
itoa-injective m n e = cc (atoi-itoa m, atoi-itoa n)
