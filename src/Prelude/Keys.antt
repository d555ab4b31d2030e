-- ===== src/Prelude/Keys.antt =====
-- Types whose values the program compares by `==`, or uses as keys of a map.
use skyhookml.Prelude.Tests.{eqb, eqb_iff}
use Prim.Native.Nat.{ℕ}
use Prim.Native.Char.{code}
use Prim.Native.String.{String}
use mathlib.Core.Path.{◌≡◌, refl}
use mathlib.Core.Logic.{◌↔◌, ◌≢◌}
use mathlib.Core.Bool.{Bool, true, false, ◌&&◌}
use mathlib.Core.List.{List, [], ◌∷◌}
use native.Mathlib.Omega.{arith}

pub record Comparable {κ} (K : Type κ) : Type κ where
  pub test : K → K → Bool
  pub test_iff : (j k : K) → (test j k ≡ true) ↔ (j ≡ k)

infix 50 ◌==◌
abbrev pub ◌==◌ {κ} : {K : Type κ} ⦃k : Comparable K⦄ → K → K → Bool
◌==◌ ⦃k⦄ = k.test

module _ {κ} {K : Type κ} ⦃e : Comparable K⦄ where
  pub beq_self : (a : K) → (a == a) ≡ true
  beq_self a = (e.test_iff a a).1 refl

  pub beq_ne : (a b : K) → a ≢ b → (a == b) ≡ false
  beq_ne a b h = ground (arith, e.test_iff a b)

instance unfoldable pub nat_eq : Comparable ℕ
nat_eq = record { test = eqb; test_iff = eqb_iff }

-- A Go string is a sequence of bytes.
abbrev pub Text : Type 0
Text = List ℕ

-- The bytes of a literal, which is ASCII wherever the source has one.
abbrev pub codes : String → Text
codes String.[] = []
codes (String.◌∷◌ c s) = code c ∷ codes s

abbrev pub text_beq : Text → Text → Bool
text_beq [] [] = true
text_beq [] (y ∷ ys) = false
text_beq (x ∷ xs) [] = false
text_beq (x ∷ xs) (y ∷ ys) = eqb x y && text_beq xs ys

pub text_beq_iff : (s t : Text) → (text_beq s t ≡ true) ↔ (s ≡ t)
text_beq_iff [] [] = (λ _. refl, λ _. refl)
text_beq_iff [] (y ∷ ys) = (λ h. cc, λ h. cc)
text_beq_iff (x ∷ xs) [] = (λ h. cc, λ h. cc)
text_beq_iff (x ∷ xs) (y ∷ ys) = ground (arith, eqb_iff x y, text_beq_iff xs ys)

instance unfoldable pub text_eq : Comparable Text
text_eq = record { test = text_beq; test_iff = text_beq_iff }

abbrev pub pair_beq {ℓ κ} :
    {A : Type ℓ} {B : Type κ} ⦃e : Comparable A⦄ ⦃d : Comparable B⦄ → A × B → A × B → Bool
pair_beq ⦃e⦄ ⦃d⦄ (a, b) (a', b') = e.test a a' && d.test b b'

pub pair_beq_iff {ℓ κ} :
    {A : Type ℓ} {B : Type κ} ⦃e : Comparable A⦄ ⦃d : Comparable B⦄ (p q : A × B)
    → (pair_beq p q ≡ true) ↔ (p ≡ q)
pair_beq_iff ⦃e⦄ ⦃d⦄ (a, b) (a', b') = ground (arith, e.test_iff a a', d.test_iff b b')

instance unfoldable pub pair_eq {ℓ κ} :
    {A : Type ℓ} {B : Type κ} ⦃e : Comparable A⦄ ⦃d : Comparable B⦄ → Comparable (A × B)
pair_eq = record { test = pair_beq; test_iff = pair_beq_iff }

-- A test of pairs is the test of their parts.
pub pair_eq_beq {ℓ κ} :
    {A : Type ℓ} {B : Type κ} ⦃e : Comparable A⦄ ⦃d : Comparable B⦄ (a a' : A) (b b' : B)
    → ◌==◌ {K = A × B} (a, b) (a', b') ≡ (a == a' && b == b')
unfolding pair_eq
pair_eq_beq a a' b b' = refl
