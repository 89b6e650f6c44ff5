-- ===== src/Prelude/Equality.antt =====
-- Decidable equality as an interface: the keys of maps are numbers or texts.
use Prim.Native.Nat.{ℕ}
use mathlib.Core.Path.{◌≡◌, refl}
use mathlib.Core.Logic.{◌↔◌, ◌≢◌, inl, inr}
use mathlib.Core.Bool.{Bool, true, false, ◌&&◌}
use mathlib.Core.List.{List, [], ◌∷◌}
use native.Mathlib.Omega.{arith}
use simple_blockchain_client.Prelude.Tests.{nat_beq, nat_beq_iff, Bool-cases}

-- A test and what it decides.
pub record Eq {ℓ} (K : Type ℓ) : Type ℓ where
  pub same : K → K → Bool
  pub same_iff : (x y : K) → (same x y ≡ true) ↔ (x ≡ y)

infix 50 ◌==◌
abbrev pub ◌==◌ {ℓ} : {K : Type ℓ} ⦃e : Eq K⦄ (x y : K) → Bool
◌==◌ ⦃e⦄ x y = e.same x y

module _ {ℓ} {K : Type ℓ} ⦃e : Eq K⦄ where
  pub ==_iff : (x y : K) → ((x == y) ≡ true) ↔ (x ≡ y)
  ==_iff = e.same_iff

  pub ==_refl : (x : K) → (x == x) ≡ true
  ==_refl x = (e.same_iff x x).1 refl

  pub ==_ne : (x y : K) → x ≢ y → (x == y) ≡ false
  ==_ne x y h = elim (Bool-cases (x == y)) [
    | inl equal ↦ absurd (h ((e.same_iff x y).0 equal))
    | inr apart ↦ apart
  ]

instance abbrev pub nat_eq : Eq ℕ
nat_eq = record { same = nat_beq; same_iff = nat_beq_iff }

-- Texts are compared byte by byte.
abbrev pub bytes_beq : List ℕ → List ℕ → Bool
bytes_beq [] [] = true
bytes_beq [] (y ∷ ys) = false
bytes_beq (x ∷ xs) [] = false
bytes_beq (x ∷ xs) (y ∷ ys) = nat_beq x y && bytes_beq xs ys

pub bytes_beq_iff : (xs ys : List ℕ) → (bytes_beq xs ys ≡ true) ↔ (xs ≡ ys)
bytes_beq_iff [] [] = ground arith
bytes_beq_iff [] (y ∷ ys) = ground arith
bytes_beq_iff (x ∷ xs) [] = ground arith
bytes_beq_iff (x ∷ xs) (y ∷ ys) = ground (arith, bytes_beq_iff xs ys)

instance abbrev pub bytes_eq : Eq (List ℕ)
bytes_eq = record { same = bytes_beq; same_iff = bytes_beq_iff }
