-- ===== src/Prelude/Equality.antt =====
-- Rust's `Eq`: a Boolean test that decides equality, for numbers, byte strings and tuples.
use Prim.Native.Nat.{ℕ}
use mathlib.Core.Path.{◌≡◌, refl}
use mathlib.Core.Logic.{◌↔◌}
use mathlib.Core.Bool.{Bool, true, false, ◌&&◌}
use mathlib.Core.List.{List, [], ◌∷◌}
use native.Mathlib.Omega.{arith}
use steam_depot_vfs.Prelude.Tests.{nat_beq, nat_beq_iff}

pub record Eq {ℓ} (K : Type ℓ) : Type ℓ where
  pub beq : K → K → Bool
  pub beq_iff : (k j : K) → (beq k j ≡ true) ↔ (k ≡ j)

instance abbrev pub nat_eq : Eq ℕ
nat_eq = record { beq = nat_beq; beq_iff = nat_beq_iff }

infix 50 ◌==◌
abbrev pub ◌==◌ {ℓ} : {K : Type ℓ} ⦃test : Eq K⦄ → K → K → Bool
◌==◌ ⦃test⦄ k j = test.beq k j

module _ {ℓ} {K : Type ℓ} ⦃test : Eq K⦄ where
  unfoldable pub list_beq : List K → List K → Bool
  list_beq [] js = elim js [ [] ↦ true | _ ∷ _ ↦ false ]
  list_beq (k ∷ ks) js = elim js [ [] ↦ false | j ∷ rest ↦ test.beq k j && list_beq ks rest ]

  pub list_beq_iff : (ks js : List K) → (list_beq ks js ≡ true) ↔ (ks ≡ js)
  unfolding list_beq
  list_beq_iff [] [] = ground arith
  list_beq_iff [] (j ∷ js) = ground arith
  list_beq_iff (k ∷ ks) [] = ground arith
  list_beq_iff (k ∷ ks) (j ∷ js) = ground (arith, test.beq_iff k j, list_beq_iff ks js)

instance abbrev pub list_eq {ℓ} : {K : Type ℓ} ⦃test : Eq K⦄ → Eq (List K)
list_eq = record { beq = list_beq; beq_iff = list_beq_iff }

pub ==_refl {ℓ} : {K : Type ℓ} ⦃e : Eq K⦄ (k : K) → (k == k) ≡ true
==_refl ⦃e⦄ k = (e.beq_iff k k).1 refl

pub ==_iff {ℓ} : {K : Type ℓ} ⦃e : Eq K⦄ (a b : K) → ((a == b) ≡ true) ↔ (a ≡ b)
==_iff ⦃e⦄ = e.beq_iff
