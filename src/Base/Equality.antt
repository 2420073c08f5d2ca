-- ===== src/Base/Equality.antt =====
-- Go's `==` for the types that serve as map keys.
use Prim.Native.Nat.{ℕ}
use mathlib.Core.Path.{◌≡◌, refl}
use mathlib.Core.Logic.{◌↔◌, ◌≢◌}
use mathlib.Core.Bool.{Bool, true, false, ◌&&◌}
use mathlib.Core.List.{List, [], ◌∷◌}
use native.Mathlib.Omega.{arith}
use hyperliquid_go.Base.Test.{nat_beq, nat_beq_iff, eq_false_of_ne_true}

pub record Eq {ℓ} (K : Type ℓ) : Type ℓ where
  pub same : K → K → Bool
  pub same_iff : (x y : K) → (same x y ≡ true) ↔ (x ≡ y)

infix 50 ◌==◌
abbrev pub ◌==◌ {ℓ} : {K : Type ℓ} ⦃dec : Eq K⦄ (x y : K) → Bool
◌==◌ ⦃dec⦄ x y = dec.same x y

-- The law of `==` for any instance, for the tactics' lists.
pub ==_iff {ℓ} : {K : Type ℓ} ⦃dec : Eq K⦄ (x y : K) → (x == y ≡ true) ↔ (x ≡ y)
==_iff ⦃dec⦄ = dec.same_iff

pub ==_refl {ℓ} : {A : Type ℓ} ⦃e : Eq A⦄ (a : A) → a == a ≡ true
==_refl ⦃e⦄ a = (e.same_iff a a).1 refl

pub ==_ne {ℓ} : {A : Type ℓ} ⦃e : Eq A⦄ (a b : A) → a ≢ b → a == b ≡ false
==_ne ⦃e⦄ a b h = eq_false_of_ne_true _ λ t. h ((e.same_iff a b).0 t)

instance abbrev pub nat_eq : Eq ℕ
nat_eq = record { same = nat_beq; same_iff = nat_beq_iff }

-- Byte strings are compared byte by byte.
unfoldable pub str_beq : List ℕ → List ℕ → Bool
str_beq [] [] = true
str_beq (a ∷ s) (b ∷ t) = nat_beq a b && str_beq s t
str_beq _ _ = false

pub str_beq_iff : (s t : List ℕ) → (str_beq s t ≡ true) ↔ (s ≡ t)
unfolding str_beq
str_beq_iff [] [] = ground arith
str_beq_iff (a ∷ s) (b ∷ t) = ground (arith, str_beq_iff s t)
str_beq_iff [] (b ∷ t) = ground arith
str_beq_iff (a ∷ s) [] = ground arith

instance abbrev pub str_eq : Eq (List ℕ)
str_eq = record { same = str_beq; same_iff = str_beq_iff }
