-- ===== src/Base/Same.antt =====
-- Decidable equality as an interface, and its instances for numbers, optional values and pairs.
use Prim.Native.Nat.{ℕ}
use mathlib.Core.Path.{◌≡◌, refl}
use mathlib.Core.Logic.{◌↔◌}
use mathlib.Core.Bool.{Bool, true, false, ◌&&◌}
use mathlib.Core.Option.{Option, none, some}
use native.Mathlib.Omega.{arith}
use open_simple_agent.Base.Tests.{eqb, eqb_iff}

pub record Same {ℓ} (A : Type ℓ) : Type ℓ where
  pub same : A → A → Bool
  pub same_iff : (a b : A) → (same a b ≡ true) ↔ (a ≡ b)

infix 50 ◌==◌
abbrev pub ◌==◌ {ℓ} : {A : Type ℓ} ⦃e : Same A⦄ → A → A → Bool
◌==◌ ⦃e⦄ = e.same

pub same_refl {ℓ} : {A : Type ℓ} ⦃e : Same A⦄ (a : A) → (a == a) ≡ true
same_refl ⦃e⦄ a = (e.same_iff a a).1 refl

instance abbrev pub nat_eq : Same ℕ
nat_eq = record { same = eqb; same_iff = eqb_iff }

module _ {ℓ} {A : Type ℓ} ⦃e : Same A⦄ where
  abbrev pub option_same : Option A → Option A → Bool
  option_same none none = true
  option_same (some a) (some b) = a == b
  option_same _ _ = false

  pub option_same_iff : (a b : Option A) → (option_same a b ≡ true) ↔ (a ≡ b)
  option_same_iff none none = ground arith
  option_same_iff (some a) (some b) = ground (arith, e.same_iff a b)
  option_same_iff none (some b) = ground arith
  option_same_iff (some a) none = ground arith

  instance abbrev pub option_eq : Same (Option A)
  option_eq = record { same = option_same; same_iff = option_same_iff }

module _ {ℓ} {A B : Type ℓ} ⦃e : Same A⦄ ⦃f : Same B⦄ where
  abbrev pub pair_same : A × B → A × B → Bool
  pair_same (a, b) (c, d) = a == c && b == d

  pub pair_same_iff : (a b : A × B) → (pair_same a b ≡ true) ↔ (a ≡ b)
  pair_same_iff (a, b) (c, d) = ground (arith, e.same_iff a c, f.same_iff b d)

  instance abbrev pub pair_eq : Same (A × B)
  pair_eq = record { same = pair_same; same_iff = pair_same_iff }
