-- ===== src/Base/Ident.antt =====
-- Signed 64-bit identifiers as integers, and `==` for the types that the code compares.
use Prim.Native.Nat.{ℕ}
use Prim.Native.String.{String}
use mathlib.Core.Path.{◌≡◌}
use mathlib.Core.Logic.{◌↔◌}
use mathlib.Core.Bool.{Bool, true, false}
use native.Mathlib.Omega.{arith}
use text.Mathlib.Text.{◌==◌ as str_eq}
use text.Mathlib.TextEquality.{eq_iff}
use pawspective_backend.Base.Tests.{eqb, leb}

-- `negsuc n` is -(n + 1).
pub data ℤ : Type 0 where
  pos : ℕ → ℤ
  negsuc : ℕ → ℤ

abbrev pub id_eq : ℤ → ℤ → Bool
id_eq (pos a) (pos b) = eqb a b
id_eq (negsuc a) (negsuc b) = eqb a b
id_eq _ _ = false

pub id_eq_iff : (a b : ℤ) → (id_eq a b ≡ true) ↔ (a ≡ b)
id_eq_iff (pos a) (pos b) = ground arith
id_eq_iff (negsuc a) (negsuc b) = ground arith
id_eq_iff (pos a) (negsuc b) = ground arith
id_eq_iff (negsuc a) (pos b) = ground arith

-- A Boolean comparison that decides equality.
pub record Eq {ℓ} (Key : Type ℓ) : Type ℓ where
  pub same : Key → Key → Bool
  pub same_iff : (x y : Key) → (same x y ≡ true) ↔ (x ≡ y)

infix 50 ◌==◌
abbrev pub ◌==◌ {ℓ} : {Key : Type ℓ} ⦃comparison : Eq Key⦄ → Key → Key → Bool
◌==◌ ⦃comparison⦄ = comparison.same

instance abbrev pub id_Eq : Eq ℤ
id_Eq = record { same = id_eq; same_iff = id_eq_iff }

instance abbrev pub text_Eq : Eq String
text_Eq = record { same = str_eq; same_iff = eq_iff }

pub id_eq_refl : (a : ℤ) → id_eq a a ≡ true
id_eq_refl a = ground (arith, id_eq_iff a a)

abbrev pub id_leb : ℤ → ℤ → Bool
id_leb (pos a) (pos b) = leb a b
id_leb (negsuc a) (negsuc b) = leb b a
id_leb (negsuc a) (pos b) = true
id_leb (pos a) (negsuc b) = false
