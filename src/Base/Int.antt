-- ===== src/Base/Int.antt =====
-- The C type `int`, as far as the program uses it: descriptors, slots, process ids and -1.
use Prim.Native.Nat.{ℕ}
use mathlib.Core.Path.{◌≡◌, refl}
use mathlib.Core.Logic.{◌↔◌, ◌≢◌, inl, inr}
use mathlib.Core.Bool.{Bool, true, false}
use native.Mathlib.Omega.{arith}
use argusd.Base.Tests.{◌==◌, Bool-cases}

-- `negsuc n` is -(n + 1).
pub data ℤ : Type 0 where
  pos : ℕ → ℤ
  negsuc : ℕ → ℤ

-- EOF, which the sources also write -1.
abbrev pub eof : ℤ
eof = negsuc 0

abbrev pub int_eq : ℤ → ℤ → Bool
int_eq (pos a) (pos b) = a == b
int_eq (negsuc a) (negsuc b) = a == b
int_eq (pos a) (negsuc b) = false
int_eq (negsuc a) (pos b) = false

-- `slot > -1`
abbrev pub is_slot : ℤ → Bool
is_slot (pos a) = true
is_slot (negsuc a) = false

pub int_eq_iff : (a b : ℤ) → (int_eq a b ≡ true) ↔ (a ≡ b)
int_eq_iff (pos a) (pos b) = ground arith
int_eq_iff (negsuc a) (negsuc b) = ground arith
int_eq_iff (pos a) (negsuc b) = ground arith
int_eq_iff (negsuc a) (pos b) = ground arith

pub int_eq_ne : (a b : ℤ) → a ≢ b → int_eq a b ≡ false
int_eq_ne a b h = elim (Bool-cases (int_eq a b)) [
  | inl e ↦ absurd (h ((int_eq_iff a b).0 e))
  | inr e ↦ e
]

pub int_eq_refl : (a : ℤ) → int_eq a a ≡ true
int_eq_refl a = (int_eq_iff a a).1 refl
