-- ===== src/Common/Bits.antt =====
-- When the bitwise `|` and `^` of two numbers are zero.
use Prim.Native.Nat.{
  ℕ, zero, suc, ◌/◌, ◌%◌, ◌≤◌, max, bit_or, bit_xor, digits, differ, bit_or-bitwise,
  bit_xor-bitwise,
}
use mathlib.Core.Path.{◌≡◌, refl, ◌∙◌, sym}
use native.Mathlib.Omega.{arith}

differ-eq-zero : (x y : ℕ) → differ x y ≡ 0 → x ≡ y
differ-eq-zero zero y h = sym h
differ-eq-zero (suc x) zero h = h
differ-eq-zero (suc x) (suc y) h = omega (arith, differ-eq-zero x y h)

differ_self : (x : ℕ) → differ x x ≡ 0
differ_self zero = refl
differ_self (suc x) = differ_self x

or_digits-eq-zero : (n a b : ℕ) → a ≤ n → digits (λ b. b) max n a b ≡ 0 → (a ≡ 0) × (b ≡ 0)
or_digits-eq-zero zero zero b p h = (refl, h)
or_digits-eq-zero zero (suc a) b p h = absurd (omega arith)
or_digits-eq-zero (suc n) zero b p h = (refl, h)
or_digits-eq-zero (suc n) (suc a) b p h =
    let low : digits (λ b. b) max n (suc a / 2) (b / 2) ≡ 0 = omega arith in
    let rest = or_digits-eq-zero n (suc a / 2) (b / 2) (omega arith) low in
    absurd (omega (arith, rest.0))

pub bit_or-eq-zero : (a b : ℕ) → bit_or a b ≡ 0 → (a ≡ 0) × (b ≡ 0)
bit_or-eq-zero a b h = or_digits-eq-zero a a b (omega arith) (sym (bit_or-bitwise a b) ∙ h)

pub bit_or_zero : bit_or 0 0 ≡ 0
bit_or_zero = bit_or-bitwise 0 0

xor_digits-eq-zero : (n a b : ℕ) → a ≤ n → digits (λ b. b) differ n a b ≡ 0 → a ≡ b
xor_digits-eq-zero zero zero b p h = sym h
xor_digits-eq-zero zero (suc a) b p h = absurd (omega arith)
xor_digits-eq-zero (suc n) zero b p h = sym h
xor_digits-eq-zero (suc n) (suc a) b p h =
    let low : digits (λ b. b) differ n (suc a / 2) (b / 2) ≡ 0 = omega arith in
    let last : differ (suc a % 2) (b % 2) ≡ 0 = omega arith in
    let same = differ-eq-zero (suc a % 2) (b % 2) last in
    let rest = xor_digits-eq-zero n (suc a / 2) (b / 2) (omega arith) low in
    omega (arith, rest, same)

pub bit_xor-eq-zero : (a b : ℕ) → bit_xor a b ≡ 0 → a ≡ b
bit_xor-eq-zero a b h = xor_digits-eq-zero a a b (omega arith) (sym (bit_xor-bitwise a b) ∙ h)

xor_digits_self : (n a : ℕ) → a ≤ n → digits (λ b. b) differ n a a ≡ 0
xor_digits_self zero zero p = refl
xor_digits_self zero (suc a) p = absurd (omega arith)
xor_digits_self (suc n) zero p = refl
xor_digits_self (suc n) (suc a) p =
    omega (arith, xor_digits_self n (suc a / 2) (omega arith), differ_self (suc a % 2))

pub bit_xor_self : (a : ℕ) → bit_xor a a ≡ 0
bit_xor_self a = bit_xor-bitwise a a ∙ xor_digits_self a a (omega arith)
