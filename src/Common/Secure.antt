-- ===== src/Common/Secure.antt =====
-- apps/local-node/src/main.rs and apps/cloud-api/src/main.rs: the comparison of two tokens, as their
-- bytes, in a time that does not depend on what they share.
use Prim.Native.Nat.{ℕ, zero, suc, ◌+◌, ◌≤◌, ◌<◌, max, bit_or, bit_xor}
use mathlib.Core.Path.{◌≡◌, refl}
use mathlib.Core.Logic.{◌↔◌, inl, inr}
use mathlib.Core.Bool.{Bool, true, false}
use mathlib.Core.Option.{Option, none, some}
use mathlib.Core.List.{List, [], ◌∷◌}
use native.Mathlib.Omega.{arith}
use ozon_rust_suite.Common.Tests.{◌==◌, ==_iff, Bool-cases}
use ozon_rust_suite.Common.Lists.{length}
use ozon_rust_suite.Common.Bits.{bit_or-eq-zero, bit_or_zero, bit_xor-eq-zero, bit_xor_self}

-- The bytes of a `str`.
abbrev pub Bytes : Type 0
Bytes = List ℕ

-- `*bytes.get(index).unwrap_or(&0)`
unfoldable pub byte_at : Bytes → ℕ → ℕ
byte_at [] i = 0
byte_at (b ∷ bs) zero = b
byte_at (b ∷ bs) (suc i) = byte_at bs i

-- `for index in 0..max`: `n` rounds are left.
unfoldable pub compare_bytes : Bytes → Bytes → ℕ → ℕ → ℕ → ℕ
compare_bytes left right zero index diff = diff
compare_bytes left right (suc n) index diff =
    compare_bytes left right n (index + 1)
      (bit_or diff (bit_xor (byte_at left index) (byte_at right index)))

unfoldable pub constant_time_eq : Bytes → Bytes → Bool
constant_time_eq left right =
    compare_bytes left right (max (length left) (length right)) 0
      (bit_xor (length left) (length right))
    == 0

compare_bytes-eq-zero :
    (left right : Bytes) (n index diff : ℕ)
    → compare_bytes left right n index diff ≡ 0
    → (diff ≡ 0) × ((i : ℕ) → index ≤ i → i < index + n → byte_at left i ≡ byte_at right i)
unfolding compare_bytes
compare_bytes-eq-zero left right zero index diff h = (h, λ i p q. absurd (omega arith))
compare_bytes-eq-zero left right (suc n) index diff h =
    let (now, later) = compare_bytes-eq-zero left right n (index + 1) _ h in
    let (before, here) = bit_or-eq-zero diff _ now in
    let same = bit_xor-eq-zero (byte_at left index) (byte_at right index) here in
    (
      before,
      λ i p q. elim (Bool-cases (i == index)) [
        | inl e ↦ let it : i ≡ index = ground arith in rw it same
        | inr e ↦ later i (ground arith) (ground arith)
      ],
    )

compare_bytes_self : (left : Bytes) (n index : ℕ) → compare_bytes left left n index 0 ≡ 0
unfolding compare_bytes
compare_bytes_self left zero index = refl
compare_bytes_self left (suc n) index =
    rw (bit_xor_self (byte_at left index), bit_or_zero) (compare_bytes_self left n (index + 1))

bytes-eq :
    (left right : Bytes)
    → length left ≡ length right
    → ((i : ℕ) → i < length left → byte_at left i ≡ byte_at right i)
    → left ≡ right
unfolding byte_at
bytes-eq [] [] e h = refl
bytes-eq [] (b ∷ ys) e h = absurd (omega arith)
bytes-eq (a ∷ xs) [] e h = absurd (omega arith)
bytes-eq (a ∷ xs) (b ∷ ys) e h =
    let first = h 0 (omega arith) in
    let rest = bytes-eq xs ys (omega arith) (λ i p. h (suc i) (omega arith)) in cc

-- The comparison that reads every byte says that two tokens are the same exactly when they are.
pub constant_time_eq_iff :
    (left right : Bytes) → (constant_time_eq left right ≡ true) ↔ (left ≡ right)
unfolding constant_time_eq
constant_time_eq_iff left right = (
  λ h.
      let (lengths, bytes) =
        compare_bytes-eq-zero left right (max (length left) (length right)) 0
          (bit_xor (length left) (length right)) ((==_iff _ 0).0 h) in
      let same = bit_xor-eq-zero (length left) (length right) lengths in
      bytes-eq left right same (λ i p. bytes i (omega arith) (omega arith)),
  λ e. rw (← e) (
      (==_iff _ 0).1 (
        rw (bit_xor_self (length left))
          (compare_bytes_self left (max (length left) (length left)) 0))),
)

-- `is_some_and(|token| constant_time_eq(token, …))`
unfoldable pub presents : Option Bytes → Bytes → Bool
presents none expected = false
presents (some token) expected = constant_time_eq token expected

pub presents_iff :
    (given : Option Bytes) (expected : Bytes)
    → (presents given expected ≡ true) ↔ (given ≡ some expected)
unfolding presents
presents_iff none expected = (λ h. cc, λ h. cc)
presents_iff (some token) expected =
    let it = constant_time_eq_iff token expected in
    (λ h. rw (it.0 h) refl, λ h. it.1 (ground (arith, h)))
