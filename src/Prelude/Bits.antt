-- ===== src/Prelude/Bits.antt =====
-- Setting and clearing one bit of a number, at any bit.
use native.Mathlib.Nat.{div-div-eq-div-mul, div-eq_of_lt}
use Prim.Native.Nat.{ℕ, zero, suc, ◌+◌, ◌-◌, ◌/◌, ◌%◌, ◌^◌, ◌≤◌}
use mathlib.Core.Path.{◌≡◌, ◌∙◌, refl, ap, sym}
use mathlib.Core.Logic.{inl, inr}
use mathlib.Core.Bool.{true, false, not, ◌&&◌, ◌||◌}
use native.Mathlib.Omega.{arith}
use horizon_os.Prelude.Tests.{bit, ltb, ◌==◌, if◌then◌else◌, Bool-cases}

abbrev pub set_bit : ℕ → ℕ → ℕ
set_bit n x = if bit n x then x else x + 2 ^ n

abbrev pub clear_bit : ℕ → ℕ → ℕ
clear_bit n x = if bit n x then x - 2 ^ n else x

half : (n x : ℕ) → x / 2 ^ suc n ≡ x / 2 / 2 ^ n
half n x = ap (λ m. x / m) (omega arith) ∙ sym (div-div-eq-div-mul x 2 (2 ^ n))

bit-suc : (n x : ℕ) → bit (suc n) x ≡ bit n (x / 2)
bit-suc n x = ap (λ z. z % 2 == 1) (half n x)

-- The last bit, and the bits before it.
set_bit-half : (n x : ℕ) → set_bit (suc n) x / 2 ≡ set_bit n (x / 2)
set_bit-half n x =
    rw (bit-suc n x) (elim (Bool-cases (bit n (x / 2))) [
      | inl one ↦ rw one refl
      | inr null ↦ rw null (omega arith)
    ])

set_bit-parity : (n x : ℕ) → set_bit (suc n) x % 2 ≡ x % 2
set_bit-parity n x = elim (Bool-cases (bit (suc n) x)) [
  | inl one ↦ rw one refl
  | inr null ↦ rw null (omega arith)
]

quotient_pos : (n x : ℕ) → bit n x ≡ true → 1 ≤ x / 2 ^ n
quotient_pos n x one = ground arith

at_least : (n x : ℕ) → bit n x ≡ true → 2 ^ n ≤ x
at_least n x one = elim (Bool-cases (ltb x (2 ^ n))) [
  | inl small ↦
      let nothing : x / 2 ^ n ≡ 0 = div-eq_of_lt (ground arith) in
      absurd (omega (arith, nothing, quotient_pos n x one))
  | inr big ↦ ground arith
]

clear_bit-half : (n x : ℕ) → clear_bit (suc n) x / 2 ≡ clear_bit n (x / 2)
clear_bit-half n x = rw (bit-suc n x) (elim (Bool-cases (bit n (x / 2))) [
  | inl one ↦ rw one (omega (arith, at_least n (x / 2) one))
  | inr null ↦ rw null refl
])

clear_bit-parity : (n x : ℕ) → clear_bit (suc n) x % 2 ≡ x % 2
clear_bit-parity n x = elim (Bool-cases (bit (suc n) x)) [
  | inl one ↦ rw one (omega (arith, at_least (suc n) x one))
  | inr null ↦ rw null refl
]

same_last : (x y : ℕ) → x % 2 ≡ y % 2 → bit 0 x ≡ bit 0 y
same_last x y h = ground (arith, h)

set_bit-zero_half : (x : ℕ) → set_bit 0 x / 2 ≡ x / 2
set_bit-zero_half x = ground arith

clear_bit-zero_half : (x : ℕ) → clear_bit 0 x / 2 ≡ x / 2
clear_bit-zero_half x = ground arith

-- The bits above the last one.
bit-suc_of : (j x y : ℕ) → x / 2 ≡ y → bit (suc j) x ≡ bit j y
bit-suc_of j x y h = bit-suc j x ∙ ap (bit j) h

pub bit-set_bit : (n j x : ℕ) → bit j (set_bit n x) ≡ (j == n) || bit j x
bit-set_bit zero zero x = ground arith
bit-set_bit zero (suc j) x =
    let other : (suc j == 0) ≡ false = ground arith in
    rw other (bit-suc_of j (set_bit 0 x) (x / 2) (set_bit-zero_half x) ∙ sym (bit-suc j x))
bit-set_bit (suc n) zero x =
    let other : (0 == suc n) ≡ false = ground arith in
    rw other (same_last (set_bit (suc n) x) x (set_bit-parity n x))
bit-set_bit (suc n) (suc j) x =
    let same : (suc j == suc n) ≡ (j == n) = ground arith in
    rw same (
      bit-suc_of j (set_bit (suc n) x) (set_bit n (x / 2)) (set_bit-half n x)
      ∙ bit-set_bit n j (x / 2)
      ∙ ap (λ b. (j == n) || b) (sym (bit-suc j x)))

pub bit-clear_bit : (n j x : ℕ) → bit j (clear_bit n x) ≡ not (j == n) && bit j x
bit-clear_bit zero zero x = ground arith
bit-clear_bit zero (suc j) x =
    let other : (suc j == 0) ≡ false = ground arith in
    rw other (bit-suc_of j (clear_bit 0 x) (x / 2) (clear_bit-zero_half x) ∙ sym (bit-suc j x))
bit-clear_bit (suc n) zero x =
    let other : (0 == suc n) ≡ false = ground arith in
    rw other (same_last (clear_bit (suc n) x) x (clear_bit-parity n x))
bit-clear_bit (suc n) (suc j) x =
    let same : (suc j == suc n) ≡ (j == n) = ground arith in
    rw same (
      bit-suc_of j (clear_bit (suc n) x) (clear_bit n (x / 2)) (clear_bit-half n x)
      ∙ bit-clear_bit n j (x / 2)
      ∙ ap (λ b. not (j == n) && b) (sym (bit-suc j x)))
